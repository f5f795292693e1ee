-- ===== src/Command/Help.antt =====
-- printHelp of internal/command/command.go.
use docker_control.Prelude.{String, List, [], ◌∷◌, ◌++◌}
use docker_control.Text.{Text, codes}

-- Each line with its line feed
abbrev lines : List String → Text
lines [] = []
lines (line ∷ rest) = codes line ++ (b'\n' ∷ lines rest)

-- The text of printHelp
abbrev pub help_text : Text
help_text = lines (
    "docker-control - portable managed Docker sandbox" ∷ "" ∷ "Usage:"
    ∷ "  docker-control server [options]     Create local state/config and run foreground"
    ∷ "  docker-control install [options]    Self-install into $PWD/.docker-control and enable systemd"
    ∷ "  docker-control uninstall [options]  Disable systemd, delete managed sandboxes and local state"
    ∷ "  docker-control status [options]     Show service, runtime and sandbox state"
    ∷ "  docker-control config [options]     Create/show local configuration paths"
    ∷ "  docker-control version" ∷ "  docker-control help" ∷ "" ∷ "Common options:"
    ∷ "  --home PATH                 Deployment root (default: current directory)"
    ∷ "  --env-file PATH             Use an explicit environment file"
    ∷ "  --port PORT                 Listen port (default: 16544)"
    ∷ "  --port-fallbacks COUNT      Higher ports to try when unavailable (default: 20)"
    ∷ "  --image IMAGE               Fixed sandbox image"
    ∷ "  --token TOKEN               Management token (generated when omitted)"
    ∷ "  --controlled-endpoint URL   ws/wss base injected into sandboxes"
    ∷ "  --name-prefix PREFIX        Container name prefix (default: sandbox)" ∷ ""
    ∷ "Install option:"
    ∷ "  --no-start                  Install/link systemd without enabling or starting it"
    ∷ "  --migrate-legacy            Import and stop the former AstrBot-named systemd unit" ∷ ""
    ∷ "Uninstall options:" ∷ "  --keep-containers           Do not delete managed sandboxes"
    ∷ "  --keep-files                Keep $PWD/.docker-control after disabling the service"
    ∷ "  --force                     Continue file cleanup if Docker cleanup fails" ∷ [])
