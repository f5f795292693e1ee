-- ===== src/Command/Install.antt =====
-- systemdUnit, systemctl, copyExecutable and runInstall of internal/command/command.go.
use docker_control.Prelude.{ℕ, Option, Bool, not, List, [], ◌∷◌, ◌++◌, ◌=?◌, if◌then◌else◌, ℤ}
use docker_control.Errors.{Result, ok, err, new_error, wrap_behind}
use docker_control.Text.{Text, codes, join}
use docker_control.Command.{systemd_quote}
use docker_control.Command.Machine.{
  Log, Machine, P, pure, fail, lift, attempt, ignored, act, printed, write_file, remove, rename,
  chmod, open_file, create_file, copy_file, close_file, ran, ◌>>=◌, ◌>>◌,
}
use docker_control.Command.Layout.{Layout, absolute}
use docker_control.Command.Removal.{service_name}
use docker_control.Command.Prepare.{Options, install_mode, prepare}

-- The unit, with the directory and the files of a layout
unfoldable pub systemd_unit : Layout → Text
systemd_unit layout =
    codes
      "[Unit]\nDescription=Portable managed Docker sandbox control\nWants=network-online.target\n"
    ++ (codes "After=network-online.target docker.service\n\n[Service]\nType=simple\n"
        ++ (codes "User=root\nGroup=root\nEnvironmentFile="
            ++ (systemd_quote layout.config
                ++ (codes "\nExecStart="
                    ++ (systemd_quote layout.bin
                        ++ (codes " server --home "
                            ++ (systemd_quote layout.root
                                ++ (codes "\nWorkingDirectory="
                                    ++ (systemd_quote layout.root
                                        ++ (codes
                                              "\nRestart=on-failure\nRestartSec=3s\nTimeoutStopSec=15s\n"
                                            ++ (codes
                                                  "NoNewPrivileges=true\nPrivateTmp=true\nProtectSystem=strict\n"
                                                ++ (codes "ProtectHome=read-only\nReadWritePaths="
                                                    ++ (systemd_quote layout.state
                                                        ++ (codes
                                                            "\nProtectKernelTunables=true\nProtectKernelModules=true\n"
                                                            ++ (codes
                                                            "ProtectControlGroups=true\nRestrictSUIDSGID=true\n"
                                                            ++ (codes
                                                            "LockPersonality=true\nRestrictAddressFamilies="
                                                            ++ codes
                                                            "AF_UNIX AF_INET AF_INET6\n\n[Install]\nWantedBy=multi-user.target\n"))))))))))))))))

module _ (m : Machine) where
  abbrev pub systemctl_result : List Text → Result (Unit {0}) → P (Unit {0})
  systemctl_result words (ok _) = pure tt
  systemctl_result words (err e) =
      fail (wrap_behind (codes "systemctl " ++ (join words b' ' ++ codes ": ")) e)

  -- systemctl(arguments...)
  unfoldable pub systemctl : List Text → P (Unit {0})
  systemctl words = do
    done ← attempt (act m (ran (codes "systemctl" ∷ words)))
    systemctl_result words done

  -- copyExecutable where the two paths differ
  unfoldable pub copy_over : Text → Text → P (Unit {0})
  copy_over source target = do
    act m (open_file source)
    let temporary = target ++ codes ".tmp"
    act m (create_file temporary)
    copied ← attempt (act m (copy_file source temporary))
    closed ← attempt (act m (close_file temporary))
    lift copied
    lift closed
    ignored (act m (remove target))
    act m (rename temporary target)

  unfoldable pub copy_executable : Text → Text → P (Unit {0})
  unfolding copy_over
  copy_executable source target = do
    source' ← absolute m source
    target' ← absolute m target
    if source' =? target' then act m (chmod target') else copy_over source' target'

-- `linux` is runtime.GOOS == "linux".
module _ (m : Machine) (ranged : Log → List (Text × Text) → List (Text × Text))
    (marker_bytes : Log → Text → List ℕ) (parse_int0 : Text → Option ℤ) (linux : Bool) where
  abbrev pub installed_lines : Layout → Text
  installed_lines layout =
      codes "installed: "
      ++ (layout.bin
          ++ (codes "\nunit: "
              ++ (layout.unit ++ (codes "\nservice: " ++ (service_name ++ codes "\n")))))

  abbrev pub link_and_start : Layout → Options → P (Unit {0})
  link_and_start layout o = do
    systemctl m (codes "link" ∷ codes "--force" ∷ layout.unit ∷ [])
    systemctl m (codes "daemon-reload" ∷ [])
    if o.migrate_legacy
        then ignored (
            systemctl m
              (codes "disable" ∷ codes "--now" ∷ codes "astrbot-docker-controller.service" ∷ []))
        else pure tt
    if o.no_start then pure tt else systemctl m (codes "enable" ∷ codes "--now" ∷ service_name ∷ [])
    act m (printed (installed_lines layout))

  unfoldable pub run_install : List Text → P (Unit {0})
  unfolding systemctl copy_executable systemd_unit
  run_install arguments =
      if not linux
      then fail (new_error (codes "install requires the Linux binary and systemd"))
      else (do
        ((cfg, layout), o) ← prepare m ranged marker_bytes parse_int0 arguments install_mode
        program ← lift m.executable
        copy_executable m program layout.bin
        act m (write_file layout.unit (systemd_unit layout))
        link_and_start layout o)
