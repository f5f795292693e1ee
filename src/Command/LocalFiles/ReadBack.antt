-- ===== src/Command/LocalFiles/ReadBack.antt =====
-- What LoadEnvFile and ConfigFromEnv make of the file that ensureLocalFiles of
-- internal/command/command.go writes.
use docker_control.Prelude.{
  ◌≡◌, ◌≢◌, refl, sym, ap, ◌∙◌, true, false, List, [], ◌∷◌, Option, none, All, ◌=?◌,
}
use mathlib.Core.Path.{subst}
use docker_control.Errors.{Error}
use docker_control.Text.{Text, codes}
use docker_control.EnvFile.{Environment, is_set}
use docker_control.EnvFile.Assignments.{settings}
use docker_control.EnvFile.Scanning.{load_contents}
use docker_control.Types.Config.{Config}
use docker_control.Types.Config.Environment.{get_env, config_from_env}
use docker_control.Command.LocalFiles.{bool_text, local_settings, local_content}
use docker_control.Command.LocalFiles.Lines.{IsLine, load_contents-written_lines}
use docker_control.Command.LocalFiles.Lookups.{
  IsCount, IsSeconds, env_aliases-found, env_or-found, env_bool-found, count_read, seconds_read,
}

-- The pairs in front of the environment, the last one first.
abbrev onto : List (Text × Text) → Environment → Environment
onto [] env = env
onto (pair ∷ pairs) env = onto pairs (pair ∷ env)

abbrev Fresh : List (Text × Text) → Environment → Type 0
Fresh [] env = Unit
Fresh (pair ∷ pairs) env = (is_set pair.0 env ≡ false) × Fresh pairs (pair ∷ env)

settings-Fresh :
    (pairs : List (Text × Text)) (env : Environment)
    → Fresh pairs env
    → settings pairs env ≡ onto pairs env
unfolding settings
settings-Fresh [] env h = refl
settings-Fresh (pair ∷ pairs) env (h, hs) = rw h (settings-Fresh pairs (pair ∷ env) hs)

-- What of a configuration the file can carry: lines of their own, texts that are not empty, numbers
-- that are not negative, and durations of whole seconds.
pub record IsStorable (cfg : Config) : Type 0 where
  pub lines : All IsLine (local_settings cfg)
  pub bearer_token_given : cfg.bearer_token ≢ []
  pub listen_address_given : cfg.listen_address ≢ []
  pub docker_socket_given : cfg.docker_socket ≢ []
  pub public_endpoint_given : cfg.public_endpoint ≢ []
  pub image_given : cfg.image ≢ []
  pub container_name_prefix_given : cfg.container_name_prefix ≢ []
  pub sandbox_network_given : cfg.sandbox_network ≢ []
  pub port_fallbacks_counts : IsCount cfg.port_fallbacks
  pub max_terminal_windows_counts : IsCount cfg.max_terminal_windows
  pub max_containers_counts : IsCount cfg.max_containers
  pub terminal_idle_timeout_whole : IsSeconds cfg.terminal_idle_timeout
  pub execution_timeout_whole : IsSeconds cfg.execution_timeout

-- The settings of the file are the same in both.
pub record IsSame (cfg read : Config) : Type 0 where
  pub same_bearer_token : read.bearer_token ≡ cfg.bearer_token
  pub same_listen_address : read.listen_address ≡ cfg.listen_address
  pub same_port_fallbacks : read.port_fallbacks ≡ cfg.port_fallbacks
  pub same_docker_socket : read.docker_socket ≡ cfg.docker_socket
  pub same_public_endpoint : read.public_endpoint ≡ cfg.public_endpoint
  pub same_image : read.image ≡ cfg.image
  pub same_container_name_prefix : read.container_name_prefix ≡ cfg.container_name_prefix
  pub same_pull_missing_image : read.pull_missing_image ≡ cfg.pull_missing_image
  pub same_allow_network : read.allow_network ≡ cfg.allow_network
  pub same_sandbox_network : read.sandbox_network ≡ cfg.sandbox_network
  pub same_terminal_idle_timeout : read.terminal_idle_timeout ≡ cfg.terminal_idle_timeout
  pub same_max_terminal_windows : read.max_terminal_windows ≡ cfg.max_terminal_windows
  pub same_max_containers : read.max_containers ≡ cfg.max_containers
  pub same_execution_timeout : read.execution_timeout ≡ cfg.execution_timeout

module _ (cfg : Config) (env : Environment) (h : IsStorable cfg) where
  abbrev stored : Environment
  stored = onto (local_settings cfg) env

  stored-IsSame : IsSame cfg (config_from_env stored)
  unfolding config_from_env local_settings get_env ◌=?◌
  stored-IsSame =
      let (
        token,
        (
          listen,
          (
            ports,
            (
              socket,
              (
                endpoint,
                (
                  image,
                  (
                    prefix,
                    (pull, (allow, (network, (idle, (windows, (containers, (execution, _))))))),
                  ),
                ),
              ),
            ),
          ),
        ),
      ) =
        h.lines in
      record {
        same_bearer_token =
            env_aliases-found stored (codes "DOCKER_CONTROL_TOKEN") cfg.bearer_token refl
              token.writable.whole_value [] (codes "CONTROLLER_TOKEN" ∷ []) h.bearer_token_given;
        same_listen_address =
            env_aliases-found stored (codes "DOCKER_CONTROL_LISTEN") cfg.listen_address refl
              listen.writable.whole_value (codes ":16544") (codes "CONTROLLER_LISTEN" ∷ [])
              h.listen_address_given;
        same_port_fallbacks =
            count_read stored (codes "PORT_FALLBACKS") _ cfg.port_fallbacks refl
              ports.writable.whole_value h.port_fallbacks_counts;
        same_docker_socket =
            env_aliases-found stored (codes "DOCKER_CONTROL_SOCKET") cfg.docker_socket refl
              socket.writable.whole_value (codes "/var/run/docker.sock")
              (codes "DOCKER_SOCKET" ∷ []) h.docker_socket_given;
        same_public_endpoint =
            env_aliases-found stored (codes "DOCKER_CONTROL_PUBLIC_ENDPOINT") cfg.public_endpoint
              refl endpoint.writable.whole_value (codes "auto")
              (codes "CONTROLLED_DOCKER_ENDPOINT" ∷ []) h.public_endpoint_given;
        same_image =
            env_aliases-found stored (codes "DOCKER_CONTROL_IMAGE") cfg.image refl
              image.writable.whole_value (codes "ubuntu:22.04") (codes "SANDBOX_IMAGE" ∷ [])
              h.image_given;
        same_container_name_prefix =
            env_or-found stored (codes "CONTAINER_NAME_PREFIX") cfg.container_name_prefix refl
              prefix.writable.whole_value _ h.container_name_prefix_given;
        same_pull_missing_image =
            env_bool-found stored (codes "PULL_MISSING_IMAGE") (bool_text cfg.pull_missing_image)
              refl true cfg.pull_missing_image refl;
        same_allow_network =
            env_bool-found stored (codes "ALLOW_NETWORK") (bool_text cfg.allow_network) refl true
              cfg.allow_network refl;
        same_sandbox_network =
            env_or-found stored (codes "SANDBOX_NETWORK") cfg.sandbox_network refl
              network.writable.whole_value _ h.sandbox_network_given;
        same_terminal_idle_timeout =
            seconds_read stored (codes "TERMINAL_IDLE_SECONDS") _ cfg.terminal_idle_timeout refl
              idle.writable.whole_value h.terminal_idle_timeout_whole;
        same_max_terminal_windows =
            count_read stored (codes "MAX_TERMINAL_WINDOWS") _ cfg.max_terminal_windows refl
              windows.writable.whole_value h.max_terminal_windows_counts;
        same_max_containers =
            count_read stored (codes "MAX_CONTAINERS") _ cfg.max_containers refl
              containers.writable.whole_value h.max_containers_counts;
        same_execution_timeout =
            seconds_read stored (codes "EXECUTION_TIMEOUT_SECONDS") _ cfg.execution_timeout refl
              execution.writable.whole_value h.execution_timeout_whole;
      }

  -- In an environment that sets none of its names, the file that ensureLocalFiles has written is read
  -- by LoadEnvFile without an error, and ConfigFromEnv then finds the fourteen settings in it as they
  -- were written, if the configuration is one that a file can carry: its texts are not empty, they hold
  -- no line break and no zero byte, neither begin nor end with white space or a quote, and make
  -- lines shorter than 65536 bytes; its counts are not negative and below 2 ^ 63, and so are its
  -- durations, which are whole seconds.
  pub load_contents-local_content :
      All (λ pair. is_set pair.0 env ≡ false) (local_settings cfg)
      → ((load_contents (local_content cfg) env).0 ≡ none)
        × IsSame cfg (config_from_env (load_contents (local_content cfg) env).1)
  unfolding local_content local_settings is_set ◌=?◌
  load_contents-local_content unset =
      let loaded = load_contents-written_lines (local_settings cfg) env h.lines in
      let put = settings-Fresh (local_settings cfg) env unset in
      (
        ap (λ (p : Option Error × Environment). p.0) loaded,
        subst (λ e. IsSame cfg (config_from_env e))
            (sym (ap (λ (p : Option Error × Environment). p.1) loaded ∙ put)) stored-IsSame,
      )
