-- ===== src/Types/Config.antt =====
-- Config and Validate of internal/controller/types.go. A Duration counts nanoseconds.
pub mod Environment
use docker_control.Prelude.{
  Bool, true, false, not, ◌&&◌, ◌||◌, [], Option, none, some, ◌=?◌, if◌then◌else◌, ℤ, is_positive,
  is_negative,
}
use docker_control.Errors.{Error, new_error}
use docker_control.Text.{Text, codes, has_prefix}
use docker_control.Types.Keys.{valid_name_prefix}

pub record Config : Type 0 where
  pub listen_address : Text
  pub docker_socket : Text
  pub bearer_token : Text
  pub image : Text
  pub pull_missing_image : Bool
  pub allow_network : Bool
  pub sandbox_network : Text
  pub public_endpoint : Text
  pub memory_bytes : ℤ
  pub nano_cpus : ℤ
  pub pids_limit : ℤ
  pub workspace_bytes : ℤ
  pub execution_timeout : ℤ
  pub max_output_bytes : ℤ
  pub max_file_bytes : ℤ
  pub max_containers : ℤ
  pub terminal_idle_timeout : ℤ
  pub max_terminal_windows : ℤ
  pub port_fallbacks : ℤ
  pub runtime_file : Text
  pub container_name_prefix : Text

-- `cfg.MemoryBytes <= 0 || …`
abbrev pub has_bad_limit : Config → Bool
has_bad_limit cfg =
    not (is_positive cfg.memory_bytes)
    || not (is_positive cfg.nano_cpus)
    || not (is_positive cfg.pids_limit)
    || not (is_positive cfg.workspace_bytes)
    || not (is_positive cfg.max_containers)
    || not (is_positive cfg.terminal_idle_timeout)
    || not (is_positive cfg.max_terminal_windows)

abbrev pub has_bad_endpoint : Config → Bool
has_bad_endpoint cfg =
    not (cfg.public_endpoint =? codes "auto")
    && not (has_prefix cfg.public_endpoint (codes "ws://"))
    && not (has_prefix cfg.public_endpoint (codes "wss://"))

-- `none` is nil.
unfoldable pub validate : Config → Option Error
validate cfg =
    if cfg.bearer_token =? []
    then some (new_error (codes "DOCKER_CONTROL_TOKEN or --token is required"))
    else if has_bad_limit cfg
    then some (
        new_error (
          codes "resource limits, container limit, terminal TTL and window limit must be positive"))
    else if is_negative cfg.port_fallbacks
    then some (new_error (codes "port fallbacks cannot be negative"))
    else if has_bad_endpoint cfg
    then some (new_error (codes "DOCKER_CONTROL_PUBLIC_ENDPOINT must use ws://, wss://, or auto"))
    else if not (valid_name_prefix cfg.container_name_prefix)
    then some (
        new_error (
          codes
            "CONTAINER_NAME_PREFIX must contain only lowercase letters, numbers, dots, dashes, or underscores"))
    else none
