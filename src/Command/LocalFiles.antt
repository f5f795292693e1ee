-- ===== src/Command/LocalFiles.antt =====
-- ensureLocalFiles, ensureMarker and randomToken of internal/command/command.go.
pub mod Lines
pub mod Lookups
pub mod ReadBack
use docker_control.Prelude.{
  ℕ, suc, ◌/◌, Bool, true, false, List, [], ◌∷◌, ◌++◌, ◌=?◌, if◌then◌else◌, ℤ, pos, negsuc,
}
use docker_control.Errors.{Error, Result, ok, err, new_error}
use docker_control.Text.{Text, codes, contains_any, dir, itoa_int, negative}
use docker_control.Bytes.Hex.{encode_hex}
use docker_control.EnvFile.{assignment}
use docker_control.Types.Config.{Config}
use docker_control.Command.Machine.{
  Log, Machine, Proc, P, pure, using, fail, lift, attempt, act, stat, mkdir_all, write_file,
  random_of, ◌>>=◌, ◌>>◌,
}
use docker_control.Command.Layout.{Layout}
use docker_control.Command.Removal.{is_missing}

-- %t
abbrev pub bool_text : Bool → Text
bool_text b = if b then codes "true" else codes "false"

-- int(d.Seconds()), for whole seconds and for what is less than half a year
unfoldable pub whole_seconds : ℤ → ℤ
whole_seconds (pos n) = pos (n / 1_000_000_000)
whole_seconds (negsuc n) = negative (suc n / 1_000_000_000)

-- The names and values of the configuration file, in its order
unfoldable pub local_settings : Config → List (Text × Text)
unfolding whole_seconds
local_settings cfg =
    (codes "DOCKER_CONTROL_TOKEN", cfg.bearer_token)
    ∷ (codes "DOCKER_CONTROL_LISTEN", cfg.listen_address)
    ∷ (codes "PORT_FALLBACKS", itoa_int cfg.port_fallbacks)
    ∷ (codes "DOCKER_CONTROL_SOCKET", cfg.docker_socket)
    ∷ (codes "DOCKER_CONTROL_PUBLIC_ENDPOINT", cfg.public_endpoint)
    ∷ (codes "DOCKER_CONTROL_IMAGE", cfg.image)
    ∷ (codes "CONTAINER_NAME_PREFIX", cfg.container_name_prefix)
    ∷ (codes "PULL_MISSING_IMAGE", bool_text cfg.pull_missing_image)
    ∷ (codes "ALLOW_NETWORK", bool_text cfg.allow_network)
    ∷ (codes "SANDBOX_NETWORK", cfg.sandbox_network)
    ∷ (codes "TERMINAL_IDLE_SECONDS", itoa_int (whole_seconds cfg.terminal_idle_timeout))
    ∷ (codes "MAX_TERMINAL_WINDOWS", itoa_int cfg.max_terminal_windows)
    ∷ (codes "MAX_CONTAINERS", itoa_int cfg.max_containers)
    ∷ (codes "EXECUTION_TIMEOUT_SECONDS", itoa_int (whole_seconds cfg.execution_timeout))
    ∷ []

unfoldable pub written_lines : List (Text × Text) → Text
written_lines [] = []
written_lines ((name, value) ∷ pairs) = assignment name value ++ (b'\n' ∷ written_lines pairs)

-- `content`
unfoldable pub local_content : Config → Text
unfolding local_settings written_lines
local_content cfg = written_lines (local_settings cfg)

-- The map that is tested for line breaks.
abbrev pub tested : Config → List (Text × Text)
tested cfg =
    (codes "token", cfg.bearer_token)
    ∷ (codes "listen", cfg.listen_address)
    ∷ (codes "socket", cfg.docker_socket)
    ∷ (codes "endpoint", cfg.public_endpoint)
    ∷ (codes "image", cfg.image)
    ∷ (codes "prefix", cfg.container_name_prefix)
    ∷ (codes "network", cfg.sandbox_network)
    ∷ []

unfoldable pub test_breaks : List (Text × Text) → Result (Unit {0})
test_breaks [] = ok tt
test_breaks ((name, value) ∷ pairs) =
    if contains_any value (codes "\r\n")
    then err (new_error (name ++ codes " contains a line break"))
    else test_breaks pairs

-- `ranged` is the order in which Go ranges over a map, and `marker_bytes` is json.MarshalIndent on the
-- marker of a root and the present time.
module _ (m : Machine) (ranged : Log → List (Text × Text) → List (Text × Text))
    (marker_bytes : Log → Text → List ℕ) where
  abbrev pub make_marker : Layout → Result (Unit {0}) → P (Unit {0})
  make_marker layout (ok _) = pure tt
  make_marker layout (err e) =
      if is_missing e
      then using (λ log. act m (write_file layout.marker (marker_bytes log layout.root)))
      else fail e

  unfoldable pub ensure_marker : Layout → P (Unit {0})
  ensure_marker layout = do
    act m (mkdir_all (dir layout.bin))
    found ← attempt (act m (stat layout.marker))
    make_marker layout found

  abbrev pub make_config : Layout → Config → Result (Unit {0}) → P (Unit {0})
  make_config layout cfg (ok _) = pure tt
  make_config layout cfg (err e) =
      if is_missing e then act m (write_file layout.config (local_content cfg)) else fail e

  unfoldable pub ensure_local_files : Layout → Config → P (Unit {0})
  unfolding ensure_marker local_content test_breaks
  ensure_local_files layout cfg = do
    act m (mkdir_all (dir layout.bin))
    using (λ log. lift (test_breaks (ranged log (tested cfg))))
    found ← attempt (act m (stat layout.config))
    make_config layout cfg found
    ensure_marker layout

module _ (m : Machine) where
  unfoldable pub random_token : P Text
  random_token = do bytes ← random_of m 32; pure (encode_hex bytes)
