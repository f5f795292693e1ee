-- ===== src/Tests/Values.antt =====
-- Concrete paths, directories and configurations of internal/controller/types.go and terminal.go.
use docker_control.Prelude.{
  ℕ, true, false, List, [], ◌∷◌, ◌++◌, ◌≡◌, ◌≤◌, refl, none, pos, arith, ◌=?◌,
}
use docker_control.Errors.{ok}
use docker_control.Text.{
  Text, codes, trim_space, join, split, replace_byte, contains, contains_any, trim_right,
}
use docker_control.Types.Keys.{
  valid_key, valid_image, valid_snapshot_id, valid_snapshot_name, valid_name_prefix, secure_equal,
}
use docker_control.Bytes.Hex.{encode_hex}
use docker_control.Types.Paths.{root, safe_workspace_path, endpoint_for, health_endpoint_for}
use docker_control.Types.Paths.Inside.{
  IsPlain, IsInside, safe_workspace_path-IsInside, safe_workspace_path-join,
}
use docker_control.Types.Config.{Config, validate}
use docker_control.Terminal.Workdir.{safe_terminal_workdir, IsBelow, safe_terminal_workdir-IsBelow}
use docker_control.Terminal.Hub.{
  outside, loaded, inside, Hub, turn, loads, swaps, load, swap, Reach, here, next,
}
use docker_control.Terminal.Hub.Limit.{windows, new_hub, windows_limit}
use docker_control.Terminal.Hub.Pool.{Runs, views, Reach-Runs}

abbrev given : Text
given = codes " src\\main.go"

abbrev led_to : Text
led_to = codes "/workspace/src/main.go"

given_accepted : safe_workspace_path given ≡ ok led_to
unfolding safe_workspace_path ◌=?◌ replace_byte trim_space split join
given_accepted = refl

safe_workspace_path-IsInside_example : IsInside led_to
safe_workspace_path-IsInside_example = safe_workspace_path-IsInside given led_to given_accepted

abbrev first_name : Text
first_name = codes "a"

abbrev other_names : List Text
other_names = codes "b" ∷ []

first_IsPlain : IsPlain first_name
first_IsPlain = record {
  not_empty = λ e. cc;
  not_here = λ e. ground arith;
  not_parent = λ e. cc;
  no_slash = (λ e. omega arith, tt);
  no_backslash = (λ e. omega arith, tt);
}

other_IsPlain : IsPlain (codes "b")
other_IsPlain = record {
  not_empty = λ e. cc;
  not_here = λ e. ground arith;
  not_parent = λ e. cc;
  no_slash = (λ e. omega arith, tt);
  no_backslash = (λ e. omega arith, tt);
}

names_trimmed :
    trim_space (join (first_name ∷ other_names) b'/') ≡ join (first_name ∷ other_names) b'/'
unfolding trim_space join
names_trimmed = refl

safe_workspace_path-join_example :
    safe_workspace_path (join (first_name ∷ other_names) b'/')
    ≡ ok (root ++ join (first_name ∷ other_names) b'/')
safe_workspace_path-join_example =
    safe_workspace_path-join first_name other_names (first_IsPlain, (other_IsPlain, tt))
      names_trimmed

abbrev pub config : Config
config = record {
  listen_address = codes "127.0.0.1:16544";
  docker_socket = codes "/var/run/docker.sock";
  bearer_token = codes "secret";
  image = codes "python:3.12";
  pull_missing_image = true;
  allow_network = false;
  sandbox_network = codes "none";
  public_endpoint = codes "auto";
  memory_bytes = pos 536870912;
  nano_cpus = pos 1000000000;
  pids_limit = pos 128;
  workspace_bytes = pos 268435456;
  execution_timeout = pos 30000000000;
  max_output_bytes = pos 65536;
  max_file_bytes = pos 1048576;
  max_containers = pos 20;
  terminal_idle_timeout = pos 600000000000;
  max_terminal_windows = pos 40;
  port_fallbacks = pos 20;
  runtime_file = [];
  container_name_prefix = codes "sandbox";
}

config_accepted : validate config ≡ none
unfolding validate ◌=?◌ valid_name_prefix
config_accepted = refl

abbrev below : Text
below = codes "/workspace/src"

below_accepted : safe_terminal_workdir below ≡ ok below
unfolding safe_terminal_workdir ◌=?◌ trim_space contains
below_accepted = refl

safe_terminal_workdir-IsBelow_example : IsBelow below
safe_terminal_workdir-IsBelow_example = safe_terminal_workdir-IsBelow below below below_accepted

-- Two requests have loaded 0, and the first of them has swapped.
abbrev one_open : Hub
one_open = record { open_windows = 1; requests = inside ∷ loaded 0 ∷ [] }

one_open_reached : Reach 1 (new_hub 2) one_open
unfolding load swap
one_open_reached =
    next (next (next here (turn [] (outside ∷ []) (loads 0))) (turn (loaded 0 ∷ []) [] (loads 0)))
      (turn [] (loaded 0 ∷ []) (swaps 0 0))

windows_limit_example : (1 ≡ windows one_open.requests) × (1 ≤ 1)
windows_limit_example = windows_limit 1 2 one_open one_open_reached

Reach-Runs_example : Runs 1 (views (new_hub 2).requests) (views one_open.requests)
Reach-Runs_example = Reach-Runs 1 2 one_open one_open_reached

endpoints :
    (endpoint_for (codes "wss://host/") (codes "key-0001")
      ≡ codes "wss://host/v1/controlled/key-0001/terminal")
    × (health_endpoint_for (codes "wss://host/") (codes "key-0001")
        ≡ codes "https://host/v1/controlled/key-0001")
unfolding endpoint_for health_endpoint_for trim_right
endpoints = (refl, refl)

keys :
    (valid_key (codes "key_0-01") ≡ true)
    × (valid_key (codes "Key-0001") ≡ false)
    × (valid_image (codes " ") ≡ false)
    × (valid_snapshot_id (codes "0123456789af") ≡ true)
    × (valid_snapshot_name [] ≡ true)
    × (valid_name_prefix (codes "a.b") ≡ true)
    × (secure_equal (codes "ab") (codes "ab") ≡ true)
unfolding valid_key valid_image valid_snapshot_id valid_snapshot_name valid_name_prefix secure_equal
    ◌=?◌ trim_space contains_any
keys = (refl, refl, refl, refl, refl, refl, refl)

abbrev drawn : List ℕ
drawn = 0 ∷ 255 ∷ 16 ∷ 171 ∷ 9 ∷ 160 ∷ []

drawn_id : valid_snapshot_id (encode_hex drawn) ≡ true
unfolding valid_snapshot_id encode_hex
drawn_id = refl
