-- ===== src/Types/Config/Environment.antt =====
-- ConfigFromEnv, env, envAliases, envBool and envInt64 of internal/controller/types.go.
use docker_control.Prelude.{
  ℕ, suc, ◌-◌, ◌*◌, ◌%◌, ◌^◌, Bool, true, false, List, [], ◌∷◌, Option, none, some, ltb, ◌=?◌,
  if◌then◌else◌, ℤ, pos, negsuc,
}
use docker_control.Text.{Text, codes, trim_space, parse_int, parse_bool}
use docker_control.EnvFile.{Environment}
use docker_control.Types.Config.{Config}

-- os.Getenv
unfoldable pub get_env : Text → Environment → Text
get_env name [] = []
get_env name ((n, value) ∷ env) = if n =? name then value else get_env name env

unfoldable pub env_aliases : Text → List Text → Environment → Text
unfolding get_env
env_aliases fallback [] e = fallback
env_aliases fallback (name ∷ names) e =
    let value = trim_space (get_env name e) in
    if value =? [] then env_aliases fallback names e else value

-- env(name, fallback)
unfoldable pub env_or : Text → Text → Environment → Text
unfolding get_env
env_or name fallback e =
    let value = trim_space (get_env name e) in if value =? [] then fallback else value

abbrev pub bool_of : Option Bool → Bool
bool_of none = false
bool_of (some b) = b

unfoldable pub env_bool : Text → Bool → Environment → Bool
unfolding get_env
env_bool name fallback e =
    let value = trim_space (get_env name e) in
    if value =? [] then fallback else bool_of (parse_bool value)

abbrev pub int_or : ℤ → Option ℤ → ℤ
int_or fallback none = fallback
int_or fallback (some n) = n

unfoldable pub env_int64 : Text → ℤ → Environment → ℤ
unfolding get_env
env_int64 name fallback e =
    let value = trim_space (get_env name e) in
    if value =? [] then fallback else int_or fallback (parse_int value)

-- The integer of 64 bits with these bits.
abbrev pub of_bits : ℕ → ℤ
of_bits m = if ltb m (2 ^ 63) then pos m else negsuc (2 ^ 64 - m - 1)

-- time.Duration(n) * time.Second, which wraps around
unfoldable pub seconds_of : ℤ → ℤ
seconds_of (pos n) = of_bits (n * 1_000_000_000 % 2 ^ 64)
seconds_of (negsuc n) = of_bits ((2 ^ 64 - suc n * 1_000_000_000 % 2 ^ 64) % 2 ^ 64)

-- ConfigFromEnv's Config; `int` has 64 bits.
unfoldable pub config_from_env : Environment → Config
unfolding env_aliases env_or env_bool env_int64 seconds_of
config_from_env e = record {
  listen_address =
      env_aliases (codes ":16544") (codes "DOCKER_CONTROL_LISTEN" ∷ codes "CONTROLLER_LISTEN" ∷ [])
        e;
  docker_socket =
      env_aliases (codes "/var/run/docker.sock")
        (codes "DOCKER_CONTROL_SOCKET" ∷ codes "DOCKER_SOCKET" ∷ []) e;
  bearer_token = env_aliases [] (codes "DOCKER_CONTROL_TOKEN" ∷ codes "CONTROLLER_TOKEN" ∷ []) e;
  image =
      env_aliases (codes "ubuntu:22.04") (codes "DOCKER_CONTROL_IMAGE" ∷ codes "SANDBOX_IMAGE" ∷ [])
        e;
  pull_missing_image = env_bool (codes "PULL_MISSING_IMAGE") true e;
  allow_network = env_bool (codes "ALLOW_NETWORK") true e;
  sandbox_network = env_or (codes "SANDBOX_NETWORK") (codes "bridge") e;
  public_endpoint =
      env_aliases (codes "auto")
        (codes "DOCKER_CONTROL_PUBLIC_ENDPOINT" ∷ codes "CONTROLLED_DOCKER_ENDPOINT" ∷ []) e;
  memory_bytes = env_int64 (codes "MEMORY_BYTES") (pos 536_870_912) e;
  nano_cpus = env_int64 (codes "NANO_CPUS") (pos 1_000_000_000) e;
  pids_limit = env_int64 (codes "PIDS_LIMIT") (pos 128) e;
  workspace_bytes = env_int64 (codes "WORKSPACE_BYTES") (pos 268_435_456) e;
  execution_timeout = seconds_of (env_int64 (codes "EXECUTION_TIMEOUT_SECONDS") (pos 120) e);
  max_output_bytes = env_int64 (codes "MAX_OUTPUT_BYTES") (pos 20_000) e;
  max_file_bytes = env_int64 (codes "MAX_FILE_BYTES") (pos 1_048_576) e;
  max_containers = env_int64 (codes "MAX_CONTAINERS") (pos 20) e;
  terminal_idle_timeout = seconds_of (env_int64 (codes "TERMINAL_IDLE_SECONDS") (pos 300) e);
  max_terminal_windows = env_int64 (codes "MAX_TERMINAL_WINDOWS") (pos 40) e;
  port_fallbacks = env_int64 (codes "PORT_FALLBACKS") (pos 20) e;
  runtime_file =
      env_aliases [] (codes "DOCKER_CONTROL_RUNTIME_FILE" ∷ codes "CONTROLLER_RUNTIME_FILE" ∷ []) e;
  container_name_prefix = env_or (codes "CONTAINER_NAME_PREFIX") (codes "sandbox") e;
}
