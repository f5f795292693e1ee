-- ===== src/Command/Prepare.antt =====
-- prepare of internal/command/command.go: the configuration, from the environment, a file and flags.
pub mod Keeps
use docker_control.Prelude.{
  ℕ, Bool, true, false, not, ◌&&◌, ◌||◌, List, [], ◌∷◌, ◌++◌, Option, none, some, ◌=?◌,
  if◌then◌else◌, ℤ, pos, negsuc, is_negative,
}
use docker_control.Errors.{Error, Result, ok, err, new_error}
use docker_control.Text.{Text, codes, join_paths}
use docker_control.EnvFile.{Environment}
use docker_control.EnvFile.Scanning.{load_contents}
use docker_control.Types.Config.{Config, validate}
use docker_control.Types.Config.Environment.{config_from_env, int_or}
use docker_control.Ports.Address.{with_port}
use docker_control.Command.{pre_argument, has_argument}
use docker_control.Command.Machine.{
  Log, Machine, Proc, P, pure, gets, fail, lift, attempt, ignored, act, done, stat, mkdir_all,
  write_file, printed, contents_of, ◌>>=◌, ◌>>◌,
}
use docker_control.Command.Layout.{Layout, resolve_layout}
use docker_control.Command.Removal.{is_missing}
use docker_control.Command.LocalFiles.{ensure_local_files, ensure_marker, random_token}
use docker_control.Command.Flags.{
  Flags, text_flag, int_flag, bool_flag, parse_flags, flag_value, flag_bool,
}

pub data Mode : Type 0 where
  server_mode : Mode
  install_mode : Mode
  config_mode : Mode

abbrev pub is_install : Mode → Bool
is_install install_mode = true
is_install _ = false

pub record Options : Type 0 where
  pub home : Text
  pub env_file : Text
  pub port : ℤ
  pub listen : Text
  pub port_fallbacks : ℤ
  pub image : Text
  pub token : Text
  pub controlled_endpoint : Text
  pub runtime_file : Text
  pub name_prefix : Text
  pub no_start : Bool
  pub migrate_legacy : Bool

abbrev pub prepare_flags : Mode → Flags
prepare_flags mode =
    (codes "home", text_flag)
    ∷ (codes "env-file", text_flag)
    ∷ (codes "port", int_flag)
    ∷ (codes "listen", text_flag)
    ∷ (codes "port-fallbacks", int_flag)
    ∷ (codes "image", text_flag)
    ∷ (codes "token", text_flag)
    ∷ (codes "controlled-endpoint", text_flag)
    ∷ (codes "runtime-file", text_flag)
    ∷ (codes "name-prefix", text_flag)
    ∷ (if is_install mode
        then (codes "no-start", bool_flag) ∷ (codes "migrate-legacy", bool_flag) ∷ []
        else [])

abbrev pub legacy_env : Text
legacy_env = codes "/etc/astrbot-docker-controller/controller.env"

abbrev pub given_token : Config → Text → Config
given_token cfg token = record cfg { bearer_token = token }

-- `parse_int0` is strconv.ParseInt(text, 0, 64).
abbrev pub is_some : Option ℤ → Bool
is_some none = false
is_some (some n) = true

abbrev pub int_flag_value : (Text → Option ℤ) → Text → ℤ → List (Text × Text) → ℤ
int_flag_value parse_int0 name value pairs = int_or value (parse_int0 (flag_value name [] pairs))

module _ (m : Machine) where
  abbrev pub loaded : Option Error × Environment → Proc → Result (Unit {0}) × Proc
  loaded (failed, env) s = (done failed, record s { env = env })

  -- LoadEnvFile
  unfoldable pub load_env_file : Text → P (Unit {0})
  load_env_file path = do
    contents ← contents_of m path
    (λ s. loaded (load_contents contents s.env) s)

  abbrev pub copy_legacy : Layout → Result (List ℕ) → P (Unit {0})
  copy_legacy layout (err e) = pure tt
  copy_legacy layout (ok payload) = do
    act m (mkdir_all layout.state)
    act m (write_file layout.config payload)

  abbrev pub migrate_if_missing : Layout → Result (Unit {0}) → P (Unit {0})
  migrate_if_missing layout (ok _) = pure tt
  migrate_if_missing layout (err e) =
      if is_missing e
      then (do payload ← attempt (contents_of m legacy_env); copy_legacy layout payload)
      else pure tt

  -- the import of the former service's file
  unfoldable pub migrate : Mode → List Text → Layout → P (Unit {0})
  migrate mode arguments layout =
      if is_install mode && has_argument arguments (codes "--migrate-legacy")
      then (do found ← attempt (act m (stat layout.config)); migrate_if_missing layout found)
      else pure tt

  abbrev pub load_found : Text → Result (Unit {0}) → P (Unit {0})
  load_found path (ok _) = load_env_file path
  load_found path (err e) = if is_missing e then pure tt else fail e

  unfoldable pub load_environment : Text → P (Unit {0})
  unfolding load_env_file
  load_environment path = do found ← attempt (act m (stat path)); load_found path found

  -- the configuration of the environment, with a token
  unfoldable pub environment_config : P Config
  environment_config = do
    cfg ← gets (λ s. config_from_env s.env)
    token ← if cfg.bearer_token =? [] then random_token m else pure cfg.bearer_token
    pure (given_token cfg token)

-- The options behind the flags
unfoldable pub options_of :
    (Text → Option ℤ) → Layout → Text → Config → List (Text × Text) → Options
options_of parse_int0 layout explicit cfg set = record {
  home = flag_value (codes "home") layout.root set;
  env_file = flag_value (codes "env-file") explicit set;
  port = int_flag_value parse_int0 (codes "port") (negsuc 0) set;
  listen = flag_value (codes "listen") cfg.listen_address set;
  port_fallbacks = int_flag_value parse_int0 (codes "port-fallbacks") cfg.port_fallbacks set;
  image = flag_value (codes "image") cfg.image set;
  token = flag_value (codes "token") cfg.bearer_token set;
  controlled_endpoint = flag_value (codes "controlled-endpoint") cfg.public_endpoint set;
  runtime_file = flag_value (codes "runtime-file") layout.runtime set;
  name_prefix = flag_value (codes "name-prefix") cfg.container_name_prefix set;
  no_start = flag_bool (codes "no-start") set;
  migrate_legacy = flag_bool (codes "migrate-legacy") set;
}

-- The runtime file of a resolved layout
abbrev pub runtime_of : Layout → Options → Text
runtime_of layout o =
    if o.runtime_file =? []
      || o.runtime_file
        =? join_paths (layout.root ∷ codes ".docker-control" ∷ codes "runtime.json" ∷ [])
    then layout.runtime
    else o.runtime_file

abbrev pub settled : Layout → Options → Options
settled layout o = record o { runtime_file = runtime_of layout o }

-- The configuration behind the options; an `if` with the port
abbrev pub listen_of : Config → Options → Result Text
listen_of cfg o = if is_negative o.port then ok o.listen else with_port o.listen o.port

abbrev pub configured : Config → Options → Text → Config
configured cfg o listen = record cfg {
  listen_address = listen;
  port_fallbacks = o.port_fallbacks;
  image = o.image;
  bearer_token = o.token;
  public_endpoint = o.controlled_endpoint;
  runtime_file = o.runtime_file;
  container_name_prefix = o.name_prefix;
  sandbox_network = if cfg.allow_network then cfg.sandbox_network else codes "none";
}

module _ (m : Machine) (ranged : Log → List (Text × Text) → List (Text × Text))
    (marker_bytes : Log → Text → List ℕ) (parse_int0 : Text → Option ℤ) where
  abbrev pub state_lines : Layout → Text
  state_lines layout =
      codes "state: " ++ (layout.state ++ (codes "\nconfig: " ++ (layout.config ++ codes "\n")))

  abbrev pub keep_files : Mode → Text → Layout → Config → P (Unit {0})
  keep_files mode explicit layout cfg =
      if explicit =? []
      then (do
        ensure_local_files m ranged marker_bytes layout cfg
        ignored (act m (printed (state_lines layout))))
      else (do
        ensure_marker m ranged marker_bytes layout
        if is_install mode
            then (do payload ← contents_of m explicit; act m (write_file layout.config payload))
            else pure tt)

  -- prepare behind the parsing of the flags
  unfoldable pub settle : Mode → Text → Layout → Config → Options → P ((Config × Layout) × Options)
  settle mode explicit first cfg o = do
    layout ← resolve_layout m o.home
    if not (layout.root =? first.root) && explicit =? []
        then fail (
            new_error
              (codes "--home must be resolved before configuration; place it before other options"))
        else do
          let o' = settled layout o
          listen ← lift (listen_of cfg o')
          let cfg' = configured cfg o' listen
          lift (done (validate cfg'))
          keep_files mode explicit layout cfg'
          pure ((cfg', layout), o')

  unfoldable pub prepare : List Text → Mode → P ((Config × Layout) × Options)
  unfolding settle migrate load_environment environment_config options_of
  prepare arguments mode = do
    layout ← resolve_layout m (pre_argument arguments (codes "--home"))
    let explicit = pre_argument arguments (codes "--env-file")
    migrate m mode arguments layout
    load_environment m (if explicit =? [] then layout.config else explicit)
    cfg ← environment_config m
    set ← lift (parse_flags (λ t. is_some (parse_int0 t)) (prepare_flags mode) arguments)
    settle mode explicit layout cfg (options_of parse_int0 layout explicit cfg set)
