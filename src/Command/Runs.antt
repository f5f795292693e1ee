-- ===== src/Command/Runs.antt =====
-- Run, runServer, runConfig, runStatus and printHelp of internal/command/command.go.
pub mod Dashes
use docker_control.Prelude.{
  ℕ, zero, suc, ◌-◌, String, any, Bool, true, false, not, ◌||◌, List, [], ◌∷◌, ◌++◌, Option, none,
  some, length, ◌=?◌, if◌then◌else◌, ℤ, size,
}
use docker_control.Errors.{Kind, Error, Result, ok, err, new_error}
use docker_control.Text.{Text, codes, has_prefix, trim_space, itoa}
use docker_control.Types.Config.{Config}
use docker_control.Types.Config.Environment.{config_from_env}
use docker_control.Ports.{join_host_port}
use docker_control.Ports.Address.{listen_on, TcpAddress, endpoint_from_listener}
use docker_control.Engine.Model.{Container}
use docker_control.Engine.Monad.{World}
use docker_control.Engine.Images.{prepare_image}
use docker_control.Engine.Lifecycle.{list}
use docker_control.Command.{pre_argument}
use docker_control.Command.Machine.{
  Log, Machine, Proc, P, pure, gets, fail, lift, attempt, ignored, engine, logged, act, stat,
  printed, listened, closed_listener, served, contents_of, output_of, ◌>>=◌, ◌>>◌,
}
use docker_control.Command.Layout.{Layout, resolve_layout}
use docker_control.Command.Flags.{text_flag, parse_flags, flag_value}
use docker_control.Command.Removal.{Marker, service_name}
use docker_control.Command.Prepare.{Options, server_mode, config_mode, prepare, load_env_file}
use docker_control.Command.RuntimeFile.{RuntimeInfo, write_runtime_file}
use docker_control.Command.Install.{run_install}
use docker_control.Command.Uninstall.{stored_config, run_uninstall}
use docker_control.Command.Help.{help_text}

-- strings.ReplaceAll(s, old, new) for an `old` that is not empty; `skip` bytes of one that has been
-- found are left.
unfoldable pub replace_text : ℕ → Text → Text → Text → Text
replace_text skip [] old new = []
replace_text (suc skip) (c ∷ s) old new = replace_text skip s old new
replace_text zero (c ∷ s) old new = elim (has_prefix (c ∷ s) old) [
  | true ↦ new ++ replace_text (length old - 1) s old new
  | false ↦ c ∷ replace_text 0 s old new
]

-- The object that runStatus writes: the runtime file's JSON, where it is some, the output of systemctl
-- with its error, and the sandboxes or the error of asking for them.
pub record Status : Type 0 where
  pub home : Text
  pub state_directory : Text
  pub runtime : Option (List ℕ)
  pub service : Option (Text × Option Text)
  pub sandboxes : Option (Result (List Container))

abbrev pub error_text : Option Error → Option Text
error_text none = none
error_text (some e) = some e.text

-- The parameters are those of the parts; `marshal_info` and `marshal_status` are json.MarshalIndent,
-- `is_json` tells whether json.Unmarshal reads a value, and `pid` is os.Getpid().
module _ (m : Machine) (world : Text → World)
    (ranged : Log → List (Text × Text) → List (Text × Text)) (marker_bytes : Log → Text → List ℕ)
    (parse_int0 : Text → Option ℤ) (marshal_info : RuntimeInfo → List ℕ)
    (marshal_status : Status → Text) (is_json : List ℕ → Bool) (unmarshal : List ℕ → Result Marker)
    (linux : Bool) (pid : ℕ) where
  -- ListenWithFallback, with the answers of the system at one moment
  unfoldable pub listen : Config → P TcpAddress
  listen cfg s = (
    listen_on (m.listener s.log) cfg.listen_address (size cfg.port_fallbacks),
    logged (listened cfg.listen_address) s,
  )

  abbrev pub public_of : Config → TcpAddress → Text
  public_of cfg a =
      if cfg.public_endpoint =? [] || cfg.public_endpoint =? codes "auto"
      then endpoint_from_listener a
      else replace_text 0 cfg.public_endpoint (codes "{port}") (itoa a.port)

  -- listener.Addr().String(), without a zone
  abbrev pub address_text : TcpAddress → Text
  address_text a = join_host_port a.ip (itoa a.port)

  abbrev pub info_of : Config → TcpAddress → RuntimeInfo
  info_of cfg a = record {
    listen_address = address_text a;
    management_endpoint = endpoint_from_listener a;
    image = cfg.image;
    pid = pid;
  }

  abbrev pub or_close : Result (Unit {0}) → P (Unit {0})
  or_close (ok _) = pure tt
  or_close (err e) = do ignored (act m closed_listener); fail e

  abbrev pub say : Text → P (Unit {0})
  say text = ignored (act m (printed text))

  abbrev pub tell_image : Config → Result Bool → P (Unit {0})
  tell_image cfg (err e) = say (codes "warning: image preflight failed: " ++ (e.text ++ codes "\n"))
  tell_image cfg (ok false) =
      say (codes "image preparation started in background: " ++ (cfg.image ++ codes "\n"))
  tell_image cfg (ok true) = pure tt

  -- runServer; `served` fails with what server.Serve returns, if that is not http.ErrServerClosed.
  unfoldable pub run_server : List Text → P (Unit {0})
  unfolding listen replace_text
  run_server arguments = do
    ((cfg, layout), o) ← prepare m ranged marker_bytes parse_int0 arguments server_mode
    a ← listen cfg
    let cfg' = record cfg { public_endpoint = public_of cfg a }
    written ← attempt (write_runtime_file m marshal_info cfg'.runtime_file (info_of cfg' a))
    or_close written
    ready ←
        attempt
          (engine (prepare_image (world cfg'.docker_socket) cfg'.image cfg'.pull_missing_image))
    tell_image cfg' ready
    say (
        codes "docker-control listening on "
        ++ (address_text a ++ (codes " (image=" ++ (cfg'.image ++ codes ")\n"))))
    act m served

  unfoldable pub run_config : List Text → P (Unit {0})
  run_config arguments = do
    ((cfg, layout), o) ← prepare m ranged marker_bytes parse_int0 arguments config_mode
    act m (
        printed (
          codes "home: "
          ++ (layout.root
              ++ (codes "\nlisten: "
                  ++ (cfg.listen_address
                      ++ (codes "\nimage: "
                          ++ (cfg.image
                              ++ (codes "\ntoken: stored in "
                                  ++ (layout.config ++ codes "\n")))))))))

  abbrev pub runtime_found : Result (List ℕ) → Option (List ℕ)
  runtime_found (err e) = none
  runtime_found (ok payload) = if is_json payload then some payload else none

  abbrev pub service_state : P (Option (Text × Option Text))
  service_state =
      if linux
      then (do
        (output, failed) ← output_of m (codes "systemctl" ∷ codes "is-active" ∷ service_name ∷ [])
        pure (some (trim_space output, error_text failed)))
      else pure none

  abbrev pub sandboxes_found : Layout → Result (Unit {0}) → P (Option (Result (List Container)))
  sandboxes_found layout (err e) = pure none
  sandboxes_found layout (ok _) = do
    ignored (load_env_file m layout.config)
    cfg ← gets (λ s. config_from_env s.env)
    found ← attempt (engine (list (world cfg.docker_socket)))
    pure (some found)

  -- runStatus behind the flags
  unfoldable pub status : Layout → P (Unit {0})
  status layout = do
    payload ← attempt (contents_of m layout.runtime)
    service ← service_state
    found ← attempt (act m (stat layout.config))
    listed ← sandboxes_found layout found
    act m (
        printed (
          marshal_status (record {
            home = layout.root;
            state_directory = layout.state;
            runtime = runtime_found payload;
            service = service;
            sandboxes = listed;
          })
          ++ codes "\n"))

  unfoldable pub run_status : List Text → P (Unit {0})
  unfolding status
  run_status arguments = do
    set ← lift (parse_flags (λ t. true) ((codes "home", text_flag) ∷ []) arguments)
    layout ←
        resolve_layout m (flag_value (codes "home") (pre_argument arguments (codes "--home")) set)
    status layout

  abbrev pub is_one_of : Text → List Text → Bool
  is_one_of word words = any (λ w. word =? w) words

  -- The switch of Run; `%q` of an unknown command is left out of its message.
  unfoldable pub dispatch : Text → Text → List Text → P (Unit {0})
  unfolding run_server run_config run_status
  dispatch version command args =
      if command =? codes "server"
      then run_server args
      else if command =? codes "install"
      then run_install m ranged marker_bytes parse_int0 linux args
      else if command =? codes "uninstall"
      then run_uninstall m world unmarshal linux args
      else if command =? codes "status"
      then run_status args
      else if command =? codes "config"
      then run_config args
      else if is_one_of command (codes "version" ∷ codes "--version" ∷ codes "-version" ∷ [])
      then act m (printed (codes "docker-control " ++ (version ++ codes "\n")))
      else if is_one_of command (codes "help" ∷ codes "--help" ∷ codes "-h" ∷ [])
      then say help_text
      else (do say help_text; fail (new_error (codes "unknown command ")))

  abbrev pub exit_code : Result (Unit {0}) → P ℕ
  exit_code (ok _) = pure 0
  exit_code (err e) = do say (codes "docker-control: " ++ (e.text ++ codes "\n")); pure 1

  -- Run: the exit code
  unfoldable pub run : Text → List Text → P ℕ
  unfolding dispatch
  run version [] = do say help_text; pure 0
  run version (command ∷ args) = do
    ended ← attempt (
        if has_prefix command (codes "-")
        then dispatch version (codes "server") (command ∷ args)
        else dispatch version command args)
    exit_code ended
