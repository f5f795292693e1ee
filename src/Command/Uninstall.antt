-- ===== src/Command/Uninstall.antt =====
-- cleanManagedSandboxes and runUninstall of internal/command/command.go.
pub mod Spares
pub mod Guarded
use docker_control.Prelude.{ℕ, Bool, true, List, [], ◌∷◌, ◌++◌, if◌then◌else◌}
use docker_control.Errors.{Error, Result, ok, err, wrap_behind}
use docker_control.Text.{Text, codes}
use docker_control.Types.Config.{Config}
use docker_control.Types.Config.Environment.{config_from_env}
use docker_control.Engine.Model.{Container, Snapshot}
use docker_control.Engine.Monad.{World}
use docker_control.Engine.Lifecycle.{list, remove}
use docker_control.Engine.Snapshots.{remove_all_snapshots}
use docker_control.Command.{pre_argument}
use docker_control.Command.Machine.{
  Machine, Proc, P, pure, gets, fail, lift, attempt, ignored, engine, act, stat, printed, ◌>>=◌,
  ◌>>◌,
}
use docker_control.Command.Layout.{Layout, resolve_layout}
use docker_control.Command.Flags.{Flags, text_flag, bool_flag, parse_flags, flag_value, flag_bool}
use docker_control.Command.Removal.{Marker, service_name, safe_remove_state, remove_owned_unit_link}
use docker_control.Command.Prepare.{load_env_file}
use docker_control.Command.Install.{systemctl}

-- `world` is the Docker engine behind a socket.
module _ (m : Machine) (world : Text → World) where
  abbrev pub load_if_there : Layout → Result (Unit {0}) → P (Unit {0})
  load_if_there layout (ok _) = load_env_file m layout.config
  load_if_there layout (err e) = pure tt

  -- the file of a layout, where there is one, and the configuration then
  unfoldable pub stored_config : Layout → P Config
  stored_config layout = do
    found ← attempt (act m (stat layout.config))
    load_if_there layout found
    gets (λ s. config_from_env s.env)

  abbrev pub told : Bool → Container → P (Unit {0})
  told removed c =
      if removed
      then ignored (
          act m (
            printed (codes "removed sandbox " ++ (c.key ++ (codes " (" ++ (c.id ++ codes ")\n"))))))
      else pure tt

  -- The loop over the sandboxes
  unfoldable pub remove_sandboxes : World → List Container → P (Unit {0})
  remove_sandboxes w [] = pure tt
  remove_sandboxes w (c ∷ cs) = do
    removed ← engine (remove w c.key)
    told removed c
    remove_sandboxes w cs

  abbrev pub told_snapshot : Snapshot → P (Unit {0})
  told_snapshot x = ignored (
      act m (
        printed (
          codes "removed snapshot "
          ++ (x.key ++ (codes "/" ++ (x.id ++ (codes " (" ++ (x.name ++ codes ")\n"))))))))

  unfoldable pub tell_snapshots : List Snapshot → P (Unit {0})
  tell_snapshots [] = pure tt
  tell_snapshots (x ∷ xs) = do told_snapshot x; tell_snapshots xs

  unfoldable pub clean_managed_sandboxes : Layout → P (Unit {0})
  unfolding stored_config remove_sandboxes tell_snapshots
  clean_managed_sandboxes layout = do
    cfg ← stored_config layout
    let w = world cfg.docker_socket
    sandboxes ← engine (list w)
    remove_sandboxes w sandboxes
    snapshots ← engine (remove_all_snapshots w)
    tell_snapshots snapshots

abbrev pub uninstall_flags : Flags
uninstall_flags =
    (codes "home", text_flag)
    ∷ (codes "keep-containers", bool_flag)
    ∷ (codes "keep-files", bool_flag)
    ∷ (codes "force", bool_flag)
    ∷ []

abbrev pub retained : Error → Error
retained e =
    wrap_behind (codes "sandbox cleanup failed; files retained (use --force to override): ") e

module _ (m : Machine) (world : Text → World) (unmarshal : List ℕ → Result Marker)
    (linux : Bool) where
  abbrev pub after_cleaning : Bool → Result (Unit {0}) → P (Unit {0})
  after_cleaning force (ok _) = pure tt
  after_cleaning force (err e) =
      if force
      then ignored
          (act m (printed (codes "warning: sandbox cleanup failed: " ++ (e.text ++ codes "\n"))))
      else fail (retained e)

  abbrev pub stop_service : Layout → P (Unit {0})
  stop_service layout =
      if linux
      then (do
        ignored (systemctl m (codes "disable" ∷ codes "--now" ∷ service_name ∷ []))
        ignored (remove_owned_unit_link m layout)
        ignored (systemctl m (codes "daemon-reload" ∷ [])))
      else pure tt

  -- runUninstall behind the flags
  unfoldable pub uninstall : Layout → Bool → Bool → Bool → P (Unit {0})
  uninstall layout keep_containers keep_files force = do
    stop_service layout
    if keep_containers then pure tt else (do
      cleaned ← attempt (clean_managed_sandboxes m world layout)
      after_cleaning force cleaned)
    if keep_files then pure tt else safe_remove_state m unmarshal layout
    act m (printed (codes "uninstalled " ++ (layout.state ++ codes "\n")))

  unfoldable pub run_uninstall : List Text → P (Unit {0})
  unfolding uninstall
  run_uninstall arguments = do
    set ← lift (parse_flags (λ t. true) uninstall_flags arguments)
    layout ←
        resolve_layout m (flag_value (codes "home") (pre_argument arguments (codes "--home")) set)
    uninstall layout (flag_bool (codes "keep-containers") set) (flag_bool (codes "keep-files") set)
        (flag_bool (codes "force") set)
