-- ===== src/Command/Uninstall/Spares.antt =====
-- On the parts of the uninstallation of internal/command/command.go in front of the removal of files.
use docker_control.Prelude.{ℕ, Bool, List, [], ◌∷◌, same}
use docker_control.Errors.{Result, ok, err}
use docker_control.Text.{Text, codes}
use docker_control.Types.Config.Environment.{config_from_env}
use docker_control.Engine.Model.{Container, Snapshot}
use docker_control.Engine.Monad.{World}
use docker_control.Engine.Lifecycle.{list, remove}
use docker_control.Engine.Snapshots.{remove_all_snapshots}
use docker_control.Command.Machine.{Act, remove_all, Machine}
use docker_control.Command.Layout.{Layout}
use docker_control.Command.Removal.{service_name, Marker, with_target, remove_owned_unit_link}
use docker_control.Command.Prepare.{load_env_file}
use docker_control.Command.Install.{systemctl, systemctl_result}
use docker_control.Command.Uninstall.{
  load_if_there, stored_config, remove_sandboxes, tell_snapshots, clean_managed_sandboxes,
  stop_service,
}
use docker_control.Command.Effects.{
  Adds, Adds-pure, Adds-fail, Adds-gets, Adds-attempt, Adds-ignored, Adds-engine, Adds-if,
  Adds-bind, Adds-act, Adds-contents, Adds-link,
}

-- An act that removes no directory.
abbrev pub Spares : Act → Type 0
Spares (remove_all _) = ⊥
Spares _ = Unit

module _ (m : Machine) where
  systemctl-Spares : (words : List Text) → Adds Spares (systemctl m words)
  unfolding systemctl
  systemctl-Spares words = Adds-bind _ _ (Adds-attempt _ (Adds-act m _ tt)) result_Spares
    where
      result_Spares : (r : Result (Unit {0})) → Adds Spares (systemctl_result m words r)
      result_Spares (ok _) = Adds-pure tt
      result_Spares (err e) = Adds-fail _

  unit_link-Spares : (layout : Layout) → Adds Spares (remove_owned_unit_link m layout)
  unfolding remove_owned_unit_link
  unit_link-Spares layout = Adds-bind _ _ (Adds-attempt _ (Adds-link m _ tt)) target_Spares
    where
      target_Spares : (r : Result Text) → Adds Spares (with_target m layout r)
      target_Spares (ok target) = Adds-if _ _ _ (Adds-fail _) (Adds-act m _ tt)
      target_Spares (err e) = Adds-if _ _ _ (Adds-pure tt) (Adds-fail e)

  load_env_file-Spares : (path : Text) → Adds Spares (load_env_file m path)
  unfolding load_env_file
  load_env_file-Spares path =
      Adds-bind _ _ (Adds-contents m path tt) (λ contents. record { at = λ s. same })

  module _ (world : Text → World) where
    stored_config-Spares : (layout : Layout) → Adds Spares (stored_config m world layout)
    unfolding stored_config
    stored_config-Spares layout =
        Adds-bind _ _ (Adds-attempt _ (Adds-act m _ tt)) (λ found.
          Adds-bind _ _ (found_Spares found) (λ _. Adds-gets (λ s. config_from_env s.env)))
      where
        found_Spares : (r : Result (Unit {0})) → Adds Spares (load_if_there m world layout r)
        found_Spares (ok _) = load_env_file-Spares layout.config
        found_Spares (err e) = Adds-pure tt

    remove_sandboxes-Spares :
        (w : World) (cs : List Container) → Adds Spares (remove_sandboxes m world w cs)
    unfolding remove_sandboxes
    remove_sandboxes-Spares w [] = Adds-pure tt
    remove_sandboxes-Spares w (c ∷ cs) = Adds-bind _ _ (Adds-engine (remove w c.key)) (λ removed.
        Adds-bind _ _ (Adds-if removed _ _ (Adds-ignored _ (Adds-act m _ tt)) (Adds-pure tt))
          (λ _. remove_sandboxes-Spares w cs))

    tell_snapshots-Spares : (xs : List Snapshot) → Adds Spares (tell_snapshots m world xs)
    unfolding tell_snapshots
    tell_snapshots-Spares [] = Adds-pure tt
    tell_snapshots-Spares (x ∷ xs) =
        Adds-bind _ _ (Adds-ignored _ (Adds-act m _ tt)) (λ _. tell_snapshots-Spares xs)

    pub clean_managed_sandboxes-Spares :
        (layout : Layout) → Adds Spares (clean_managed_sandboxes m world layout)
    unfolding clean_managed_sandboxes
    clean_managed_sandboxes-Spares layout = Adds-bind _ _ (stored_config-Spares layout) (λ cfg.
        let w = world cfg.docker_socket in
        Adds-bind _ _ (Adds-engine (list w)) (λ cs.
          Adds-bind _ _ (remove_sandboxes-Spares w cs)
            (λ _. Adds-bind _ _ (Adds-engine (remove_all_snapshots w)) tell_snapshots-Spares)))

    pub stop_service-Spares :
        (unmarshal : List ℕ → Result Marker) (linux : Bool) (layout : Layout)
        → Adds Spares (stop_service m world unmarshal linux layout)
    stop_service-Spares unmarshal linux layout =
        Adds-if linux _ _
          (Adds-bind _ _
            (Adds-ignored _
              (systemctl-Spares (codes "disable" ∷ codes "--now" ∷ service_name ∷ [])))
            (λ _.
              Adds-bind _ _ (Adds-ignored _ (unit_link-Spares layout))
                (λ _. Adds-ignored _ (systemctl-Spares (codes "daemon-reload" ∷ [])))))
          (Adds-pure tt)
