-- ===== src/Command/Uninstall/Guarded.antt =====
-- What the uninstallation of internal/command/command.go removes.
use docker_control.Prelude.{
  ℕ, ◌≡◌, refl, sym, ap, ◌∙◌, Bool, true, false, not, ◌||◌, List, [], ◌∷◌, Grows, same, more,
  Grows-trans, Grows-map, arith, ◌=?◌, =?_sound, if◌then◌else◌,
}
use mathlib.Core.Path.{subst}
use docker_control.Errors.{Error, Result, ok, err, new_error}
use docker_control.Text.{Text, codes, clean, join_paths}
use docker_control.Engine.Monad.{World}
use docker_control.Command.Machine.{
  Log, Act, read_file, remove_all, printed, logged, Machine, Proc, P, pure, attempt, contents_of,
  ◌>>=◌,
}
use docker_control.Command.Layout.{Layout}
use docker_control.Command.Removal.{marker_kind, Marker, marked, with_marker, safe_remove_state}
use docker_control.Command.Uninstall.{
  clean_managed_sandboxes, retained, after_cleaning, stop_service, uninstall,
}
use docker_control.Command.Effects.{
  Adds, Adds-pure, Adds-fail, Adds-attempt, Adds-ignored, Adds-if, Adds-if_true, Adds-bind,
  Adds-act, Grows-continue, continue-ok, continue-err,
}
use docker_control.Command.Uninstall.Spares.{
  Spares, clean_managed_sandboxes-Spares, stop_service-Spares,
}

-- The marker of a layout, as it has been read, is one of this program and of the layout's root.
pub record IsMarked (m : Machine) (unmarshal : List ℕ → Result Marker) (layout : Layout)
    : Type 0 where
  pub log : Log
  pub payload : List ℕ
  pub installed : Marker
  pub read : m.contents log layout.marker ≡ ok payload
  pub parsed : unmarshal payload ≡ ok installed
  pub kind : installed.kind ≡ marker_kind
  pub root : clean installed.root ≡ clean layout.root

-- An act that removes no directory but the state of a layout with a marker, and that only where the
-- files are not to be kept.
abbrev pub Permits : (m : Machine) → (List ℕ → Result Marker) → Layout → Bool → Act → Type 0
Permits m unmarshal layout keep_files (remove_all path) =
    (path ≡ layout.state) × (keep_files ≡ false) × IsMarked m unmarshal layout
Permits m unmarshal layout keep_files _ = Unit

module _ (m : Machine) (unmarshal : List ℕ → Result Marker) (layout : Layout) where
  Spares-Permits : (keep : Bool) (a : Act) → Spares a → Permits m unmarshal layout keep a
  Spares-Permits keep (remove_all _) h = absurd h
  Spares-Permits keep _ h = tt

  none_differs : (p q : Bool) → (not p || not q) ≡ false → (p ≡ true) × (q ≡ true)
  none_differs p q h = (ground arith, ground arith)

  marked-Permits :
      (log : Log) (payload : List ℕ) (installed : Marker)
      → m.contents log layout.marker ≡ ok payload
      → unmarshal payload ≡ ok installed
      → Adds (Permits m unmarshal layout false) (marked m unmarshal layout installed)
  marked-Permits log payload installed read parsed =
      Adds-if_true _ _ _ (λ _. Adds-fail _)
        (λ e.
          let (k, r) =
            none_differs (installed.kind =? marker_kind) (clean installed.root =? clean layout.root)
              e in
          Adds-act m (remove_all layout.state) (
            refl,
            refl,
            record {
              log = log;
              payload = payload;
              installed = installed;
              read = read;
              parsed = parsed;
              kind = =?_sound _ _ k;
              root = =?_sound _ _ r;
            },
          ))

  with_marker-Permits :
      (log : Log) (r : Result (List ℕ))
      → m.contents log layout.marker ≡ r
      → Adds (Permits m unmarshal layout false) (with_marker m unmarshal layout r)
  with_marker-Permits log (err e) h = Adds-if _ _ _ (Adds-fail _) (Adds-fail e)
  with_marker-Permits log (ok payload) h = record {
    at = λ s.
        Grows-continue (marked m unmarshal layout) (unmarshal payload) s
          (λ installed parsed. (marked-Permits log payload installed h parsed).at s);
  }

  read_marker-Permits :
      Adds
        (Permits m unmarshal layout false)
        (attempt (contents_of m layout.marker) >>= with_marker m unmarshal layout)
  read_marker-Permits = record {
    at = λ s. Grows-trans (more {e = read_file layout.marker} tt same) (
        (with_marker-Permits s.log (m.contents s.log layout.marker) refl).at
          (logged (read_file layout.marker) s));
  }

  safe_remove_state-Permits :
      Adds (Permits m unmarshal layout false) (safe_remove_state m unmarshal layout)
  unfolding safe_remove_state
  safe_remove_state-Permits =
      Adds-if
        (not (clean layout.state =? clean (join_paths (layout.root ∷ codes ".docker-control" ∷ [])))
          || layout.state =? layout.root)
        _ _ (Adds-fail (new_error (codes "refusing to remove unsafe state path")))
        read_marker-Permits

  module _ (world : Text → World) (linux keep_containers force : Bool) where
    clean-Spares : Adds Spares (
        attempt (clean_managed_sandboxes m world layout)
        >>= after_cleaning m world unmarshal linux force)
    clean-Spares =
        Adds-bind _ _ (Adds-attempt _ (clean_managed_sandboxes-Spares m world layout)) after_Spares
      where
        after_Spares :
            (r : Result (Unit {0})) → Adds Spares (after_cleaning m world unmarshal linux force r)
        after_Spares (ok _) = Adds-pure tt
        after_Spares (err e) =
            Adds-if force _ _ (Adds-ignored _ (Adds-act m (printed _) tt)) (Adds-fail (retained e))

    widened :
        {A : Type 0} {n : P A} (keep : Bool)
        → Adds Spares n
        → Adds (Permits m unmarshal layout keep) n
    widened keep h = record { at = λ s. Grows-map (Spares-Permits keep) (h.at s) }

    -- Uninstalling removes no directory but the state directory of its layout, and that only without
    -- --keep-files and behind a marker of this program for the layout's root.
    pub uninstall-Permits :
        (keep_files : Bool)
        → Adds
            (Permits m unmarshal layout keep_files)
            (uninstall m world unmarshal linux layout keep_containers keep_files force)
    unfolding uninstall
    uninstall-Permits keep_files =
        Adds-bind _ _ (widened keep_files (stop_service-Spares m world unmarshal linux layout))
          (λ _.
            Adds-bind _ _
              (Adds-if keep_containers _ _ (Adds-pure tt) (widened keep_files clean-Spares))
              (λ _. Adds-bind _ _ (files keep_files) (λ _. Adds-act m (printed _) tt)))
      where
        files :
            (keep : Bool)
            → Adds
                (Permits m unmarshal layout keep)
                (if keep then pure tt else safe_remove_state m unmarshal layout)
        files true = Adds-pure tt
        files false = safe_remove_state-Permits

  module _ (world : Text → World) (linux keep_files : Bool) (s : Proc) (e : Error) where
    abbrev stopped : Proc
    stopped = (stop_service m world unmarshal linux layout s).1

    stop_service_ok : (b : Bool) → (stop_service m world unmarshal b layout s).0 ≡ ok tt
    stop_service_ok true = refl
    stop_service_ok false = refl

    -- If removing the sandboxes or the snapshots fails, then without --force and --keep-containers
    -- the uninstallation fails with that error, and no directory has been removed.
    pub uninstall-retained :
        (clean_managed_sandboxes m world layout (stop_service m world unmarshal linux layout s).1).0
          ≡ err e
        → ((uninstall m world unmarshal linux layout false keep_files false s).0 ≡ err (retained e))
          × Grows Spares s.log
              (uninstall m world unmarshal linux layout false keep_files false s).1.log
    unfolding uninstall
    uninstall-retained failed =
        let cleaned = clean_managed_sandboxes m world layout stopped in
        let total =
          continue-ok _ (stop_service m world unmarshal linux layout s) tt (stop_service_ok linux)
          ∙ continue-err _
              ((attempt (clean_managed_sandboxes m world layout)
                  >>= after_cleaning m world unmarshal linux false)
                stopped)
              (retained e)
              (ap (λ r. (after_cleaning m world unmarshal linux false r cleaned.1).0) failed)
          ∙ ap
              (λ r.
                (err (retained e), (after_cleaning m world unmarshal linux false r cleaned.1).1))
              failed in
        (
          ap (λ (p : Result (Unit {0}) × Proc). p.0) total,
          subst (λ (p : Result (Unit {0}) × Proc). Grows Spares s.log p.1.log) (sym total)
              (Grows-trans ((stop_service-Spares m world unmarshal linux layout).at s)
                ((clean_managed_sandboxes-Spares m world layout).at stopped)),
        )
