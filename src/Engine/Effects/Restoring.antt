-- ===== src/Engine/Effects/Restoring.antt =====
-- When RestoreSnapshot of internal/controller/docker.go gives up the container that is there.
use docker_control.Prelude.{
  true, false, not, ◌||◌, [], ◌++◌, ◌≡◌, ◌≢◌, refl, ◌=?◌, Bool-cases, inl, inr, take,
}
use docker_control.Errors.{Result, ok, err}
use docker_control.Text.{Text, codes}
use docker_control.Types.Keys.{valid_key, valid_snapshot_id}
use docker_control.Engine.Model.{delete, list_images, CreateSpec, Container, Summary, Snapshot}
use docker_control.Engine.Monad.{World, Sys, continue}
use docker_control.Engine.Sandboxes.{find}
use docker_control.Engine.Lifecycle.{create_sandbox}
use docker_control.Engine.Snapshots.{
  list_all_snapshots, list_snapshots, find_snapshot, remove_container_by_id, swap_in,
  restore_snapshot,
}
use docker_control.Engine.Effects.{
  Grows, same, Grows-trans, Grows-map, Adds, Adds-pure, Adds-fail, Adds-lift, Adds-if, Adds-bind,
  Adds-json, Adds-empty,
}
use docker_control.Engine.Effects.Queries.{IsQuery, find-IsQuery}
use docker_control.Engine.Effects.Creation.{
  Spares, query-Spares, Fresh, create_sandbox-Spares, create_sandbox-ne,
}

module _ (w : World) where
  pub list_snapshots-IsQuery : (key : Text) → Adds IsQuery (list_snapshots w key)
  unfolding list_snapshots list_all_snapshots
  list_snapshots-IsQuery key =
      Adds-if (not (valid_key key)) _ _ (Adds-fail _) (
        Adds-bind _ _ (Adds-json w (list_images _) (λ b. b.as_images) refl) (λ images. Adds-pure _))

  pub find_snapshot-IsQuery : (key id : Text) → Adds IsQuery (find_snapshot w key id)
  unfolding find_snapshot
  find_snapshot-IsQuery key id =
      Adds-if (not (valid_snapshot_id id)) _ _ (Adds-fail _)
        (Adds-bind _ _ (list_snapshots-IsQuery key) (λ snapshots. Adds-lift _))

  remove-Spares : (x id : Text) → id ≢ x → Adds (Spares x) (remove_container_by_id w id)
  unfolding remove_container_by_id
  remove-Spares x id n =
      Adds-if (id =? []) _ _ (Adds-pure false)
        (Adds-bind _ _ (Adds-empty w (delete id) n) (λ u. Adds-pure true))

  module _ (spec : CreateSpec) (old : Summary) where
    unready-Spares :
        (r : Result Container) (s : Sys)
        → ((c : Container) → r ≡ ok c → (c.ready ≡ false) × (c.id ≢ old.id))
        → Grows (Spares old.id) s.trace (continue (swap_in w spec old) (r, s)).1.trace
    unfolding swap_in
    unready-Spares (err e) s h = same
    unready-Spares (ok c) s h =
        let (unready, other) = h c refl in rw unready ((remove-Spares old.id c.id other).at s)

  -- The arguments of RestoreSnapshot, with what it finds.
  module _ (key id : Text) (spec : CreateSpec) (s : Sys) (snapshot : Snapshot) (old : Summary) where
    abbrev pub found_state : Sys
    found_state = (find w key (find_snapshot w key id s).1).1

    abbrev pub restored : Result Container × Sys
    restored =
        create_sandbox w spec snapshot.image snapshot.source_image
          (spec.name ++ (codes "-restore-" ++ take 6 id)) true found_state

    -- RestoreSnapshot does not delete the container that is there, unless the restored one has
    -- been created and is ready, if the engine gives no new container the old identifier.
    pub restore_snapshot-Spares :
        (find_snapshot w key id s).0 ≡ ok snapshot
        → (find w key (find_snapshot w key id s).1).0 ≡ ok old
        → Fresh w old.id
        → ((c : Container) → restored.0 ≡ ok c → c.ready ≡ false)
        → Grows (Spares old.id) s.trace (restore_snapshot w key id spec s).1.trace
    unfolding restore_snapshot
    restore_snapshot-Spares found_snapshot found fresh unready =
        elim (Bool-cases
          (not (valid_key key) || not (valid_snapshot_id id) || not (spec.key =? key))) [
            | inl refused ↦ rw refused same
            | inr accepted ↦ rw accepted (
                Grows-trans (Grows-map (query-Spares old.id) ((find_snapshot-IsQuery key id).at s))
                  (rw found_snapshot (
                    Grows-trans
                      (Grows-map (query-Spares old.id)
                        ((find-IsQuery w key).at (find_snapshot w key id s).1))
                      (rw found (
                        Grows-trans
                          ((create_sandbox-Spares w old.id fresh spec snapshot.image
                              snapshot.source_image _ true).at
                            found_state)
                          (unready-Spares spec old restored.0 restored.1 (λ c e. (
                            unready c e,
                            (create_sandbox-ne w old.id fresh spec snapshot.image
                                  snapshot.source_image _ true).at
                                found_state c e,
                          ))))))))
          ]
