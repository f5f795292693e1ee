-- ===== src/Engine/Effects/Abandoned.antt =====
-- RestoreSnapshot of internal/controller/docker.go where the polling of the new container fails.
use docker_control.Prelude.{◌*◌, true, false, not, ◌||◌, ◌++◌, ◌≡◌, refl, ap, ◌∙◌, ◌=?◌, take}
use docker_control.Errors.{Error, Result, ok, err}
use docker_control.Text.{Text, codes}
use docker_control.Types.Keys.{valid_key, valid_snapshot_id}
use docker_control.Engine.Model.{
  Call, create, delete, start, CreateSpec, CreateBody, Container, Summary, Snapshot,
}
use docker_control.Engine.Monad.{Event, called, World, Sys}
use docker_control.Engine.Requests.{json, empty}
use docker_control.Engine.Sandboxes.{second, find, wait_for_ready}
use docker_control.Engine.Lifecycle.{
  create_body, created_item, after_start, start_created, create_sandbox,
}
use docker_control.Engine.Snapshots.{find_snapshot, restore_snapshot}
use docker_control.Engine.Effects.{
  Grows, Grows-trans, Grows-map, continue-ok, Adds-json, Adds-empty,
}
use docker_control.Engine.Effects.Queries.{IsQuery, find-IsQuery, wait_for_ready-IsQuery}
use docker_control.Engine.Effects.Restoring.{find_snapshot-IsQuery, found_state}

-- An event that deletes no container.
abbrev pub KeepsAll : Event → Type 0
KeepsAll (called (delete _)) = ⊥
KeepsAll _ = Unit

call_keeps : (c : Call) → IsQuery (called c) → KeepsAll (called c)
call_keeps (delete id) h = cc
call_keeps _ h = tt

query_keeps : (e : Event) → IsQuery e → KeepsAll e
query_keeps (called c) h = call_keeps c h
query_keeps _ h = tt

module _ (w : World) (key id : Text) (spec : CreateSpec) (s : Sys) (snapshot : Snapshot)
    (old : Summary) (new : Text) (e : Error) where
  abbrev pub temporary : Text
  temporary = spec.name ++ (codes "-restore-" ++ take 6 id)

  abbrev pub before : Sys
  before = found_state w key id spec s snapshot old

  abbrev pub body : CreateBody
  body = create_body spec snapshot.image snapshot.source_image true

  abbrev pub creation : Result Text × Sys
  creation = json w (create temporary body) (λ b. b.as_id) before

  abbrev pub starting : Result (Unit {0}) × Sys
  starting = empty w (start new) creation.1

  abbrev pub waiting : Result Container × Sys
  waiting =
      wait_for_ready w (created_item spec snapshot.image snapshot.source_image temporary new)
        (5 * second) starting.1

  created_and_failed :
      creation.0 ≡ ok new
      → starting.0 ≡ ok tt
      → waiting.0 ≡ err e
      → create_sandbox w spec snapshot.image snapshot.source_image temporary true before
        ≡ (err e, waiting.1)
  unfolding create_sandbox start_created after_start
  created_and_failed c t h =
      let item = created_item spec snapshot.image snapshot.source_image temporary new in
      continue-ok
        (λ i. start_created w (created_item spec snapshot.image snapshot.source_image temporary i))
        creation new c
      ∙ (ap (λ r. after_start w item r starting.1) t ∙ ap (λ r. (r, waiting.1)) h)

  waited_keeps : Grows KeepsAll before.trace waiting.1.trace
  waited_keeps = Grows-trans ((Adds-json w (create temporary body) (λ b. b.as_id) tt).at before) (
      Grows-trans ((Adds-empty w (start new) tt).at creation.1) (
        Grows-map query_keeps (
          (wait_for_ready-IsQuery w
              (created_item spec snapshot.image snapshot.source_image temporary new)
              (5 * second)).at
            starting.1)))

  before_keeps : Grows KeepsAll s.trace before.trace
  before_keeps =
      Grows-trans (Grows-map query_keeps ((find_snapshot-IsQuery w key id).at s))
        (Grows-map query_keeps ((find-IsQuery w key).at (find_snapshot w key id s).1))

  -- If the restored container has been created and started, and asking for its readiness fails,
  -- RestoreSnapshot fails with that error and has deleted no container: the new one is left.
  pub restore_abandons :
      (not (valid_key key) || not (valid_snapshot_id id) || not (spec.key =? key)) ≡ false
      → (find_snapshot w key id s).0 ≡ ok snapshot
      → (find w key (find_snapshot w key id s).1).0 ≡ ok old
      → creation.0 ≡ ok new
      → starting.0 ≡ ok tt
      → waiting.0 ≡ err e
      → ((restore_snapshot w key id spec s).0 ≡ err e)
        × Grows KeepsAll s.trace (restore_snapshot w key id spec s).1.trace
  unfolding restore_snapshot
  restore_abandons accepted found_snapshot found c t h =
      let all : restore_snapshot w key id spec s ≡ (err e, waiting.1) =
        rw accepted (rw found_snapshot (rw found (rw (created_and_failed c t h) refl))) in
      rw all (refl, Grows-trans before_keeps waited_keeps)
