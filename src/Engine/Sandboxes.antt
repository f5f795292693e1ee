-- ===== src/Engine/Sandboxes.antt =====
-- find, inspectReadiness, waitForReady, requireReady and container() of
-- internal/controller/docker.go.
use docker_control.Prelude.{
  ℕ, zero, suc, ◌+◌, ◌*◌, Bool, true, false, List, [], ◌∷◌, ◌++◌, Option, none, some, ltb, ◌=?◌,
  if◌then◌else◌,
}
use docker_control.Errors.{
  Kind, Error, Result, ok, err, err_not_found, err_sandbox_not_ready, wrap_before,
}
use docker_control.Text.{Text, codes, trim_prefix, contains}
use docker_control.Types.Keys.{valid_key}
use docker_control.Engine.Model.{
  label, managed_label, key_label, endpoint_label, image_label, legacy_managed_label,
  legacy_key_label, legacy_endpoint_label, Container, Summary, Details, list_containers, inspect,
}
use docker_control.Engine.Monad.{
  World, M, read_clock, waited, record_event, pure, fail, ◌>>=◌, ◌>>◌,
}
use docker_control.Engine.Requests.{json}

-- summaryReadiness
unfoldable pub summary_readiness : Text → Text → Bool × Text
summary_readiness state status =
    if state =? codes "running"
    then (if contains status (codes "(unhealthy)")
        then (false, codes "unhealthy")
        else if contains status (codes "(health: starting)")
        then (false, codes "starting")
        else (true, codes "ready"))
    else (false, codes "stopped")

abbrev pub first_name : List Text → Text
first_name [] = []
first_name (n ∷ names) = trim_prefix n (codes "/")

-- the first text, or the second where the first is empty
abbrev pub or_else : Text → Text → Text
or_else a b = if a =? [] then b else a

-- container()
unfoldable pub container : Summary → Container
unfolding summary_readiness
container item =
    let (ready, readiness) = summary_readiness item.state item.status in
    record {
      id = item.id;
      name = first_name item.names;
      key = or_else (label key_label item.labels) (label legacy_key_label item.labels);
      image = or_else (label image_label item.labels) item.image;
      state = item.state;
      ready = ready;
      readiness = readiness;
      controlled_endpoint =
          or_else (label endpoint_label item.labels) (label legacy_endpoint_label item.labels);
      created_at = item.created;
    }

abbrev pub with_readiness : Container → Text → Bool → Text → Container
with_readiness c state ready readiness = record c {
  state = state;
  ready = ready;
  readiness = readiness;
}

-- inspectReadiness behind its request
unfoldable pub refine : Container → Details → Container
refine c d =
    if d.running
    then elim d.health [
      | none ↦ with_readiness c d.status true (codes "ready")
      | some h ↦
          if h =? codes "healthy"
          then with_readiness c d.status true (codes "ready")
          else with_readiness c d.status false h
    ]
    else with_readiness c d.status false (codes "stopped")

-- The polling loop has been followed for all of the world's rounds: no value of the source.
abbrev pub no_rounds : Error
no_rounds = record { kind = Kind.no_rounds; text = [] }

abbrev pub second : ℕ
second = 1_000_000_000

abbrev pub labelled : Text → Text → Text
labelled name value = name ++ (codes "=" ++ value)

module _ (w : World) where
  unfoldable pub inspect_readiness : Summary → M Container
  inspect_readiness item = do
    details ← json w (inspect item.id) (λ b. b.as_details)
    pure (refine (container item) details)

  -- time.Now()
  unfoldable pub now : M ℕ
  now s = (ok (w.now s.trace), record_event read_clock s)

  abbrev pub after_wait : Option Error → Result (Unit {0})
  after_wait none = ok tt
  after_wait (some e) = err e

  -- the select: the timer, or the end of the context with its error
  unfoldable pub pause : ℕ → M (Unit {0})
  pause d s = (after_wait (w.interrupted s.trace), record_event (waited d) s)

  unfoldable pub wait_loop : ℕ → Summary → ℕ → M Container
  unfolding inspect_readiness now pause
  wait_loop zero item deadline = fail no_rounds
  wait_loop (suc fuel) item deadline = do
    c ← inspect_readiness item
    if c.ready then pure c else do
      t ← now
      if ltb deadline t then pure c else do pause (200 * 1_000_000); wait_loop fuel item deadline

  -- waitForReady
  unfoldable pub wait_for_ready : Summary → ℕ → M Container
  unfolding wait_loop
  wait_for_ready item timeout = do t ← now; wait_loop w.rounds item (t + timeout)

  abbrev pub containers_with : Text → Text → Text → M (List Summary)
  containers_with managed key_name key =
      json w (list_containers (labelled managed (codes "true") ∷ labelled key_name key ∷ []))
        (λ b. b.as_containers)

  abbrev pub first_of_lists : List Summary → M Summary → M Summary
  first_of_lists [] next = next
  first_of_lists (item ∷ items) next = pure item

  unfoldable pub find : Text → M Summary
  find key =
      if valid_key key
      then (do
        items ← containers_with managed_label key_label key
        first_of_lists items (do
          legacy ← containers_with legacy_managed_label legacy_key_label key
          first_of_lists legacy (fail err_not_found)))
      else fail err_not_found

  unfoldable pub get : Text → M Container
  unfolding find inspect_readiness
  get key = do item ← find key; inspect_readiness item

  unfoldable pub require_ready : Text → M Summary
  unfolding find inspect_readiness
  require_ready key = do
    item ← find key
    c ← inspect_readiness item
    if c.ready
        then pure item
        else fail (
            wrap_before err_sandbox_not_ready
              (codes ": " ++ (key ++ (codes " (" ++ (c.readiness ++ codes ")")))))
