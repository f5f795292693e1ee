-- ===== src/Engine/Effects/Queries.antt =====
-- The requests of the operations of internal/controller/docker.go that ask.
use docker_control.Prelude.{
  ℕ, zero, suc, ◌+◌, ◌*◌, ltb, Bool, true, false, List, [], ◌∷◌, ◌≡◌, refl,
}
use docker_control.Errors.{Result}
use docker_control.Text.{Text}
use docker_control.Types.Keys.{valid_key}
use docker_control.Engine.Model.{
  Call, version, list_containers, inspect, list_images, inspect_image, inspect_exec, Summary, Body,
}
use docker_control.Engine.Monad.{Event, called, pull_started, streamed, World, M}
use docker_control.Engine.Requests.{json}
use docker_control.Engine.Sandboxes.{
  container, refine, inspect_readiness, now, pause, wait_loop, wait_for_ready, first_of_lists, find,
  get, require_ready,
}
use docker_control.Engine.Lifecycle.{list}
use docker_control.Engine.Effects.{
  same, more, Adds, Adds-pure, Adds-fail, Adds-if, Adds-bind, Adds-json,
}

-- The requests by GET, but for archives.
abbrev pub is_get : Call → Bool
is_get version = true
is_get (list_containers _) = true
is_get (inspect _) = true
is_get (list_images _) = true
is_get (inspect_image _) = true
is_get (inspect_exec _) = true
is_get _ = false

-- An event that asks the Docker engine for something, or is none of its requests and no output.
abbrev pub IsQuery : Event → Type 0
IsQuery (called c) = is_get c ≡ true
IsQuery (pull_started _) = ⊥
IsQuery (streamed _) = ⊥
IsQuery _ = Unit

module _ (w : World) where
  ask :
      {A : Type 0} (c : Call) (decode : Body → Result A)
      → is_get c ≡ true
      → Adds IsQuery (json w c decode)
  ask c decode h = Adds-json w c decode h

  pub inspect_readiness-IsQuery : (item : Summary) → Adds IsQuery (inspect_readiness w item)
  unfolding inspect_readiness
  inspect_readiness-IsQuery item =
      Adds-bind _ _ (ask (inspect item.id) _ refl) (λ d. Adds-pure (refine (container item) d))

  now-IsQuery : Adds IsQuery (now w)
  unfolding now
  now-IsQuery = record { at = λ s. more tt same }

  pause-IsQuery : (d : ℕ) → Adds IsQuery (pause w d)
  unfolding pause
  pause-IsQuery d = record { at = λ s. more tt same }

  wait_loop-IsQuery :
      (fuel : ℕ) (item : Summary) (deadline : ℕ) → Adds IsQuery (wait_loop w fuel item deadline)
  unfolding wait_loop
  wait_loop-IsQuery zero item deadline = Adds-fail _
  wait_loop-IsQuery (suc fuel) item deadline = Adds-bind _ _ (inspect_readiness-IsQuery item) (λ c.
      Adds-if c.ready _ _ (Adds-pure c) (
        Adds-bind _ _ now-IsQuery (λ t. Adds-if (ltb deadline t) _ _ (Adds-pure c) (
          Adds-bind _ _ (pause-IsQuery (200 * 1_000_000))
            (λ _. wait_loop-IsQuery fuel item deadline)))))

  pub wait_for_ready-IsQuery :
      (item : Summary) (timeout : ℕ) → Adds IsQuery (wait_for_ready w item timeout)
  unfolding wait_for_ready
  wait_for_ready-IsQuery item timeout =
      Adds-bind _ _ now-IsQuery (λ t. wait_loop-IsQuery w.rounds item (t + timeout))

  first_of_lists-IsQuery :
      (items : List Summary) (next : M Summary)
      → Adds IsQuery next
      → Adds IsQuery (first_of_lists w items next)
  first_of_lists-IsQuery [] next h = h
  first_of_lists-IsQuery (item ∷ items) next h = Adds-pure item

  pub find-IsQuery : (key : Text) → Adds IsQuery (find w key)
  unfolding find
  find-IsQuery key =
      Adds-if (valid_key key) _ _
        (Adds-bind _ _ (ask _ _ refl) (λ items.
          first_of_lists-IsQuery items _ (
            Adds-bind _ _ (ask _ _ refl)
              (λ legacy. first_of_lists-IsQuery legacy _ (Adds-fail _)))))
        (Adds-fail _)

  pub list-IsQuery : Adds IsQuery (list w)
  unfolding list
  list-IsQuery =
      Adds-bind _ _ (ask _ _ refl) (λ raw. Adds-bind _ _ (ask _ _ refl) (λ legacy. Adds-pure _))

  pub get-IsQuery : (key : Text) → Adds IsQuery (get w key)
  unfolding get
  get-IsQuery key = Adds-bind _ _ (find-IsQuery key) inspect_readiness-IsQuery

  pub require_ready-IsQuery : (key : Text) → Adds IsQuery (require_ready w key)
  unfolding require_ready
  require_ready-IsQuery key = Adds-bind _ _ (find-IsQuery key) (λ item.
      Adds-bind _ _ (inspect_readiness-IsQuery item)
        (λ c. Adds-if c.ready _ _ (Adds-pure item) (Adds-fail _)))
