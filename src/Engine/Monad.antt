-- ===== src/Engine/Monad.antt =====
-- Computations against a Docker engine, a clock and a source of random bytes that may do anything.
use docker_control.Prelude.{ℕ, List, ◌∷◌, Option}
use docker_control.Errors.{Error, Result, ok, err}
use docker_control.Text.{Text}
use docker_control.Engine.Model.{Call, Reply}

-- What a run has done, the latest first in a trace.
pub data Event : Type 0 where
  called : Call → Event
  read_clock : Event
  waited : ℕ → Event
  drew : ℕ → Event
  pull_started : Text → Event
  pull_ended : Text → Event
  -- a chunk handed to `onOutput`
  streamed : List ℕ → Event

abbrev pub Trace : Type 0
Trace = List Event

-- The surroundings: each answer may depend on all that has happened before.
pub record World : Type 0 where
  -- the Docker engine's answer to a request
  pub reply : Trace → Call → Reply
  -- time.Now, in nanoseconds
  pub now : Trace → ℕ
  -- whether the request's context is done when a pause ends, and its error
  pub interrupted : Trace → Option Error
  -- time.Now in UTC, as the layout 20060102-150405 writes it
  pub stamp : Trace → Text
  -- crypto/rand
  pub random : Trace → ℕ → Result (List ℕ)
  -- whether the pull of an image that runs in the background has ended, and how the engine answered
  pub pulled : Trace → Text → Option Reply
  -- the rounds that the polling loop is followed for
  pub rounds : ℕ

-- imagePullState: whether `done` is closed, and `err` then
pub data Pull : Type 0 where
  running : Pull
  finished : Result (Unit {0}) → Pull

pub record Sys : Type 0 where
  pub trace : Trace
  pub pulls : List (Text × Pull)

abbrev pub M {ℓ} : Type ℓ → Type ℓ
M A = Sys → Result A × Sys

module _ {ℓ} {A : Type ℓ} where
  abbrev pub pure : A → M A
  pure a s = (ok a, s)

  abbrev pub fail : Error → M A
  fail e s = (err e, s)

  abbrev pub lift : Result A → M A
  lift r s = (r, s)

  -- the result as a value, where the code looks at `err` itself
  abbrev pub attempt : M A → M (Result A)
  attempt m s = let (r, s') = m s in (ok r, s')

  -- what is done for its effect, with its error dropped
  abbrev pub ignored : M A → M (Unit {0})
  ignored m s = let (r, s') = m s in (ok tt, s')

module _ {ℓ κ} {A : Type ℓ} {B : Type κ} where
  abbrev pub continue : (A → M B) → Result A × Sys → Result B × Sys
  continue f (ok a, s) = f a s
  continue f (err e, s) = (err e, s)

  infixl 5 ◌>>=◌
  abbrev pub ◌>>=◌ : M A → (A → M B) → M B
  ◌>>=◌ m f s = continue f (m s)

infixl 5 ◌>>◌
abbrev pub ◌>>◌ {ℓ} : {B : Type ℓ} → M (Unit {0}) → M B → M B
m >> k = m >>= λ _. k

abbrev pub record_event : Event → Sys → Sys
record_event e s = record s { trace = e ∷ s.trace }
