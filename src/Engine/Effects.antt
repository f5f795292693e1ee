-- ===== src/Engine/Effects.antt =====
-- What a computation adds to the trace, one rule for each way to build a computation.
pub mod Queries
pub mod Preparation
pub mod Replacement
pub mod Creation
pub mod Restoring
pub mod Abandoned
pub mod Limits
use docker_control.Prelude.{◌≡◌, refl, Bool, true, false, List, [], ◌∷◌, if◌then◌else◌}
use mathlib.Core.Path.{subst}
use docker_control.Errors.{Error, Result, ok, err}
pub use docker_control.Prelude.{Grows, same, more, Grows-trans, Grows-map}
use docker_control.Engine.Model.{Call, Body}
use docker_control.Engine.Monad.{
  Event, called, Trace, World, Sys, M, pure, fail, lift, attempt, ignored, continue, ◌>>=◌,
  record_event,
}
use docker_control.Engine.Requests.{received, request, json, empty}

ok-injective {ℓ} : {A : Type ℓ} (a b : A) → ok a ≡ ok b → a ≡ b
ok-injective a b e = cc

-- From every state, what `m` adds to the trace satisfies `P`.
pub record Adds {ℓ} {A : Type ℓ} (P : Event → Type 0) (m : M A) : Type ℓ where
  pub at : (s : Sys) → Grows P s.trace (m s).1.trace

module _ {ℓ} {A : Type ℓ} {P : Event → Type 0} where
  pub Adds-pure : (a : A) → Adds P (pure a)
  Adds-pure a = record { at = λ s. same }

  pub Adds-fail : (e : Error) → Adds P (fail {A = A} e)
  Adds-fail e = record { at = λ s. same }

  pub Adds-lift : (r : Result A) → Adds P (lift r)
  Adds-lift r = record { at = λ s. same }

  pub Adds-attempt : (m : M A) → Adds P m → Adds P (attempt m)
  Adds-attempt m h = record { at = h.at }

  pub Adds-if : (b : Bool) (m n : M A) → Adds P m → Adds P n → Adds P (if b then m else n)
  Adds-if true m n h k = h
  Adds-if false m n h k = k

pub Adds-map {ℓ} :
    {A : Type ℓ} {P Q : Event → Type 0} {m : M A} → ((e : Event) → P e → Q e) → Adds P m → Adds Q m
Adds-map f h = record { at = λ s. Grows-map f (h.at s) }

pub Adds-ignored {ℓ} : {A : Type ℓ} {P : Event → Type 0} (m : M A) → Adds P m → Adds P (ignored m)
Adds-ignored m h = record { at = h.at }

module _ {ℓ κ} {A : Type ℓ} {B : Type κ} {P : Event → Type 0} where
  pub Grows-continue :
      (f : A → M B) (r : Result A) (s : Sys)
      → ((a : A) → r ≡ ok a → Grows P s.trace (f a s).1.trace)
      → Grows P s.trace (continue f (r, s)).1.trace
  Grows-continue f (ok a) s h = h a refl
  Grows-continue f (err e) s h = same

  pub Adds-bind : (m : M A) (f : A → M B) → Adds P m → ((a : A) → Adds P (f a)) → Adds P (m >>= f)
  Adds-bind m f h k = record {
    at =
        λ s. let (r, s') = m s in Grows-trans (h.at s) (Grows-continue f r s' (λ a _. (k a).at s'));
  }

module _ (w : World) {P : Event → Type 0} where
  pub Adds-json :
      {A : Type 0} (c : Call) (decode : Body → Result A) → P (called c) → Adds P (json w c decode)
  unfolding json
  Adds-json c decode p =
      Adds-bind (request w c) (λ b. lift (decode b)) (record { at = λ s. more p same })
        (λ b. Adds-lift (decode b))

  pub Adds-empty : (c : Call) → P (called c) → Adds P (empty w c)
  unfolding empty
  Adds-empty c p = Adds-json c (λ b. b.drained) p

pub ruleset adds_rules = (
  Adds-pure, Adds-fail, Adds-lift, Adds-attempt, Adds-ignored, Adds-if, Adds-bind, Adds-json,
  Adds-empty,
)

module _ {ℓ κ} {A : Type ℓ} {B : Type κ} where
  pub continue-ok : (f : A → M B) (p : Result A × Sys) (a : A) → p.0 ≡ ok a → continue f p ≡ f a p.1
  continue-ok f (r, s) a h = rw h

  pub continue-err :
      (f : A → M B) (p : Result A × Sys) (e : Error) → p.0 ≡ err e → continue f p ≡ (err e, p.1)
  continue-err f (r, s) e h = rw h

-- Whatever the state, a value that `m` returns satisfies `P`.
pub record Yields {ℓ} {A : Type ℓ} (P : A → Type 0) (m : M A) : Type ℓ where
  pub at : (s : Sys) (a : A) → (m s).0 ≡ ok a → P a

module _ {ℓ} {A : Type ℓ} {P : A → Type 0} where
  pub Yields-pure : (a : A) → P a → Yields P (pure a)
  Yields-pure a p = record { at = λ s b e. subst P (ok-injective a b e) p }

  pub Yields-fail : (e : Error) → Yields P (fail e)
  Yields-fail e = record { at = λ s b h. cc }

  pub Yields-if : (b : Bool) (m n : M A) → Yields P m → Yields P n → Yields P (if b then m else n)
  Yields-if true m n h k = h
  Yields-if false m n h k = k

pub Yields-any {ℓ} : {A : Type ℓ} (m : M A) → Yields (λ _. Unit {0}) m
Yields-any m = record { at = λ s a e. tt }

module _ {ℓ κ} {A : Type ℓ} {B : Type κ} {Q : A → Type 0} {P : B → Type 0} where
  Yields-continue :
      (f : A → M B) (r : Result A) (s : Sys)
      → ((a : A) → r ≡ ok a → Q a)
      → ((a : A) → Q a → Yields P (f a))
      → (b : B) → (continue f (r, s)).0 ≡ ok b
      → P b
  Yields-continue f (ok a) s q h b e = (h a (q a refl)).at s b e
  Yields-continue f (err e) s q h b k = cc

  pub Yields-bind :
      (m : M A) (f : A → M B) → Yields Q m → ((a : A) → Q a → Yields P (f a)) → Yields P (m >>= f)
  Yields-bind m f q h = record {
    at = λ s b e. let (r, s') = m s in Yields-continue f r s' (q.at s) h b e;
  }
