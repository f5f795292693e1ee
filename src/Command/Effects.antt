-- ===== src/Command/Effects.antt =====
-- What a command adds to the log, one rule for each way to build it.
use docker_control.Prelude.{
  ℕ, ◌≡◌, refl, Bool, true, false, Grows, same, more, Grows-trans, if◌then◌else◌,
}
use docker_control.Errors.{Error, Result, ok, err}
use docker_control.Text.{Text}
use docker_control.Engine.Monad.{Sys}
use docker_control.Command.Machine.{
  Log, Act, read_file, read_link, got_wd, drew_token, Machine, Proc, P, pure, gets, using, fail,
  lift, attempt, ignored, engine, continue, ◌>>=◌, act, contents_of, link_of, wd, random_of,
}

-- From every state, what `m` adds to the log satisfies `Q`.
pub record Adds {A : Type 0} (Q : Act → Type 0) (m : P A) : Type 0 where
  pub at : (s : Proc) → Grows Q s.log (m s).1.log

module _ {A : Type 0} {Q : Act → Type 0} where
  pub Adds-pure : (a : A) → Adds Q (pure a)
  Adds-pure a = record { at = λ s. same }

  pub Adds-fail : (e : Error) → Adds Q (fail {A = A} e)
  Adds-fail e = record { at = λ s. same }

  pub Adds-gets : (f : Proc → A) → Adds Q (gets f)
  Adds-gets f = record { at = λ s. same }

  pub Adds-using : (f : Log → P A) → ((log : Log) → Adds Q (f log)) → Adds Q (using f)
  Adds-using f h = record { at = λ s. (h s.log).at s }

  pub Adds-lift : (r : Result A) → Adds Q (lift r)
  Adds-lift r = record { at = λ s. same }

  pub Adds-attempt : (m : P A) → Adds Q m → Adds Q (attempt m)
  Adds-attempt m h = record { at = h.at }

  pub Adds-ignored : (m : P A) → Adds Q m → Adds Q (ignored m)
  Adds-ignored m h = record { at = h.at }

  pub Adds-engine : (m : Sys → Result A × Sys) → Adds Q (engine m)
  Adds-engine m = record { at = λ s. same }

  pub Adds-if : (b : Bool) (m n : P A) → Adds Q m → Adds Q n → Adds Q (if b then m else n)
  Adds-if true m n h k = h
  Adds-if false m n h k = k

  pub Adds-if_true :
      (b : Bool) (m n : P A)
      → (b ≡ true → Adds Q m)
      → (b ≡ false → Adds Q n)
      → Adds Q (if b then m else n)
  Adds-if_true true m n h k = h refl
  Adds-if_true false m n h k = k refl

module _ {A B : Type 0} {Q : Act → Type 0} where
  pub Grows-continue :
      (f : A → P B) (r : Result A) (s : Proc)
      → ((a : A) → r ≡ ok a → Grows Q s.log (f a s).1.log)
      → Grows Q s.log (continue f (r, s)).1.log
  Grows-continue f (ok a) s h = h a refl
  Grows-continue f (err e) s h = same

  pub Adds-bind : (m : P A) (f : A → P B) → Adds Q m → ((a : A) → Adds Q (f a)) → Adds Q (m >>= f)
  Adds-bind m f h k = record {
    at =
        λ s. let (r, s') = m s in Grows-trans (h.at s) (Grows-continue f r s' (λ a _. (k a).at s'));
  }

module _ {A B : Type 0} where
  pub continue-ok :
      (f : A → P B) (p : Result A × Proc) (a : A) → p.0 ≡ ok a → continue f p ≡ f a p.1
  continue-ok f (r, s) a h = rw h

  pub continue-err :
      (f : A → P B) (p : Result A × Proc) (e : Error) → p.0 ≡ err e → continue f p ≡ (err e, p.1)
  continue-err f (r, s) e h = rw h

module _ (m : Machine) {Q : Act → Type 0} where
  pub Adds-act : (a : Act) → Q a → Adds Q (act m a)
  Adds-act a q = record { at = λ s. more q same }

  pub Adds-contents : (path : Text) → Q (read_file path) → Adds Q (contents_of m path)
  Adds-contents path q = record { at = λ s. more q same }

  pub Adds-link : (path : Text) → Q (read_link path) → Adds Q (link_of m path)
  Adds-link path q = record { at = λ s. more q same }

  pub Adds-wd : Q got_wd → Adds Q (wd m)
  Adds-wd q = record { at = λ s. more q same }

  pub Adds-random : (n : ℕ) → Q (drew_token n) → Adds Q (random_of m n)
  Adds-random n q = record { at = λ s. more q same }
