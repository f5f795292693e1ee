-- ===== src/Bytes/Takes.antt =====
-- What a reader has taken from its stream, and what it returns.
use docker_control.Prelude.{
  ℕ, ◌+◌, ◌≤◌, ◌≡◌, refl, Bool, true, false, arith, length, length-take, length-drop, if◌then◌else◌,
}
use docker_control.Errors.{Error, Result, ok, err}
use docker_control.Bytes.{Stream, Reader, pure, fail, continue, ◌>>=◌, read_full}

abbrev pub TookFrom : {A : Type 0} → ℕ → (A → Type 0) → Stream → Result A × Stream → Type 0
TookFrom n P s (ok a, s') = P a × (length s'.bytes + n ≤ length s.bytes)
TookFrom n P s (err e, s') = Unit

-- If `m` returns, `n` bytes at least are gone, and the value satisfies `P`.
pub record Takes {A : Type 0} (n : ℕ) (P : A → Type 0) (m : Reader A) : Type 0 where
  pub at : (s : Stream) → TookFrom n P s (m s)

module _ {A : Type 0} {P : A → Type 0} where
  pub Takes-pure : (a : A) → P a → Takes 0 P (pure a)
  Takes-pure a h = record { at = λ s. (h, omega arith) }

  pub Takes-fail : (n : ℕ) (e : Error) → Takes n P (fail e)
  Takes-fail n e = record { at = λ s. tt }

  pub Takes-if :
      (n : ℕ) (b : Bool) (m m' : Reader A)
      → (b ≡ true → Takes n P m)
      → (b ≡ false → Takes n P m')
      → Takes n P (if b then m else m')
  Takes-if n true m m' k k' = k refl
  Takes-if n false m m' k k' = k' refl

pub Takes-read_full : (n : ℕ) → Takes n (λ s. length s ≤ n) (read_full n)
unfolding read_full
Takes-read_full n = record { at = λ s. took_full n s }
  where
    took_full : (n : ℕ) (s : Stream) → TookFrom n (λ t. length t ≤ n) s (read_full n s)
    took_full n s = ground (arith, length-take n s.bytes, length-drop n s.bytes)

module _ {A B : Type 0} {Q : A → Type 0} {P : B → Type 0} where
  Takes-next :
      (n k : ℕ) (f : A → Reader B) (s : Stream) (r : Result A × Stream)
      → ((a : A) → Q a → Takes k P (f a))
      → TookFrom n Q s r
      → TookFrom (n + k) P s (continue f r)
  Takes-next n k f s (err e, s') g h = tt
  Takes-next n k f s (ok a, s') g (q, l) = weaken (f a s') ((g a q).at s')
    where
      weaken : (r : Result B × Stream) → TookFrom k P s' r → TookFrom (n + k) P s r
      weaken (ok b, s'') (p, m) = (p, omega arith)
      weaken (err e, s'') h = tt

  pub Takes-bind :
      (n k : ℕ) (m : Reader A) (f : A → Reader B)
      → Takes n Q m
      → ((a : A) → Q a → Takes k P (f a))
      → Takes (n + k) P (m >>= f)
  Takes-bind n k m f h g = record { at = λ s. Takes-next n k f s (m s) g (h.at s) }

  pub Takes-bind_weak :
      (k : ℕ) (m : Reader A) (f : A → Reader B)
      → Takes 0 Q m
      → ((a : A) → Q a → Takes k P (f a))
      → Takes k P (m >>= f)
  Takes-bind_weak k m f h g =
      let e : 0 + k ≡ k = omega arith in record { at = λ s. rw e at (Takes-bind 0 k m f h g).at s }

pub Takes-weaken : {A : Type 0} {P : A → Type 0} (n : ℕ) {m : Reader A} → Takes n P m → Takes 0 P m
Takes-weaken {A} {P} n {m} h = record { at = λ s. took_less s (m s) (h.at s) }
  where
    took_less : (s : Stream) (r : Result A × Stream) → TookFrom n P s r → TookFrom 0 P s r
    took_less s (ok a, s') (p, l) = (p, omega arith)
    took_less s (err e, s') l = tt
