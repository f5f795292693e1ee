-- ===== src/Bytes/Xor.antt =====
-- The exclusive or of two bytes, checked over all of them.
use Prim.Native.Nat.{bit_xor}
use docker_control.Prelude.{
  ℕ, zero, suc, ◌<◌, ◌≡◌, refl, Bool, true, ◌&&◌, List, [], ◌∷◌, all, arith, ◌==◌, ltb, Bool-cases,
  inl, inr,
}

-- The numbers under a bound, the highest first.
counted_down : ℕ → List ℕ
counted_down zero = []
counted_down (suc top) = top ∷ counted_down top

all-counted_down :
    (test : ℕ → Bool) (bound n : ℕ)
    → n < bound
    → all test (counted_down bound) ≡ true
    → test n ≡ true
unfolding counted_down
all-counted_down test zero n l h = absurd (omega arith)
all-counted_down test (suc top) n l h = elim (Bool-cases (n == top)) [
  | inl last ↦ let e : n ≡ top = ground arith in rw e (ground arith)
  | inr before ↦ all-counted_down test top n (ground arith) (ground arith)
]

abbrev bytes : List ℕ
bytes = counted_down 256

abbrev undoes : ℕ → ℕ → Bool
undoes x k = bit_xor (bit_xor x k) k == x && ltb (bit_xor x k) 256

every_pair : all (λ x. all (undoes x) bytes) bytes ≡ true
unfolding counted_down
every_pair = refl

undoes-true : (x k : ℕ) → x < 256 → k < 256 → undoes x k ≡ true
undoes-true x k h l =
    all-counted_down (undoes x) 256 k l
      (all-counted_down (λ y. all (undoes y) bytes) 256 x h every_pair)

pub bit_xor_twice : (x k : ℕ) → x < 256 → k < 256 → bit_xor (bit_xor x k) k ≡ x
bit_xor_twice x k h l = ground (arith, undoes-true x k h l)

bit_xor-lt_256 : (x k : ℕ) → x < 256 → k < 256 → bit_xor x k < 256
bit_xor-lt_256 x k h l = ground (arith, undoes-true x k h l)
