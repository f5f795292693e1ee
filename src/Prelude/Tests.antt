-- ===== src/Prelude/Tests.antt =====
-- Boolean tests on the native numbers and on lists of them, and the conditional.
use Prim.Native.Nat.{ℕ, ◌≤◌, ◌<◌, compare, Ordering}
use mathlib.Core.Path.{◌≡◌, refl}
use mathlib.Core.Logic.{◌↔◌, ◌⊎◌, inl, inr}
use mathlib.Core.Bool.{Bool, true, false, ◌&&◌}
use mathlib.Core.Option.{Option, none, some}
use mathlib.Core.List.{List, [], ◌∷◌}
use native.Mathlib.Omega.{arith}

-- These compute to `compare`, which `ground` and `grind` read with no lemma listed.
abbrev pub ltb : ℕ → ℕ → Bool
ltb a b = elim (compare a b) [ Ordering.lt ↦ true | _ ↦ false ]

abbrev pub leb : ℕ → ℕ → Bool
leb a b = elim (compare a b) [ Ordering.gt ↦ false | _ ↦ true ]

infix 50 ◌==◌
abbrev pub ◌==◌ : ℕ → ℕ → Bool
a == b = elim (compare a b) [ Ordering.eq ↦ true | _ ↦ false ]

infix 1 if◌then◌else◌
abbrev pub if◌then◌else◌ {ℓ} : {A : Type ℓ} → Bool → A → A → A
if true then x else y = x
if false then x else y = y

pub ltb→lt : (a b : ℕ) → ltb a b ≡ true → a < b
ltb→lt a b h = ground arith

pub leb→le : (a b : ℕ) → leb a b ≡ true → a ≤ b
leb→le a b h = ground arith

-- To split on a computed value and keep the equation.
pub Bool-cases : (b : Bool) → (b ≡ true) ⊎ (b ≡ false)
Bool-cases true = inl refl
Bool-cases false = inr refl

pub Option-cases {ℓ} : {A : Type ℓ} (o : Option A) → (o ≡ none) ⊎ ((a : A) × (o ≡ some a))
Option-cases none = inl refl
Option-cases (some a) = inr (a, refl)

-- Equality of two texts, element by element.
infix 50 ◌=?◌
unfoldable pub ◌=?◌ : List ℕ → List ℕ → Bool
[] =? [] = true
[] =? (d ∷ t) = false
(c ∷ s) =? [] = false
(c ∷ s) =? (d ∷ t) = (c == d) && (s =? t)

pub =?_sound : (s t : List ℕ) → (s =? t) ≡ true → s ≡ t
unfolding ◌=?◌
=?_sound [] [] h = refl
=?_sound [] (d ∷ t) h = cc
=?_sound (c ∷ s) [] h = cc
=?_sound (c ∷ s) (d ∷ t) h = ground (arith, =?_sound s t)

pub =?_refl : (s : List ℕ) → (s =? s) ≡ true
unfolding ◌=?◌
=?_refl [] = refl
=?_refl (c ∷ s) = ground (arith, =?_refl s)

pub =?_iff : (s t : List ℕ) → ((s =? t) ≡ true) ↔ (s ≡ t)
=?_iff s t = (=?_sound s t, λ e. rw e (=?_refl t))
