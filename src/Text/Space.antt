-- ===== src/Text/Space.antt =====
-- strings.TrimSpace: the white space of Unicode at both ends of a text in UTF-8.
use mathlib.Core.List.{reverse}
use docker_control.Prelude.{
  ◌≡◌, refl, ℕ, zero, suc, Bool, ◌&&◌, ◌||◌, List, [], ◌∷◌, Option, none, some, ◌==◌, leb,
  if◌then◌else◌, length,
}

-- The one-byte white space: tab, line feed, vertical tab, form feed, carriage return, blank.
abbrev pub is_space_byte : ℕ → Bool
is_space_byte c = leb 9 c && leb c 13 || c == 32

-- U+0085 and U+00A0.
abbrev is_space_pair : ℕ → ℕ → Bool
is_space_pair a b = a == 0xc2 && (b == 0x85 || b == 0xa0)

-- U+1680, U+2000 to U+200A, U+2028, U+2029, U+202F, U+205F and U+3000.
abbrev is_space_triple : ℕ → ℕ → ℕ → Bool
is_space_triple a b c =
    a == 0xe1 && b == 0x9a && c == 0x80
    || a == 0xe2 && b == 0x80 && (leb 0x80 c && leb c 0x8a || c == 0xa8 || c == 0xa9 || c == 0xaf)
    || a == 0xe2 && b == 0x81 && c == 0x9f
    || a == 0xe3 && b == 0x80 && c == 0x80

abbrev drop_triple : List ℕ → Option (List ℕ)
drop_triple (a ∷ b ∷ c ∷ s) = if is_space_triple a b c then some s else none
drop_triple _ = none

abbrev drop_pair : List ℕ → Option (List ℕ)
drop_pair (a ∷ b ∷ s) = if is_space_pair a b then some s else drop_triple (a ∷ b ∷ s)
drop_pair _ = none

-- The text behind one leading white space character, if it begins with one.
drop_space : List ℕ → Option (List ℕ)
drop_space [] = none
drop_space (c ∷ s) = if is_space_byte c then some s else drop_pair (c ∷ s)

abbrev drop_triple_back : List ℕ → Option (List ℕ)
drop_triple_back (c ∷ b ∷ a ∷ s) = if is_space_triple a b c then some s else none
drop_triple_back _ = none

abbrev drop_pair_back : List ℕ → Option (List ℕ)
drop_pair_back (b ∷ a ∷ s) = if is_space_pair a b then some s else drop_triple_back (b ∷ a ∷ s)
drop_pair_back _ = none

-- The same at the end of a text that is given backwards.
drop_space_back : List ℕ → Option (List ℕ)
drop_space_back [] = none
drop_space_back (c ∷ s) = if is_space_byte c then some s else drop_pair_back (c ∷ s)

-- Drops with `step` until it refuses; every step shortens, so the length is fuel enough.
repeat_drop : (List ℕ → Option (List ℕ)) → ℕ → List ℕ → List ℕ
repeat_drop step zero s = s
repeat_drop step (suc fuel) s = elim (step s) [ none ↦ s | some rest ↦ repeat_drop step fuel rest ]

pub trim_left_space : List ℕ → List ℕ
unfolding repeat_drop drop_space
trim_left_space s = repeat_drop drop_space (length s) s

pub trim_right_space : List ℕ → List ℕ
unfolding repeat_drop drop_space_back
trim_right_space s = reverse (repeat_drop drop_space_back (length s) (reverse s))

-- strings.TrimSpace(s)
unfoldable pub trim_space : List ℕ → List ℕ
unfolding trim_left_space trim_right_space
trim_space s = trim_right_space (trim_left_space s)

trim_blanks :
    trim_space (32 ∷ 0xc2 ∷ 0xa0 ∷ 97 ∷ 32 ∷ 98 ∷ 0xe2 ∷ 0x80 ∷ 0x89 ∷ 10 ∷ []) ≡ 97 ∷ 32 ∷ 98 ∷ []
unfolding trim_space
trim_blanks = refl
