-- ===== src/Text/Numerals.antt =====
-- strconv.ParseInt(text, 10, 64) and strconv.ParseBool.
pub mod Printed
use docker_control.Prelude.{
  ℕ, ◌+◌, ◌-◌, ◌*◌, ◌^◌, Bool, true, false, ◌&&◌, ◌||◌, List, [], ◌∷◌, Option, none, some, ltb, leb,
  ◌==◌, ◌=?◌, if◌then◌else◌, any, ℤ, pos, negsuc,
}
use docker_control.Text.Search.{Text, codes}

abbrev pub is_digit : ℕ → Bool
is_digit c = leb b'0' c && leb c b'9'

-- The number that the digits stand for, behind `acc`
unfoldable pub digits_onto : ℕ → Text → Option ℕ
digits_onto acc [] = some acc
digits_onto acc (c ∷ s) =
    let rest = digits_onto (acc * 10 + (c - b'0')) s in if is_digit c then rest else none

-- There is one digit at least.
abbrev pub magnitude : Text → Option ℕ
magnitude [] = none
magnitude (c ∷ s) = digits_onto 0 (c ∷ s)

-- -n
abbrev pub negative : ℕ → ℤ
negative n = if n == 0 then pos 0 else negsuc (n - 1)

abbrev pub below_range : Option ℕ → Option ℤ
below_range none = none
below_range (some n) = if leb n (2 ^ 63) then some (negative n) else none

abbrev pub above_range : Option ℕ → Option ℤ
above_range none = none
above_range (some n) = if ltb n (2 ^ 63) then some (pos n) else none

-- `none` stands for the error, of the syntax or of the range.
unfoldable pub parse_int : Text → Option ℤ
unfolding digits_onto
parse_int [] = none
parse_int (c ∷ s) =
    if c == b'-'
    then below_range (magnitude s)
    else if c == b'+'
    then above_range (magnitude s)
    else above_range (magnitude (c ∷ s))

-- ParseBool, with the error as `none`
unfoldable pub parse_bool : Text → Option Bool
parse_bool s =
    if any (λ t. s =? t)
      (codes "1" ∷ codes "t" ∷ codes "T" ∷ codes "true" ∷ codes "TRUE" ∷ codes "True" ∷ [])
    then some true
    else if any (λ t. s =? t)
        (codes "0" ∷ codes "f" ∷ codes "F" ∷ codes "false" ∷ codes "FALSE" ∷ codes "False" ∷ [])
    then some false
    else none
