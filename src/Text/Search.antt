-- ===== src/Text/Search.antt =====
-- Prefixes, separators, replacement and joining, as package strings has them.
use Prim.Native.Char.{code}
use docker_control.Prelude.{
  ℕ, Bool, true, false, ◌||◌, List, [], ◌∷◌, ◌++◌, Option, none, some, String, ◌==◌, if◌then◌else◌,
}

abbrev pub Text : Type 0
Text = List ℕ

-- The bytes of an ASCII literal.
abbrev pub codes : String → Text
codes String.[] = []
codes (String.◌∷◌ c s) = code c ∷ codes s

-- What is left of `s` behind the prefix `p`.
abbrev pub cut_prefix : Text → Text → Option Text
cut_prefix s [] = some s
cut_prefix [] (d ∷ p) = none
cut_prefix (c ∷ s) (d ∷ p) = if c == d then cut_prefix s p else none

-- strings.HasPrefix(s, p)
abbrev pub has_prefix : Text → Text → Bool
has_prefix s p = elim (cut_prefix s p) [ none ↦ false | some _ ↦ true ]

-- strings.TrimPrefix(s, p)
abbrev pub trim_prefix : Text → Text → Text
trim_prefix s p = elim (cut_prefix s p) [ none ↦ s | some rest ↦ rest ]

-- strings.Contains(s, p)
unfoldable pub contains : Text → Text → Bool
contains [] p = has_prefix [] p
contains (c ∷ s) p = has_prefix (c ∷ s) p || contains s p

unfoldable pub contains_byte : Text → ℕ → Bool
contains_byte [] b = false
contains_byte (c ∷ s) b = c == b || contains_byte s b

-- strings.ContainsAny(s, chars), for ASCII chars
unfoldable pub contains_any : Text → Text → Bool
unfolding contains_byte
contains_any [] chars = false
contains_any (c ∷ s) chars = contains_byte chars c || contains_any s chars

-- strings.ReplaceAll(s, old, new), for an `old` of one byte
unfoldable pub replace_byte : Text → ℕ → Text → Text
replace_byte [] old new = []
replace_byte (c ∷ s) old new = (if c == old then new else c ∷ []) ++ replace_byte s old new

-- A byte in front of the first part.
abbrev pub extend : ℕ → List Text → List Text
extend c [] = (c ∷ []) ∷ []
extend c (part ∷ parts) = (c ∷ part) ∷ parts

-- strings.Split(s, sep), for a separator of one byte
unfoldable pub split : Text → ℕ → List Text
split [] sep = [] ∷ []
split (c ∷ s) sep = let parts = split s sep in if c == sep then [] ∷ parts else extend c parts

-- strings.Join(parts, sep), for a separator of one byte
unfoldable pub join : List Text → ℕ → Text
join [] sep = []
join (part ∷ []) sep = part
join (part ∷ next ∷ parts) sep = part ++ (sep ∷ join (next ∷ parts) sep)

-- strings.TrimRight(s, cutset), for a cutset of one byte
unfoldable pub trim_right : Text → ℕ → Text
trim_right [] b = []
trim_right (c ∷ s) b = elim (trim_right s b) [
  | [] ↦ if c == b then [] else c ∷ []
  | d ∷ t ↦ c ∷ d ∷ t
]
