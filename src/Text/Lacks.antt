-- ===== src/Text/Lacks.antt =====
-- Splitting at a byte and joining again.
use docker_control.Prelude.{
  ℕ, ◌≡◌, ◌≢◌, refl, List, [], ◌∷◌, ◌++◌, arith, ◌==◌, All, Bool-cases, inl, inr,
}
use docker_control.Text.Search.{Text, codes, replace_byte, split, join, extend}

-- No byte of the text is `b`.
abbrev pub Lacks : ℕ → Text → Type 0
Lacks b s = All (λ c. c ≢ b) s

Lacks-extend :
    (b c : ℕ) (parts : List Text) → c ≢ b → All (Lacks b) parts → All (Lacks b) (extend c parts)
Lacks-extend b c [] h k = ((h, tt), tt)
Lacks-extend b c (part ∷ parts) h (k, ks) = ((h, k), ks)

pub split-Lacks_sep : (s : Text) (sep : ℕ) → All (Lacks sep) (split s sep)
unfolding split
split-Lacks_sep [] sep = (tt, tt)
split-Lacks_sep (c ∷ s) sep = elim (Bool-cases (c == sep)) [
  | inl e ↦ rw e (tt, split-Lacks_sep s sep)
  | inr e ↦ rw e (Lacks-extend sep c (split s sep) (ground arith) (split-Lacks_sep s sep))
]

pub split-Lacks : (s : Text) (sep b : ℕ) → Lacks b s → All (Lacks b) (split s sep)
unfolding split
split-Lacks [] sep b h = (tt, tt)
split-Lacks (c ∷ s) sep b (h, hs) = elim (Bool-cases (c == sep)) [
  | inl e ↦ rw e (tt, split-Lacks s sep b hs)
  | inr e ↦ rw e (Lacks-extend b c (split s sep) h (split-Lacks s sep b hs))
]

pub replace_byte-Lacks : (s : Text) → Lacks b'\\' (replace_byte s b'\\' (codes "/"))
unfolding replace_byte
replace_byte-Lacks [] = tt
replace_byte-Lacks (c ∷ s) = elim (Bool-cases (c == b'\\')) [
  | inl e ↦ rw e ((λ (h : 47 ≡ 92). omega arith), replace_byte-Lacks s)
  | inr e ↦ rw e (ground arith, replace_byte-Lacks s)
]

pub split-ne-nil : (s : Text) (sep : ℕ) → split s sep ≢ []
unfolding split
split-ne-nil [] sep = cc
split-ne-nil (c ∷ s) sep = elim (Bool-cases (c == sep)) [
  | inl e ↦ rw e (cc)
  | inr e ↦ rw e (extend-ne-nil (split s sep))
]
  where
    extend-ne-nil : (parts : List Text) → extend c parts ≢ []
    extend-ne-nil [] = cc
    extend-ne-nil (part ∷ parts) = cc

split_of_Lacks : (s : Text) (sep : ℕ) → Lacks sep s → split s sep ≡ s ∷ []
unfolding split
split_of_Lacks [] sep h = refl
split_of_Lacks (c ∷ s) sep (h, hs) = ground (arith, split_of_Lacks s sep hs)

pub split-append_sep :
    (s t : Text) (sep : ℕ) → Lacks sep s → split (s ++ (sep ∷ t)) sep ≡ s ∷ split t sep
unfolding split
split-append_sep [] t sep h = ground arith
split-append_sep (c ∷ s) t sep (h, hs) = ground (arith, split-append_sep s t sep hs)

-- Splitting takes a join apart, if no part holds the separator.
pub split-join :
    (part : Text) (parts : List Text) (sep : ℕ)
    → All (Lacks sep) (part ∷ parts)
    → split (join (part ∷ parts) sep) sep ≡ part ∷ parts
unfolding join
split-join part [] sep (h, _) = split_of_Lacks part sep h
split-join part (next ∷ parts) sep (h, hs) =
    rw (split-append_sep part (join (next ∷ parts) sep) sep h) (rw (split-join next parts sep hs))

join-empty_cons :
    (part : Text) (parts : List Text) (sep : ℕ)
    → join ([] ∷ part ∷ parts) sep ≡ sep ∷ join (part ∷ parts) sep
unfolding join
join-empty_cons part parts sep = refl

join-extend : (c : ℕ) (parts : List Text) (sep : ℕ) → join (extend c parts) sep ≡ c ∷ join parts sep
unfolding join
join-extend c [] sep = refl
join-extend c (part ∷ []) sep = refl
join-extend c (part ∷ next ∷ parts) sep = refl

join_split_step :
    (parts : List Text) (sep : ℕ) → parts ≢ [] → join ([] ∷ parts) sep ≡ sep ∷ join parts sep
join_split_step [] sep h = absurd (h refl)
join_split_step (part ∷ parts) sep h = join-empty_cons part parts sep

-- Joining undoes splitting.
join-split : (s : Text) (sep : ℕ) → join (split s sep) sep ≡ s
unfolding split
join-split [] sep = unfold join in refl
join-split (c ∷ s) sep = elim (Bool-cases (c == sep)) [
  | inl e ↦
      rw e (
        rw (join_split_step (split s sep) sep (split-ne-nil s sep), join-split s sep)
          (ground arith))
  | inr e ↦ rw e (rw (join-extend c (split s sep) sep, join-split s sep) refl)
]

-- A text without the byte is not changed by its replacement.
pub replace_byte_of_Lacks : (s : Text) (b : ℕ) (by : Text) → Lacks b s → replace_byte s b by ≡ s
unfolding replace_byte
replace_byte_of_Lacks [] b by h = refl
replace_byte_of_Lacks (c ∷ s) b by (h, hs) = ground (arith, replace_byte_of_Lacks s b by hs)

Lacks-append : (b : ℕ) (s t : Text) → Lacks b s → Lacks b t → Lacks b (s ++ t)
Lacks-append b [] t h k = k
Lacks-append b (c ∷ s) t (h, hs) k = (h, Lacks-append b s t hs k)

pub Lacks-join :
    (b : ℕ) (parts : List Text) (sep : ℕ) → sep ≢ b → All (Lacks b) parts → Lacks b (join parts sep)
unfolding join
Lacks-join b [] sep n h = tt
Lacks-join b (part ∷ []) sep n (h, _) = h
Lacks-join b (part ∷ next ∷ parts) sep n (h, hs) =
    Lacks-append b part _ h (n, Lacks-join b (next ∷ parts) sep n hs)
