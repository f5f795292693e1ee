-- ===== src/Terminal/Workdir.antt =====
-- safeTerminalWorkdir of internal/controller/terminal.go, and where it leads.
use docker_control.Prelude.{
  ℕ, Bool, true, false, not, ◌||◌, List, [], ◌∷◌, ◌≡◌, ◌≢◌, refl, ◌∙◌, ◌⊎◌, inl, inr, arith, ◌==◌,
  ◌=?◌, =?_iff, if◌then◌else◌, All, Bool-cases,
}
use mathlib.Core.Path.{subst}
use docker_control.Errors.{Error, Result, ok, err, new_error}
use docker_control.Text.{Text, codes, trim_space, has_prefix, contains, split}

abbrev pub workspace : Text
workspace = codes "/workspace"

unfoldable pub safe_terminal_workdir : Text → Result Text
safe_terminal_workdir value =
    if trim_space value =? []
    then ok workspace
    else if value =? workspace
    then ok value
    else if not (has_prefix value (codes "/workspace/"))
        || contains value (codes "..")
        || contains value (codes "//")
    then err (new_error (codes "workdir must stay inside /workspace"))
    else ok value

-- The first part of a split, with the fact that the text begins with it.
record Begins (s : Text) (parts : List Text) : Type 0 where
  first : Text
  others : List Text
  is : parts ≡ first ∷ others
  begins : has_prefix s first ≡ true

split-Begins : (s : Text) (sep : ℕ) → Begins s (split s sep)
unfolding split
split-Begins [] sep = record { first = []; others = []; is = refl; begins = refl }
split-Begins (c ∷ s) sep = elim (Bool-cases (c == sep)) [
  | inl e ↦ record { first = []; others = split s sep; is = rw e refl; begins = refl }
  | inr e ↦
      let b = split-Begins s sep in
      record {
        first = c ∷ b.first;
        others = b.others;
        is = rw e (rw b.is refl);
        begins = ground (arith, b.begins);
      }
]

parent_first :
    (c : ℕ) (s : Text)
    → contains (c ∷ s) (codes "..") ≡ false
    → has_prefix (c ∷ s) (codes "..") ≡ true
    → ⊥
unfolding contains
parent_first c s h k = ground arith

-- No part of a text between slashes is "..", if ".." does not stand in it.
split-ne_parent :
    (s : Text) → contains s (codes "..") ≡ false → All (λ part. part ≢ codes "..") (split s b'/')
unfolding split contains
split-ne_parent [] h = (cc, tt)
split-ne_parent (c ∷ s) h =
    let later = split-ne_parent s (ground arith) in
    elim (Bool-cases (c == b'/')) [
      | inl e ↦ rw e (cc, later)
      | inr e ↦
          let b = split-Begins s b'/' in
          let whole : has_prefix (c ∷ s) (c ∷ b.first) ≡ true = ground (arith, b.begins) in
          let (_, others) = (rw b.is at later) in
          rw e (
            rw b.is (
              (λ same. parent_first c s h (subst (λ p. has_prefix (c ∷ s) p ≡ true) same whole)),
              others,
            ))
    ]

-- Where a command may run: in /workspace, or below it by names of which none is "..".
abbrev pub IsBelow : Text → Type 0
IsBelow dir =
    (dir ≡ workspace)
    ⊎ ((has_prefix dir (codes "/workspace/") ≡ true)
        × All (λ part. part ≢ codes "..") (split dir b'/'))

branches :
    {A : Type 0} (a b c : Bool) (x value dir : A) (e : Error)
    → (if a then ok x else if b then ok value else if c then err e else ok value) ≡ ok dir
    → (dir ≡ x) ⊎ ((b ≡ true) × (dir ≡ value)) ⊎ ((c ≡ false) × (dir ≡ value))
branches true b c x value dir e h = inl (cc)
branches false true c x value dir e h = inr (inl (refl, cc))
branches false false true x value dir e h = cc
branches false false false x value dir e h = inr (inr (refl, cc))

none_holds : (p q r : Bool) → (not p || q || r) ≡ false → (p ≡ true) × (q ≡ false)
none_holds p q r h = (ground arith, ground arith)

-- The directory that a terminal command is given is /workspace, or begins with "/workspace/" and
-- has no part "..".
pub safe_terminal_workdir-IsBelow :
    (value dir : Text) → safe_terminal_workdir value ≡ ok dir → IsBelow dir
unfolding safe_terminal_workdir
safe_terminal_workdir-IsBelow value dir h =
    elim (branches (trim_space value =? []) (value =? workspace) _ workspace value dir _ h) [
      | inl e ↦ inl e
      | inr (inl (given, e)) ↦ inl (e ∙ (=?_iff value workspace).0 given)
      | inr (inr (passed, e)) ↦
          let (below, inside) = none_holds _ _ _ passed in
          inr (rw e (below, split-ne_parent value inside))
    ]
