-- ===== src/Engine/SnapshotImages/Quoting.antt =====
-- The quotes of dockerLabelChange of internal/controller/docker.go, and how a quoted word is read.
use docker_control.Prelude.{
  ℕ, Bool, true, false, [], ◌∷◌, ◌++◌, ◌≡◌, refl, Option, none, some, ◌==◌, ◌||◌, if◌then◌else◌,
  arith, Bool-cases, inl, inr,
}
use docker_control.Text.{Text, codes}
use docker_control.Engine.SnapshotImages.{escape_quoted, docker_label_change}

abbrev in_front : ℕ → Option (Text × Text) → Option (Text × Text)
in_front c none = none
in_front c (some (word, rest)) = some (c ∷ word, rest)

-- Where a word in double quotes is no longer read as it stands: Docker expands a variable at a dollar
-- and ends the instruction at a line feed.
abbrev pub is_docker_special : ℕ → Bool
is_docker_special c = c == b'$' || c == b'\n'

-- How a word in double quotes is read as it stands, behind its opening quote: a backslash takes the
-- next byte as it is, and the first quote without one ends the word. A byte for which `special`
-- holds is none of a word that is read so. The flag tells of a backslash before.
pub unquote : (ℕ → Bool) → Bool → Text → Option (Text × Text)
unquote special escaped [] = none
unquote special true (c ∷ s) = in_front c (unquote special false s)
unquote special false (c ∷ s) =
    let plain = unquote special false s in
    let taken = unquote special true s in
    if c == b'"'
    then some ([], s)
    else if c == b'\\'
    then taken
    else if special c
    then none
    else in_front c plain

-- No byte of a value is special.
unfoldable pub IsPlain : (ℕ → Bool) → Text → Type 0
IsPlain special [] = Unit
IsPlain special (c ∷ s) = (special c ≡ false) × IsPlain special s

pub unquote-escape_quoted :
    (special : ℕ → Bool) (value rest : Text)
    → IsPlain special value
    → unquote special false (escape_quoted value ++ b'"' ∷ rest) ≡ some (value, rest)
unfolding unquote escape_quoted IsPlain
unquote-escape_quoted special [] rest h = refl
unquote-escape_quoted special (c ∷ value) rest (h, hs) = elim (Bool-cases (c == b'\\')) [
  | inl back ↦ rw back (rw (unquote-escape_quoted special value rest hs) (ground arith))
  | inr other ↦ rw other (elim (Bool-cases (c == b'"')) [
    | inl quote ↦ rw quote (rw (unquote-escape_quoted special value rest hs) (ground arith))
    | inr plain ↦
        rw (plain, other) (rw (plain, h) (rw (unquote-escape_quoted special value rest hs) refl))
  ])
]

-- Of a value without a dollar and without a line feed, whatever quotes and backslashes it holds, what
-- stands behind `LABEL key="` in the change is read as that value, up to the end of the change.
pub unquote-docker_label_change :
    (key value : Text)
    → IsPlain is_docker_special value
    → (body : Text) × (docker_label_change key value
        ≡ codes "LABEL " ++ (key ++ (codes "=" ++ (b'"' ∷ body))))
      × (unquote is_docker_special false body ≡ some (value, []))
unfolding docker_label_change
unquote-docker_label_change key value plain =
    (escape_quoted value ++ b'"' ∷ [], refl, unquote-escape_quoted is_docker_special value [] plain)
