-- ===== src/Command/Words.antt =====
-- The values that preArgument and systemdQuote of internal/command/command.go give.
use docker_control.Prelude.{
  true, false, List, [], ◌∷◌, ◌++◌, ◌≡◌, refl, some, arith, ◌==◌, ◌||◌, ℕ, Bool, ◌=?◌, Bool-cases,
  inl, inr,
}
use docker_control.Text.{Text, codes, cut_prefix, has_prefix, trim_prefix, replace_byte}
use docker_control.Engine.SnapshotImages.{escape_quoted}
use docker_control.Engine.SnapshotImages.Quoting.{unquote, IsPlain, unquote-escape_quoted}
use docker_control.Command.{after_equals, taken, pre_loop, pre_argument, systemd_quote}

cut_prefix-append : (p s : Text) → cut_prefix (p ++ s) p ≡ some s
cut_prefix-append [] s = ground arith
cut_prefix-append (c ∷ p) s = ground (arith, cut_prefix-append p s)

has_prefix-append : (p s : Text) → has_prefix (p ++ s) p ≡ true
has_prefix-append p s = rw (has_prefix, cut_prefix-append p s) refl

trim_prefix-append : (p s : Text) → trim_prefix (p ++ s) p ≡ s
trim_prefix-append p s = rw (trim_prefix, cut_prefix-append p s) refl

after_equals-append :
    (name value before : Text) → after_equals name ((name ++ codes "=") ++ value) before ≡ value
after_equals-append name value before =
    rw (after_equals, has_prefix-append (name ++ codes "=") value)
      (trim_prefix-append (name ++ codes "=") value)

last_taken :
    (name value before : Text) → taken name ((name ++ codes "=") ++ value) [] before ≡ value
last_taken name value before =
    let given = after_equals-append name value before in
    elim (Bool-cases (((name ++ codes "=") ++ value) =? name)) [
      | inl same ↦ rw (taken, same) given
      | inr other ↦ rw (taken, other) given
    ]

pre_loop-last :
    (name value : Text) (arguments : List Text) (before : Text)
    → pre_loop name (arguments ++ ((name ++ codes "=") ++ value) ∷ []) before ≡ value
unfolding pre_loop
pre_loop-last name value [] before = last_taken name value before
pre_loop-last name value (argument ∷ arguments) before = pre_loop-last name value arguments _

-- Of an option that is given several times preArgument takes the last, if that is written with "=".
pre_argument-last :
    (arguments : List Text) (name value : Text)
    → pre_argument (arguments ++ ((name ++ codes "=") ++ value) ∷ []) name ≡ value
unfolding pre_argument
pre_argument-last arguments name value = pre_loop-last name value arguments []

replace_twice :
    (value : Text)
    → replace_byte (replace_byte value b'\\' (b'\\' ∷ b'\\' ∷ [])) b'"' (b'\\' ∷ b'"' ∷ [])
      ≡ escape_quoted value
unfolding replace_byte escape_quoted
replace_twice [] = refl
replace_twice (c ∷ value) = elim (Bool-cases (c == b'\\')) [
  | inl back ↦ rw back (rw (replace_twice value) refl)
  | inr plain ↦ rw plain (rw (replace_twice value) refl)
]

-- Where systemd no longer reads a quoted word as it stands: a percent begins a specifier, a dollar a
-- variable in ExecStart, and a line feed ends the setting.
abbrev pub is_systemd_special : ℕ → Bool
is_systemd_special c = c == b'%' || (c == b'$' || c == b'\n')

-- The two replacements of systemdQuote do what one pass does: of a value without a percent, a dollar
-- and a line feed, whatever quotes and backslashes it holds, the quoted text is read back as the
-- value, up to its end.
pub unquote-systemd_quote :
    (value : Text)
    → IsPlain is_systemd_special value
    → (body : Text) × (systemd_quote value ≡ b'"' ∷ body)
      × (unquote is_systemd_special false body ≡ some (value, []))
unfolding systemd_quote
unquote-systemd_quote value plain = (
  escape_quoted value ++ b'"' ∷ [],
  rw (replace_twice value) refl,
  unquote-escape_quoted is_systemd_special value [] plain,
)
