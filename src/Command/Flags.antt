-- ===== src/Command/Flags.antt =====
-- Package flag, as internal/command/command.go uses it: FlagSet.Parse with ContinueOnError. What it
-- prints on an error, and `%q` of a value in an error's text, are left out.
use docker_control.Prelude.{
  Bool, true, false, ◌||◌, List, [], ◌∷◌, ◌++◌, Option, none, some, ◌==◌, ◌=?◌, if◌then◌else◌, ◌≡◌,
  refl,
}
use docker_control.Errors.{Error, Result, ok, err, new_error}
use docker_control.Text.{Text, codes, parse_bool}
use docker_control.EnvFile.{cut_at}

pub data FlagKind : Type 0 where
  text_flag : FlagKind
  int_flag : FlagKind
  bool_flag : FlagKind

-- The flags that a set defines.
abbrev pub Flags : Type 0
Flags = List (Text × FlagKind)

unfoldable pub kind_of : Text → Flags → Option FlagKind
kind_of name [] = none
kind_of name ((n, kind) ∷ flags) = if n =? name then some kind else kind_of name flags

-- What an argument is, where no flag waits for its value.
pub data Word : Type 0 where
  -- the arguments end
  ends : Word
  bad : Error → Word
  -- a flag with its value
  gives : Text → Text → Word
  -- a flag whose value is the next argument
  waits : Text → Word

abbrev bad_syntax : Text → Error
bad_syntax argument = new_error (codes "bad flag syntax: " ++ argument)

-- `int_ok` tells whether strconv.ParseInt(value, 0, 64) reads a value.
module _ (int_ok : Text → Bool) (flags : Flags) where
  abbrev checked : Text → Text → FlagKind → Word
  checked name value text_flag = gives name value
  checked name value int_flag =
      if int_ok value then gives name value else bad (new_error (codes "invalid value "))
  checked name value bool_flag = elim (parse_bool value) [
    | none ↦ bad (new_error (codes "invalid boolean value "))
    | some b ↦ gives name value
  ]

  abbrev undefined : Text → Word
  undefined name =
      if name =? codes "help" || name =? codes "h"
      then bad (new_error (codes "flag: help requested"))
      else bad (new_error (codes "flag provided but not defined: -" ++ name))

  abbrev with_value : Text → Text → Option FlagKind → Word
  with_value name value none = undefined name
  with_value name value (some kind) = checked name value kind

  abbrev without_value : Text → Option FlagKind → Word
  without_value name none = undefined name
  without_value name (some bool_flag) = gives name (codes "true")
  without_value name (some _) = waits name

  -- the name of a flag, with what may stand behind "="
  unfoldable named : Text → Option (Text × Text) → Word
  named text none = without_value text (kind_of text flags)
  named text (some (name, value)) = with_value name value (kind_of name flags)

  -- behind the minus signs
  abbrev behind_minus : Text → Text → Word
  behind_minus argument [] = bad (bad_syntax argument)
  behind_minus argument (c ∷ s) =
      if c == b'-' || c == b'='
      then bad (bad_syntax argument)
      else named (c ∷ s) (cut_at b'=' (c ∷ s))

  unfoldable pub word_of : Text → Word
  unfolding named kind_of
  word_of [] = ends
  word_of (c ∷ []) = ends
  word_of (c ∷ d ∷ s) =
      if c == b'-'
      then (if d == b'-'
          then (if s =? [] then ends else behind_minus (c ∷ d ∷ s) s)
          else behind_minus (c ∷ d ∷ s) (d ∷ s))
      else ends

  abbrev value_word : Text → Text → Word
  value_word name value = with_value name value (kind_of name flags)

  abbrev add_setting : Text × Text → Result (List (Text × Text)) → Result (List (Text × Text))
  add_setting pair (ok pairs) = ok (pair ∷ pairs)
  add_setting pair (err e) = err e

  -- The loop, with a flag that waits for its value; the settings, the first one first
  unfoldable pub parse_loop : Option Text → List Text → Result (List (Text × Text))
  unfolding word_of
  parse_loop none [] = ok []
  parse_loop (some name) [] = err (new_error (codes "flag needs an argument: -" ++ name))
  parse_loop (some waiting) (argument ∷ rest) = elim (value_word waiting argument) [
    | gives name value ↦ add_setting (name, value) (parse_loop none rest)
    | bad e ↦ err e
    | waits name ↦ ok []
    | ends ↦ ok []
  ]
  parse_loop none (argument ∷ rest) = elim (word_of argument) [
    | gives name value ↦ add_setting (name, value) (parse_loop none rest)
    | bad e ↦ err e
    | waits name ↦ parse_loop (some name) rest
    | ends ↦ ok []
  ]

  -- set.Parse(arguments)
  unfoldable pub parse_flags : List Text → Result (List (Text × Text))
  unfolding parse_loop
  parse_flags arguments = parse_loop none arguments

-- The value of a flag behind Parse: the one that was set last, or its default.
unfoldable pub flag_value : Text → Text → List (Text × Text) → Text
flag_value name value [] = value
flag_value name value ((n, given) ∷ pairs) =
    flag_value name (if n =? name then given else value) pairs

abbrev is_true : Option Bool → Bool
is_true none = false
is_true (some b) = b

abbrev pub flag_bool : Text → List (Text × Text) → Bool
flag_bool name pairs = is_true (parse_bool (flag_value name (codes "false") pairs))

parsed :
    parse_flags
      (λ s. true)
      ((codes "home", text_flag) ∷ (codes "force", bool_flag) ∷ [])
      (codes "--home" ∷ codes "/srv" ∷ codes "-force" ∷ codes "--home=/opt" ∷ codes "x" ∷ [])
    ≡ ok (
        (codes "home", codes "/srv")
        ∷ (codes "force", codes "true")
        ∷ (codes "home", codes "/opt")
        ∷ [])
unfolding parse_flags cut_at ◌=?◌ parse_bool
parsed = refl
