-- ===== src/EnvFile.antt =====
-- LoadEnvFile of internal/controller/runtime.go, and the assignments that ensureLocalFiles of
-- internal/command/command.go writes.
pub mod Assignments
pub mod Scanning
use docker_control.Prelude.{
  ℕ, Bool, true, false, ◌||◌, List, [], ◌∷◌, ◌++◌, Option, none, some, any, ◌==◌, ◌=?◌,
  if◌then◌else◌,
}
use docker_control.Errors.{Error, new_error}
use docker_control.Text.{Text, codes, trim_space, has_prefix, contains_byte, split}

-- The environment of the process, the latest setting first.
abbrev pub Environment : Type 0
Environment = List (Text × Text)

-- os.LookupEnv tells whether a name is set.
unfoldable pub is_set : Text → Environment → Bool
is_set name [] = false
is_set name ((n, value) ∷ env) = n =? name || is_set name env

-- os.Setenv refuses an empty name, a name with "=" or a zero byte, and a value with a zero byte.
unfoldable pub set_env : Text → Text → Environment → Option Error × Environment
set_env name value env =
    if name =? [] || contains_byte name b'=' || contains_byte name 0 || contains_byte value 0
    then (some (new_error (codes "setenv: invalid argument")), env)
    else (none, (name, value) ∷ env)

-- strings.Cut(line, "=")
unfoldable pub cut_at : ℕ → Text → Option (Text × Text)
cut_at sep [] = none
cut_at sep (c ∷ s) =
    let rest = cut_at sep s in
    if c == sep
    then some ([], s)
    else elim rest [ none ↦ none | some (before, behind) ↦ some (c ∷ before, behind) ]

abbrev pub is_quote : ℕ → Bool
is_quote c = c == b'"' || c == b'\''

-- strings.Trim(value, "\"'")
unfoldable pub quotes_off_front : Text → Text
quotes_off_front [] = []
quotes_off_front (c ∷ s) = let rest = quotes_off_front s in if is_quote c then rest else c ∷ s

unfoldable pub quotes_off_end : Text → Text
quotes_off_end [] = []
quotes_off_end (c ∷ s) = elim (quotes_off_end s) [
  | [] ↦ if is_quote c then [] else c ∷ []
  | d ∷ t ↦ c ∷ d ∷ t
]

abbrev pub trim_quotes : Text → Text
trim_quotes value = quotes_off_end (quotes_off_front value)

abbrev pub adopt : Text → Text → Environment → Option Error × Environment
adopt name value env = if is_set name env then (none, env) else set_env name value env

-- `%q` of the line is not modelled: the message ends before it.
abbrev pub invalid_line : Error
invalid_line = new_error (codes "invalid env file line: ")

abbrev pub on_cut : Option (Text × Text) → Environment → Option Error × Environment
on_cut none env = (some invalid_line, env)
on_cut (some (name, value)) env =
    if trim_space name =? []
    then (some invalid_line, env)
    else adopt (trim_space name) (trim_quotes (trim_space value)) env

-- The body of the loop: a line
unfoldable pub load_line : Text → Environment → Option Error × Environment
load_line raw env =
    let line = trim_space raw in
    if line =? [] || has_prefix line (codes "#") then (none, env) else on_cut (cut_at b'=' line) env

abbrev pub then_on :
    (Environment → Option Error × Environment)
    → Option Error × Environment
    → Option Error × Environment
then_on next (none, env) = next env
then_on next (some e, env) = (some e, env)

-- The loop, over the lines of bufio.Scanner; what has been set before an error stays set.
unfoldable pub load_lines : List Text → Environment → Option Error × Environment
unfolding load_line
load_lines [] env = (none, env)
load_lines (line ∷ lines) env = then_on (load_lines lines) (load_line line env)

-- A line of the file that ensureLocalFiles writes
abbrev pub assignment : Text → Text → Text
assignment name value = name ++ (b'=' ∷ value)
