-- ===== src/EnvFile/Scanning.antt =====
-- LoadEnvFile of internal/controller/runtime.go on the contents of its file, with the lines that
-- bufio.Scanner finds there.
use docker_control.Prelude.{
  ℕ, List, [], ◌∷◌, Option, none, some, length, leb, ◌==◌, ◌=?◌, if◌then◌else◌, ◌≡◌, refl,
}
use docker_control.Errors.{Error, new_error}
use docker_control.Text.{Text, codes, split}
use docker_control.EnvFile.{Environment, load_lines}

abbrev pub token_too_long : Error
token_too_long = new_error (codes "bufio.Scanner: token too long")

-- bufio.ScanLines leaves out one carriage return at the end of a line.
unfoldable pub drop_return : Text → Text
drop_return [] = []
drop_return (c ∷ []) = if c == b'\r' then [] else c ∷ []
drop_return (c ∷ d ∷ s) = c ∷ drop_return (d ∷ s)

abbrev pub in_front : Text → List Text × Option Error → List Text × Option Error
in_front line (lines, failed) =
    if leb 65536 (length line)
    then ([], some token_too_long)
    else (drop_return line ∷ lines, failed)

-- The lines among the parts between the line feeds: an empty text behind the last one is no line.
unfoldable pub lines_of : List Text → List Text × Option Error
unfolding drop_return
lines_of [] = ([], none)
lines_of (part ∷ []) = if part =? [] then ([], none) else in_front part ([], none)
lines_of (part ∷ next ∷ parts) = in_front part (lines_of (next ∷ parts))

-- The lines of a scanner, and its error.
unfoldable pub scan_lines : List ℕ → List Text × Option Error
unfolding lines_of
scan_lines contents = lines_of (split contents b'\n')

abbrev pub or_scan_error : Option Error → Option Error × Environment → Option Error × Environment
or_scan_error failed (none, env) = (failed, env)
or_scan_error failed (some e, env) = (some e, env)

-- LoadEnvFile behind the opening of the file
unfoldable pub load_contents : List ℕ → Environment → Option Error × Environment
unfolding scan_lines
load_contents contents env =
    let (lines, failed) = scan_lines contents in or_scan_error failed (load_lines lines env)

scanned : scan_lines (codes "a\r\n\nb\n") ≡ (codes "a" ∷ [] ∷ codes "b" ∷ [], none)
unfolding scan_lines split ◌=?◌
scanned = refl
