-- ===== src/Command/LocalFiles/Lines.antt =====
-- How the lines that ensureLocalFiles of internal/command/command.go writes are scanned.
use docker_control.Prelude.{
  ◌<◌, ◌≡◌, ◌≢◌, refl, ap, ◌∙◌, false, List, [], ◌∷◌, arith, Option, none, length, leb, map, All,
  ◌=?◌,
}
use docker_control.Errors.{Error}
use docker_control.Text.{Text, split}
use docker_control.Text.Lacks.{Lacks, split-append_sep, split-ne-nil}
use docker_control.EnvFile.{Environment, assignment}
use docker_control.EnvFile.Assignments.{IsWritable, settings, load_lines-assignment}
use docker_control.EnvFile.Scanning.{drop_return, lines_of, scan_lines, load_contents}
use docker_control.Command.LocalFiles.{written_lines}

-- The line of a pair is one line for a scanner.
pub record IsLine (pair : Text × Text) : Type 0 where
  pub one : Lacks b'\n' (assignment pair.0 pair.1)
  pub kept : drop_return (assignment pair.0 pair.1) ≡ assignment pair.0 pair.1
  pub short : length (assignment pair.0 pair.1) < 65536
  pub writable : IsWritable pair

abbrev line : Text × Text → Text
line pair = assignment pair.0 pair.1

lines_of-line :
    (text : Text) (parts : List Text)
    → parts ≢ []
    → drop_return text ≡ text
    → length text < 65536
    → lines_of (text ∷ parts) ≡ (text ∷ (lines_of parts).0, (lines_of parts).1)
unfolding lines_of
lines_of-line text [] n d l = absurd (n refl)
lines_of-line text (part ∷ parts) n d l =
    let short : leb 65536 (length text) ≡ false = ground arith in rw short (rw d refl)

scan-written_lines :
    (pairs : List (Text × Text))
    → All IsLine pairs
    → scan_lines (written_lines pairs) ≡ (map line pairs, none)
unfolding scan_lines written_lines split ◌=?◌
scan-written_lines [] h = refl
scan-written_lines (pair ∷ pairs) (h, hs) =
    let rest = written_lines pairs in
    ap lines_of (split-append_sep (line pair) rest b'\n' h.one)
    ∙ lines_of-line (line pair) (split rest b'\n') (split-ne-nil rest b'\n') h.kept h.short
    ∙ ap (λ (p : List Text × Option Error). (line pair ∷ p.0, p.1)) (scan-written_lines pairs hs)

all-IsWritable : (pairs : List (Text × Text)) → All IsLine pairs → All IsWritable pairs
all-IsWritable [] h = tt
all-IsWritable (pair ∷ pairs) (h, hs) = (h.writable, all-IsWritable pairs hs)

-- LoadEnvFile reads the assignments of a file back, written one to a line: each name that was not set
-- gets its value, and the others keep theirs. A line is shorter than 65536 bytes, holds no line feed
-- and no zero byte and does not end with a carriage return; its name is not empty, holds no equals
-- sign and begins no comment; name and value neither begin nor end with white space, nor the value
-- with a quote.
pub load_contents-written_lines :
    (pairs : List (Text × Text)) (env : Environment)
    → All IsLine pairs
    → load_contents (written_lines pairs) env ≡ (none, settings pairs env)
unfolding load_contents
load_contents-written_lines pairs env h =
    rw (scan-written_lines pairs h)
      (rw (load_lines-assignment pairs env (all-IsWritable pairs h)) refl)
