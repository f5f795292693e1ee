-- ===== src/Tests/EnvFile.antt =====
-- A file of assignments, and one whose value ends with a quote.
use docker_control.Prelude.{◌≡◌, refl, [], ◌∷◌, none, ◌=?◌}
use docker_control.Text.{Text, codes, trim_space, contains_byte}
use docker_control.EnvFile.{
  Environment, is_set, set_env, cut_at, quotes_off_front, quotes_off_end, load_line, load_lines,
  assignment,
}
use docker_control.EnvFile.Assignments.{settings}
use docker_control.EnvFile.Scanning.{drop_return, load_contents}
use docker_control.Tests.Installations.{fits}
use docker_control.Command.LocalFiles.{written_lines}
use docker_control.Command.LocalFiles.Lines.{IsLine, load_contents-written_lines}

abbrev listening : Text × Text
listening = (codes "DOCKER_CONTROL_LISTEN", codes "127.0.0.1:16544")

abbrev found_set : Environment
found_set = (codes "ALLOW_NETWORK", codes "true") ∷ []

listening-IsLine : IsLine listening
unfolding contains_byte trim_space quotes_off_front quotes_off_end drop_return ◌=?◌
listening-IsLine = fits listening refl refl refl (λ e. cc) refl refl refl refl refl refl refl

load_contents-written_lines_example :
    load_contents (written_lines (listening ∷ [])) found_set
    ≡ (none, settings (listening ∷ []) found_set)
load_contents-written_lines_example =
    load_contents-written_lines (listening ∷ []) found_set (listening-IsLine, tt)

quote_is_lost :
    load_lines (assignment (codes "DOCKER_CONTROL_TOKEN") (codes "secret'") ∷ []) []
    ≡ (none, (codes "DOCKER_CONTROL_TOKEN", codes "secret") ∷ [])
unfolding load_lines load_line cut_at is_set set_env contains_byte trim_space quotes_off_front
    quotes_off_end ◌=?◌
quote_is_lost = refl
