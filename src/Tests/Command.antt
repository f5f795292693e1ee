-- ===== src/Tests/Command.antt =====
-- Concrete arguments and values for internal/command/command.go.
use docker_control.Prelude.{true, false, [], ◌∷◌, ◌≡◌, refl, some, ◌=?◌}
use docker_control.Text.{Text, codes, replace_byte}
use docker_control.Engine.SnapshotImages.Quoting.{unquote, IsPlain}
use docker_control.Command.{pre_argument, has_argument, pre_loop, systemd_quote}
use docker_control.Command.Words.{is_systemd_special, unquote-systemd_quote}

last_home :
    pre_argument (codes "--home" ∷ codes "/a" ∷ codes "--home=/b" ∷ []) (codes "--home")
    ≡ codes "/b"
unfolding pre_argument pre_loop ◌=?◌
last_home = refl

unquote-systemd_quote_example :
    (body : Text) × (systemd_quote (codes "a\\\"b") ≡ b'"' ∷ body)
    × (unquote is_systemd_special false body ≡ some (codes "a\\\"b", []))
unfolding IsPlain
unquote-systemd_quote_example =
    unquote-systemd_quote (codes "a\\\"b") (refl, (refl, (refl, (refl, tt))))

-- A percent and a dollar are left as they are.
not_escaped :
    (systemd_quote (codes "/srv/100%n") ≡ codes "\"/srv/100%n\"")
    × (systemd_quote (codes "/srv/$x") ≡ codes "\"/srv/$x\"")
unfolding systemd_quote replace_byte
not_escaped = (refl, refl)

two_forms :
    (pre_argument (codes "run" ∷ codes "--home" ∷ codes "/a" ∷ []) (codes "--home") ≡ codes "/a")
    × (has_argument (codes "run" ∷ codes "--purge" ∷ []) (codes "--purge") ≡ true)
unfolding pre_argument pre_loop has_argument ◌=?◌
two_forms = (refl, refl)
