-- ===== src/Tests/Ports.antt =====
-- A host with one port taken, for ListenWithFallback.
use docker_control.Prelude.{ℕ, suc, ◌≡◌, ◌↔◌, refl, arith, ◌=?◌, if◌then◌else◌}
use docker_control.Errors.{Kind, Result, ok, err}
use docker_control.Text.{Text, codes, contains_byte, itoa}
use docker_control.Ports.{join_host_port, listen_with_fallback, search_port}
use docker_control.Ports.First.{IsFirst, listen_with_fallback-IsFirst}

abbrev one_taken : Text → Result ℕ
one_taken address =
    if address =? codes "localhost:8080"
    then err (record { kind = Kind.port_unavailable; text = codes "address already in use" })
    else ok 7

listen_with_fallback-IsFirst_example :
    (listen_with_fallback one_taken (codes "localhost:8080") (codes "localhost") 2 8080 ≡ ok 7)
    ↔ IsFirst one_taken (codes "localhost:8080") (codes "localhost") 2 8080 (suc 2) 7
listen_with_fallback-IsFirst_example =
    listen_with_fallback-IsFirst one_taken (codes "localhost:8080") (codes "localhost") 2 8080 7
      (λ e. omega arith)

second_port :
    listen_with_fallback one_taken (codes "localhost:8080") (codes "localhost") 2 8080 ≡ ok 7
unfolding listen_with_fallback search_port join_host_port contains_byte itoa ◌=?◌
second_port = refl
