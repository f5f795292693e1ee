-- ===== src/Tests/Sandboxes.antt =====
-- Concrete Docker engines for the operations of internal/controller/docker.go.
use docker_control.Prelude.{
  suc, ◌+◌, ◌*◌, ◌<◌, ◌≤◌, true, false, [], ◌≡◌, ◌≢◌, refl, sym, ◌∙◌, inr, some, pos, arith, ◌=?◌,
}
use docker_control.Errors.{ok}
use docker_control.Text.{codes}
use docker_control.Types.Keys.{valid_key}
use docker_control.Engine.Model.{answered}
use docker_control.Engine.Monad.{Sys, running}
use docker_control.Engine.Requests.{json, empty, docker_status}
use docker_control.Engine.Sandboxes.{second, find, wait_loop}
use docker_control.Engine.Images.{
  prepare_image, on_inspected, locked, settle, consult, pull_of, set_pull, end_pull,
}
use docker_control.Engine.Lifecycle.{ensure}
use docker_control.Engine.Waiting.{Ticks, step, wait_loop_ends}
use docker_control.Engine.Pulls.{
  started, ended, is_running, Reach, here, next, prepare, finish, new_engine, single_pull,
}
use docker_control.Engine.Effects.{Grows}
use docker_control.Engine.Effects.Replacement.{Preserves, ensure-Preserves}
use docker_control.Tests.Engines.{
  sandbox_key, old, body, clock, clock_forward, clock_paused, slow, polled, spec,
}

polled-Ticks : Ticks polled
polled-Ticks = record { forward = clock_forward; paused = clock_paused }

five_seconds : 5 * second < clock [] + 26 * step
unfolding clock
five_seconds = omega arith

wait_loop_ends_example :
    wait_loop polled (suc 26) old (5 * second) new_engine
    ≡ wait_loop polled (suc (26 + 4)) old (5 * second) new_engine
wait_loop_ends_example =
    wait_loop_ends polled polled-Ticks 26 4 old (5 * second) new_engine five_seconds

old_found : (find slow sandbox_key new_engine).0 ≡ ok old
unfolding find valid_key json docker_status
old_found = refl

unprepared :
    (prepare_image slow (codes "node") true (find slow sandbox_key new_engine).1).0 ≡ ok false
unfolding prepare_image find valid_key json docker_status empty on_inspected locked settle consult
    pull_of set_pull
unprepared = refl

not_prepared :
    (prepare_image slow (codes "node") true (find slow sandbox_key new_engine).1).0 ≢ ok true
not_prepared h = let e : ok false ≡ ok true = sym unprepared ∙ h in ground arith

ensure-Preserves_example :
    Grows Preserves [] (ensure slow (spec (codes "node")) true (pos 20) new_engine).1.trace
ensure-Preserves_example =
    ensure-Preserves slow (spec (codes "node")) true (pos 20) old new_engine old_found
      (inr not_prepared)

abbrev pulling : Sys
pulling = (prepare_image slow (codes "node") true new_engine).1

pulling_runs : pull_of (codes "node") pulling.pulls ≡ some running
unfolding prepare_image json docker_status empty on_inspected locked settle consult pull_of set_pull
    ◌=?◌
pulling_runs = refl

abbrev pulled : Sys
pulled = end_pull (codes "node") (answered 200 body) pulling

pulled_reached : Reach new_engine pulled
pulled_reached =
    next (next here (prepare slow (codes "node") true new_engine))
      (finish (codes "node") (answered 200 body) pulling pulling_runs)

single_pull_example :
    (started (codes "node") pulled.trace
      ≡ ended (codes "node") pulled.trace + is_running (pull_of (codes "node") pulled.pulls))
    × (started (codes "node") pulled.trace ≤ ended (codes "node") pulled.trace + 1)
single_pull_example = single_pull (codes "node") pulled pulled_reached
