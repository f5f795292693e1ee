-- ===== src/Tests/Sessions.antt =====
-- A terminal's session with a concrete client, network and Docker engine.
use docker_control.Prelude.{ℕ, ◌≡◌, refl, false, true, List, [], ◌∷◌, ◌++◌, none, some, ◌=?◌}
use docker_control.Errors.{Error, Kind, Result, ok}
use docker_control.Text.{Text, codes}
use docker_control.Bytes.{read_full, get_be}
use docker_control.Stream.{read_docker_stream}
use docker_control.Types.Keys.{valid_key}
use docker_control.Engine.Requests.{json, docker_status}
use docker_control.Engine.Sandboxes.{refine, require_ready}
use docker_control.Websocket.Defs.{Network, Conn, eof, write_frame}
use docker_control.Engine.Model.{Body, answered, ExecResult}
use docker_control.Engine.Monad.{Trace, World, Sys}
use docker_control.Engine.Commands.{exec_stream}
use docker_control.Terminal.Messages.{
  Command, Message, ready, reclaimed, problem, pong, started, output, exit,
}
use docker_control.Terminal.Session.{
  send, send_only, forwarded, forward, shell_request, run_command,
}
use docker_control.Terminal.Session.Sent.{Relayed, run_command-Relayed}
use docker_control.Tests.Engines.{sandbox_key, body, world}

abbrev pub every_write : Network
every_write before s = none

-- A short name for each message, with its text.
abbrev pub encoded : Message → List ℕ
encoded (ready id seconds) = codes "ready"
encoded reclaimed = codes "reclaimed"
encoded (problem id text) = codes "error"
encoded pong = codes "pong"
encoded (started id) = codes "started " ++ id
encoded (output id chunk) = codes "output " ++ chunk
encoded (exit id code truncated timed_out) = codes "exit"

abbrev pub an_exec : List ℕ → Result Command
an_exec payload =
    ok (record { kind = codes "exec"; request_id = codes "r1"; command = payload; workdir = [] })

-- The sandbox is healthy, and a command prints "hi".
abbrev healthy : Body
healthy = record body {
  as_details =
      ok (record { status = codes "running"; running = true; health = some (codes "healthy") });
  stream = record { bytes = 1 ∷ 0 ∷ 0 ∷ 0 ∷ 0 ∷ 0 ∷ 0 ∷ 2 ∷ codes "hi"; ending = eof };
}

abbrev printing : World
printing = world (λ t c. answered 200 healthy) (λ t. 0)

-- A client that sends one masked text and is silent then.
abbrev silence : Error
silence = record { kind = Kind.timeout; text = codes "i/o timeout" }

abbrev client : Conn
client = record {
  input = record { bytes = 0x81 ∷ 0x82 ∷ 0 ∷ 0 ∷ 0 ∷ 0 ∷ codes "ls"; ending = silence };
  output = [];
  closed = false;
  hung_up = false;
  read_deadline = none;
}

abbrev idle_process : Sys
idle_process = record { trace = []; pulls = [] }

abbrev pub some_time : Trace → Text
some_time t = codes "2026-01-01 00:00:00 +0000 UTC"

abbrev hi : ExecResult
hi = record { exit_code = 0; output = codes "hi"; truncated = false; timed_out = false }

ls_prints_hi :
    (exec_stream printing sandbox_key
      (shell_request (codes "ls") (codes "/workspace"))
      30_000_000_000
      65536
      (some (
        forward every_write encoded
          (codes "r1")
          (send_only every_write encoded (started (codes "r1")) client)))
      idle_process).0
    ≡ ok hi
unfolding exec_stream require_ready valid_key json docker_status refine ◌=?◌ read_docker_stream
    read_full get_be send write_frame forwarded
ls_prints_hi = refl

run_command-Relayed_example :
    Relayed every_write encoded
      (λ before s. refl)
      an_exec
      printing
      some_time
      sandbox_key
      30_000_000_000
      65536
      (codes "r1")
      hi
      client
      (run_command every_write encoded an_exec printing some_time sandbox_key 30_000_000_000 65536
        (codes "r1")
        (codes "ls")
        (codes "/workspace")
        (client, idle_process))
run_command-Relayed_example =
    run_command-Relayed every_write encoded (λ before s. refl) an_exec printing some_time
      sandbox_key 30_000_000_000 65536 (codes "r1") (codes "ls") (codes "/workspace") client
      idle_process hi refl ls_prints_hi
