-- ===== src/Terminal/Session.antt =====
-- Serve of internal/controller/terminal.go behind the handshake: its loop over commands.
pub mod Sent
pub mod Ends
use docker_control.Prelude.{
  ℕ, zero, suc, ◌+◌, ◌*◌, ◌/◌, Bool, not, ◌||◌, List, [], ◌∷◌, Option, none, some, length, take,
  ◌=?◌, if◌then◌else◌,
}
use docker_control.Errors.{Kind, Error, Result, ok, err}
use docker_control.Text.{Text, codes, trim_space}
use docker_control.Bytes.Hex.{encode_hex}
use docker_control.Websocket.Defs.{Network, Conn, write_frame, read_text, close}
use docker_control.Engine.Model.{ExecRequest, ExecResult}
use docker_control.Engine.Monad.{read_clock, Trace, World, Sys, record_event}
use docker_control.Engine.Sandboxes.{second}
use docker_control.Engine.Snapshots.{random}
use docker_control.Engine.Commands.{new_chunks, exec_stream}
use docker_control.Terminal.Messages.{
  Command, Message, ready, reclaimed, problem, pong, started, output, exit,
}
use docker_control.Terminal.Workdir.{safe_terminal_workdir}

pub data Turn : Type 0 where
  goes_on : Turn
  stops : Turn

-- The connection, and the rest of the process.
abbrev pub State : Type 0
State = Conn × Sys

-- `if err := …; err != nil { return }`
abbrev pub go_on_if_sent : Option Error → Turn
go_on_if_sent none = goes_on
go_on_if_sent (some e) = stops

-- errors.Is(err, context.Canceled) || errors.Is(err, io.EOF)
abbrev pub ends_session : Error → Bool
ends_session e = elim e.kind [
  | Kind.canceled ↦ Bool.true
  | Kind.end_of_file ↦ Bool.true
  | _ ↦ Bool.false
]

abbrev pub is_timeout : Error → Bool
is_timeout e = elim e.kind [ Kind.timeout ↦ Bool.true | _ ↦ Bool.false ]

-- The input of a connection is all that the client sends. Where that ends with a timeout the client is
-- silent from then on: a read fails at its deadline, and waits for ever where it has none.
abbrev pub awaited : Option ℕ → Option (Result (List ℕ)) × Conn → Option (Result (List ℕ)) × Conn
awaited none (some (err e), c) = if is_timeout e then (none, c) else (some (err e), c)
awaited none (some (ok payload), c) = (some (ok payload), c)
awaited none (none, c) = (none, c)
awaited (some deadline) o = o

abbrev pub shell_request : Text → Text → ExecRequest
shell_request command workdir = record {
  command = codes "sh" ∷ codes "-lc" ∷ command ∷ [];
  workdir = workdir;
}

-- `encode` is json.Marshal on what is written; `decode` is json.Unmarshal into a terminalCommand.
module _ (net : Network) (encode : Message → List ℕ) where
  -- writeJSON
  unfoldable pub send : Message → Conn → Option Error × Conn
  send m c = write_frame net 0x1 (encode m) c

  -- the connection behind a write whose error is dropped
  abbrev pub send_only : Message → Conn → Conn
  send_only m c = (send m c).1

  -- the connection behind the chunks that `onOutput` has been given
  unfoldable pub forwarded : Text → List (List ℕ) → Conn → Conn
  forwarded id [] c = c
  forwarded id (chunk ∷ chunks) c = forwarded id chunks (send_only (output id chunk) c)

  -- what `onOutput` answers to a chunk
  abbrev pub forward : Text → Conn → List (List ℕ) → List ℕ → Option Error
  forward id c before chunk = (send (output id chunk) (forwarded id before c)).0

  -- Serve behind ExecStream
  abbrev pub answer_exec : Text → Result ExecResult → Conn → Turn × Conn
  answer_exec id (ok r) c =
      let (failed, c') = send (exit id r.exit_code r.truncated r.timed_out) c in
      (go_on_if_sent failed, c')
  answer_exec id (err e) c =
      if ends_session e
      then (stops, c)
      else let (failed, c') = send (problem (some id) e.text) c in (go_on_if_sent failed, c')

  -- readText's error
  abbrev pub end_read : Error → Conn → Conn
  end_read e c = if is_timeout e then send_only reclaimed c else c

-- `session` is the sandbox's key, `clock_text` is time.Now().String(), `timeout` and `max_output` are
-- the configuration's execution timeout in nanoseconds and output limit.
module _ (net : Network) (encode : Message → List ℕ) (decode : List ℕ → Result Command) (w : World)
    (clock_text : Trace → Text) (session : Text) (timeout max_output : ℕ) where
  abbrev pub identifier_from : ℕ → Result (List ℕ) → Sys → Text × Sys
  identifier_from n (ok bytes) s = (encode_hex bytes, s)
  identifier_from n (err e) s =
      (take (n * 2) (encode_hex (clock_text s.trace)), record_event read_clock s)

  -- randomIdentifier
  unfoldable pub random_identifier : ℕ → Sys → Text × Sys
  random_identifier n s = let (r, s') = random w n s in identifier_from n r s'

  abbrev pub run_started : Text → Text → Text → Option Error × Conn → Sys → Turn × State
  run_started id command workdir (some e, c) s = (stops, (c, s))
  run_started id command workdir (none, c) s =
      let (r, s') =
        exec_stream w session (shell_request command workdir) timeout max_output
          (some (forward net encode id c)) s in
      let (turn, c') =
        answer_exec net encode id r (forwarded net encode id (new_chunks s.trace s'.trace) c) in
      (turn, (c', s'))

  -- Serve from `started` on
  unfoldable pub run_command : Text → Text → Text → State → Turn × State
  run_command id command workdir (c, s) =
      run_started id command workdir (send net encode (started id) c) s

  abbrev pub named : Text → Sys → Text × Sys
  named id s = if id =? [] then random_identifier 8 s else (id, s)

  abbrev pub run_in : Command → Result Text → State → Turn × State
  run_in command (err e) (c, s) =
      (goes_on, (send_only net encode (problem (some command.request_id) e.text) c, s))
  run_in command (ok workdir) (c, s) =
      let (id, s') = named command.request_id s in
      run_command id command.command workdir (record c { read_deadline = none }, s')

  -- The rest of a round, for a command
  unfoldable pub on_command : Command → State → Turn × State
  on_command command (c, s) =
      if command.kind =? codes "ping"
      then (goes_on, (send_only net encode pong c, s))
      else if command.kind =? codes "close"
      then (stops, (c, s))
      else if not (command.kind =? codes "exec") || trim_space command.command =? []
      then (
        goes_on,
        (
          send_only net encode
              (problem (some command.request_id) (codes "type=exec and command are required")) c,
          s,
        ),
      )
      else run_in command (safe_terminal_workdir command.workdir) (c, s)

  abbrev pub on_payload : Result Command → State → Turn × State
  on_payload (err e) (c, s) =
      (goes_on, (send_only net encode (problem none (codes "invalid command JSON")) c, s))
  on_payload (ok command) st = on_command command st

  -- What comes of a read: `none` where it waits for ever.
  abbrev pub on_text : Option (Result (List ℕ)) × Conn → Sys → Option (Turn × State)
  on_text (none, c) s = none
  on_text (some (err e), c) s = some (stops, (end_read net encode e c, s))
  on_text (some (ok payload), c) s = some (on_payload (decode payload) (c, s))

  -- SetReadDeadline, and a round of the loop
  unfoldable pub round : ℕ → State → Option (Turn × State)
  round idle (c, s) =
      let c' = record c { read_deadline = some (w.now s.trace + idle) } in
      on_text
        (awaited c'.read_deadline (read_text net (1024 * 1024) (suc (length c'.input.bytes)) c'))
        (record_event read_clock s)

  abbrev pub after_round : (State → Option State) → Option (Turn × State) → Option State
  after_round again none = none
  after_round again (some (goes_on, st)) = again st
  after_round again (some (stops, st)) = some st

  -- The loop; `none` says that it waits for ever, or that the fuel ran out.
  unfoldable pub serve_loop : ℕ → ℕ → State → Option State
  unfolding round
  serve_loop idle zero st = none
  serve_loop idle (suc fuel) st = after_round (serve_loop idle fuel) (round idle st)

  abbrev pub hang_up : Option State → Option State
  hang_up none = none
  hang_up (some (c, s)) = some (close net 1000 (codes "terminal closed") c, s)

  abbrev pub after_ready : ℕ → Option Error × Conn → Sys → Option State
  after_ready idle (some e, c) s = some (c, s)
  after_ready idle (none, c) s = serve_loop idle (suc (length c.input.bytes)) (c, s)

  -- Serve behind the handshake, with the idle time in nanoseconds and the deferred close
  unfoldable pub serve_session : ℕ → State → Option State
  unfolding serve_loop
  serve_session idle (c, s) =
      let (id, s') = random_identifier 12 s in
      hang_up (after_ready idle (send net encode (ready id (idle / second)) c) s')
