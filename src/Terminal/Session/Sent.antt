-- ===== src/Terminal/Session/Sent.antt =====
-- What a command's client is sent by Serve of internal/controller/terminal.go, where the writes succeed.
use docker_control.Prelude.{
  ℕ, ◌≡◌, refl, ap, ◌∙◌, false, List, [], ◌∷◌, ◌++◌, Option, none, some, length, map,
}
use mathlib.Core.List.{append_assoc, append-nil}
use docker_control.Errors.{Error, Result, ok}
use docker_control.Text.{Text}
use docker_control.Websocket.Defs.{Network, Conn, frame_header}
use docker_control.Websocket.Loop.{TakesAll, write_frame_sent}
use docker_control.Stream.Bounds.{concat}
use docker_control.Engine.Model.{ExecResult}
use docker_control.Engine.Monad.{Trace, World, Sys}
use docker_control.Engine.Commands.{new_chunks, exec_stream}
use docker_control.Engine.Commands.Chunks.{exec_stream-chunks}
use docker_control.Terminal.Messages.{Command, Message, started, output, exit}
use docker_control.Terminal.Session.{
  Turn, goes_on, State, go_on_if_sent, answer_exec, send, send_only, forwarded, forward,
  shell_request, run_started, run_command,
}

module _ (net : Network) (encode : Message → List ℕ) where
  -- The messages on the wire, one text frame for each.
  abbrev pub frames : List Message → List ℕ
  frames [] = []
  frames (m ∷ ms) = (frame_header 0x1 (length (encode m)) ++ encode m) ++ frames ms

  abbrev sent_on : Conn → List Message → Conn
  sent_on c ms = record c { output = c.output ++ frames ms }

  frames-append : (ms ns : List Message) → frames (ms ++ ns) ≡ frames ms ++ frames ns
  frames-append [] ns = refl
  frames-append (m ∷ ms) ns = simp (frames-append ms ns, append_assoc)

  module _ (takes : TakesAll net) where
    send_sent :
        (m : Message) (c : Conn)
        → c.closed ≡ false
        → send net encode m c ≡ (none, sent_on c (m ∷ []))
    unfolding send
    send_sent m c o =
        rw (append-nil (frame_header 0x1 (length (encode m)) ++ encode m))
          (write_frame_sent net 0x1 (encode m) c takes o)

    forwarded_sent :
        (id : Text) (chunks : List (List ℕ)) (c : Conn)
        → c.closed ≡ false
        → forwarded net encode id chunks c ≡ sent_on c (map (output id) chunks)
    unfolding forwarded
    forwarded_sent id [] c o = rw (append-nil c.output) refl
    forwarded_sent id (chunk ∷ chunks) c o =
        ap (λ p. forwarded net encode id chunks p.1) (send_sent (output id chunk) c o)
        ∙ forwarded_sent id chunks (sent_on c (output id chunk ∷ [])) o
        ∙ simp (append_assoc, append-nil)

    answer_sent :
        (id : Text) (x : Result ExecResult) (r : ExecResult) (c : Conn)
        → x ≡ ok r
        → c.closed ≡ false
        → answer_exec net encode id x c
          ≡ (goes_on, sent_on c (exit id r.exit_code r.truncated r.timed_out ∷ []))
    answer_sent id x r c h o =
        ap (λ y. answer_exec net encode id y c) h
        ∙ ap (λ (p : Option Error × Conn). (go_on_if_sent p.0, p.1))
            (send_sent (exit id r.exit_code r.truncated r.timed_out) c o)

    module _ (decode : List ℕ → Result Command) (w : World) (clock_text : Trace → Text)
        (session : Text) (timeout max_output : ℕ) where
      -- The round goes on, and the client has been sent the start, the chunks of the output in order
      -- and the exit.
      pub record Relayed (id : Text) (r : ExecResult) (c : Conn) (p : Turn × State) : Type 0 where
        pub chunks : List (List ℕ)
        pub whole : concat chunks ≡ r.output
        pub going : p.0 ≡ goes_on
        pub sent :
            p.1.0.output
            ≡ c.output
              ++ frames (
                  started id
                  ∷ (map (output id) chunks ++ exit id r.exit_code r.truncated r.timed_out ∷ []))

      run_started_sent :
          (id command workdir : Text) (p : Option Error × Conn) (s : Sys)
          → p.0 ≡ none
          → run_started net encode decode w clock_text session timeout max_output id command workdir
              p s
            ≡ run_started net encode decode w clock_text session timeout max_output id command
                workdir
                (none, p.1)
                s
      run_started_sent id command workdir (none, c) s h = refl
      run_started_sent id command workdir (some e, c) s h = cc

      -- On a network that takes every write, if ExecStream returns a result for a command, its client
      -- is sent a message that it has started, messages whose chunks are one behind the other the
      -- output in the result, and one with its exit code and flags, in this order; then Serve goes on.
      pub run_command-Relayed :
          (id command workdir : Text) (c : Conn) (s : Sys) (r : ExecResult)
          → c.closed ≡ false
          → (exec_stream w session
              (shell_request command workdir)
              timeout
              max_output
              (some (forward net encode id (send_only net encode (started id) c)))
              s).0
            ≡ ok r
          → Relayed id r c (
              run_command net encode decode w clock_text session timeout max_output id command
                workdir
                (c, s))
      unfolding run_command
      run_command-Relayed id command workdir c s r o h =
          let c1 = send_only net encode (started id) c in
          let req = shell_request command workdir in
          let sink = forward net encode id c1 in
          let x = exec_stream w session req timeout max_output (some sink) s in
          let chunks = new_chunks s.trace x.1.trace in
          let began = send_sent (started id) c o in
          let open' : c1.closed ≡ false = ap (λ (p : Option Error × Conn). p.1.closed) began ∙ o in
          let told = forwarded_sent id chunks c1 open' in
          let ended =
            answer_sent id x.0 r (forwarded net encode id chunks c1) h
              (ap (λ (d : Conn). d.closed) told ∙ open') in
          let total =
            run_started_sent id command workdir (send net encode (started id) c) s
              (ap (λ (p : Option Error × Conn). p.0) began)
            ∙ ap (λ (q : Turn × Conn). (q.0, (q.1, x.1))) ended in
          let outputs = map (output id) chunks in
          let last = exit id r.exit_code r.truncated r.timed_out ∷ [] in
          record {
            chunks = chunks;
            whole = exec_stream-chunks w session req timeout max_output sink s r h;
            going = ap (λ (q : Turn × State). q.0) total;
            sent =
                ap (λ (q : Turn × State). q.1.0.output) total
                ∙ ap (λ (d : Conn). d.output ++ frames last) told
                ∙ ap (λ (p : Option Error × Conn). (p.1.output ++ frames outputs) ++ frames last)
                    began
                ∙ simp (frames-append outputs last, append_assoc, append-nil);
          }
