-- ===== src/Engine/Commands.antt =====
-- Exec and ExecStream of internal/controller/docker.go.
pub mod Chunks
use docker_control.Prelude.{
  ℕ, ◌/◌, Bool, ◌||◌, List, [], ◌∷◌, ◌++◌, Option, none, some, length, drop, ◌==◌,
}
use docker_control.Errors.{Result, err}
use docker_control.Text.{Text, codes, itoa}
use docker_control.Stream.{Sink, Outcome, read_docker_stream}
use docker_control.Engine.Model.{ExecRequest, ExecResult, create_exec, start_exec, inspect_exec}
use docker_control.Engine.Monad.{World, M, Event, Trace, streamed, pure, ◌>>=◌}
use docker_control.Engine.Requests.{request, json}
use docker_control.Engine.Sandboxes.{second, no_rounds, require_ready}

-- The chunks handed to `onOutput`, in the trace.
unfoldable pub record_chunks : List (List ℕ) → Trace → Trace
record_chunks [] t = t
record_chunks (c ∷ cs) t = record_chunks cs (streamed c ∷ t)

-- The chunks handed to `onOutput` so far, the first one first.
unfoldable pub chunks_of : Trace → List (List ℕ)
chunks_of [] = []
chunks_of (streamed chunk ∷ t) = chunks_of t ++ chunk ∷ []
chunks_of (_ ∷ t) = chunks_of t

-- Those of the trace `t'` that are not in `t`.
abbrev pub new_chunks : Trace → Trace → List (List ℕ)
new_chunks t t' = drop (length (chunks_of t)) (chunks_of t')

abbrev pub stream_result : Option (Result (List ℕ × Bool)) → Result (List ℕ × Bool)
stream_result none = err no_rounds
stream_result (some r) = r

-- What readDockerStream makes of the response, with the chunks in the trace.
unfoldable pub collected : Outcome → M (List ℕ × Bool)
unfolding record_chunks
collected (r, o) s = (stream_result r, record s { trace = record_chunks o.chunks s.trace })

-- The command in front of the request's: `timeout -s KILL <seconds>s`
abbrev pub limited : ℕ → List Text → List Text
limited timeout command =
    codes "timeout" ∷ codes "-s" ∷ codes "KILL" ∷ (itoa (timeout / second) ++ codes "s") ∷ command

module _ (w : World) where
  -- ExecStream(session, request, timeout, maxOutput, onOutput), with `timeout` in nanoseconds
  unfoldable pub exec_stream : Text → ExecRequest → ℕ → ℕ → Sink → M ExecResult
  unfolding collected
  exec_stream session req timeout max_output sink = do
    item ← require_ready w session
    id ← json w (create_exec item.id (limited timeout req.command) req.workdir) (λ b. b.as_id)
    response ← request w (start_exec id)
    out ← collected (read_docker_stream max_output sink response.stream)
    code ← json w (inspect_exec id) (λ b. b.as_exit_code)
    pure (record {
      exit_code = code;
      output = out.0;
      truncated = out.1;
      timed_out = code == 124 || code == 137;
    })

  -- Exec: no `onOutput`
  unfoldable pub exec : Text → ExecRequest → ℕ → ℕ → M ExecResult
  unfolding exec_stream
  exec session req timeout max_output = exec_stream session req timeout max_output none
