-- ===== src/Engine/Commands/Chunks.antt =====
-- What ExecStream of internal/controller/docker.go hands to `onOutput`.
use docker_control.Prelude.{
  ℕ, ◌≡◌, refl, sym, ap, ◌∙◌, Bool, List, [], ◌∷◌, ◌++◌, Option, none, some, length, drop-append_eq,
}
use mathlib.Core.List.{append_assoc, append-nil}
use docker_control.Errors.{Error, Result, ok, err}
use docker_control.Text.{Text}
use docker_control.Stream.{Outcome, read_docker_stream}
use docker_control.Stream.Bounds.{concat, Ended, read_docker_stream-Ended}
use docker_control.Engine.Model.{Call, start_exec, inspect_exec, ExecRequest, ExecResult}
use docker_control.Engine.Monad.{Event, streamed, Trace, World, Sys, M, continue, ◌>>=◌}
use docker_control.Engine.Requests.{request, json}
use docker_control.Engine.Commands.{record_chunks, chunks_of, new_chunks, collected, exec_stream}
use docker_control.Engine.Effects.{
  Grows, same, more, Adds, Adds-map, Adds-pure, Adds-bind, Adds-json, Yields, Yields-pure,
  Yields-any, Yields-bind,
}
use docker_control.Engine.Effects.Queries.{IsQuery, require_ready-IsQuery}

-- An event that is no output.
abbrev IsQuiet : Event → Type 0
IsQuiet (streamed _) = ⊥
IsQuiet _ = Unit

query_IsQuiet : (e : Event) → IsQuery e → IsQuiet e
query_IsQuiet (streamed _) h = h
query_IsQuiet _ h = tt

quiet_chunks : {t u : Trace} → Grows IsQuiet t u → chunks_of u ≡ chunks_of t
unfolding chunks_of
quiet_chunks same = refl
quiet_chunks (more {e = streamed _} h g) = absurd h
quiet_chunks (more h g) = quiet_chunks g

chunks_of-record_chunks :
    (cs : List (List ℕ)) (t : Trace) → chunks_of (record_chunks cs t) ≡ chunks_of t ++ cs
unfolding chunks_of record_chunks
chunks_of-record_chunks [] t = sym (append-nil (chunks_of t))
chunks_of-record_chunks (c ∷ cs) t =
    rw (chunks_of-record_chunks cs (streamed c ∷ t)) (rw append_assoc refl)

-- If a result is returned, the chunks that have been handed out since `t` are its output.
record Handed (t : Trace) (r : ExecResult) (u : Trace) : Type 0 where
  chunks : List (List ℕ)
  added : chunks_of u ≡ chunks_of t ++ chunks
  whole : concat chunks ≡ r.output

record Streaming (m : M ExecResult) : Type 0 where
  at : (s : Sys) (r : ExecResult) → (m s).0 ≡ ok r → Handed s.trace r (m s).1.trace

module _ {A : Type 0} where
  after_quiet :
      (f : A → M ExecResult) (p : Result A × Sys) (t : Trace) (r : ExecResult)
      → Grows IsQuiet t p.1.trace
      → ((a : A) → Streaming (f a))
      → (continue f p).0 ≡ ok r
      → Handed t r (continue f p).1.trace
  after_quiet f (err e, s) t r g h k = cc
  after_quiet f (ok a, s) t r g h k =
      let handed = (h a).at s r k in
      record {
        chunks = handed.chunks;
        added = handed.added ∙ ap (λ cs. cs ++ handed.chunks) (quiet_chunks g);
        whole = handed.whole;
      }

  Streaming-bind :
      (m : M A) (f : A → M ExecResult)
      → Adds IsQuiet m
      → ((a : A) → Streaming (f a))
      → Streaming (m >>= f)
  Streaming-bind m f q h = record { at = λ s r k. after_quiet f (m s) s.trace r (q.at s) h k }

Streaming-collected :
    (o : Outcome) (limit : ℕ) (sink : List (List ℕ) → List ℕ → Option Error)
    (f : List ℕ × Bool → M ExecResult)
    → Ended limit (some sink) o
    → ((out : List ℕ × Bool) → Adds IsQuiet (f out))
    → ((out : List ℕ × Bool) → Yields (λ r. r.output ≡ out.0) (f out))
    → Streaming (collected o >>= f)
unfolding collected
Streaming-collected (none, o) limit sink f e q y = absurd e
Streaming-collected (some (err x), o) limit sink f e q y = record { at = λ s r k. cc }
Streaming-collected (some (ok out), o) limit sink f (kept, e) q y = record {
  at = λ s r k.
      let s' = record s { trace = record_chunks o.chunks s.trace } in
      record {
        chunks = o.chunks;
        added = quiet_chunks ((q out).at s') ∙ chunks_of-record_chunks o.chunks s.trace;
        whole = e.given ∙ sym kept ∙ sym ((y out).at s' r k);
      };
}

module _ (w : World) where
  request-IsQuiet : (c : Call) → Adds IsQuiet (request w c)
  unfolding request
  request-IsQuiet c = record { at = λ s. more tt same }

  exec_stream-Streaming :
      (session : Text) (req : ExecRequest) (timeout max_output : ℕ)
      (sink : List (List ℕ) → List ℕ → Option Error)
      → Streaming (exec_stream w session req timeout max_output (some sink))
  unfolding exec_stream
  exec_stream-Streaming session req timeout max_output sink =
      Streaming-bind _ _ (Adds-map query_IsQuiet (require_ready-IsQuery w session)) (λ item.
        Streaming-bind _ _ (Adds-json w _ _ tt) (λ id.
          Streaming-bind _ _ (request-IsQuiet (start_exec id)) (λ response.
            Streaming-collected (read_docker_stream max_output (some sink) response.stream)
              max_output sink _ (read_docker_stream-Ended max_output (some sink) response.stream)
              (λ out. Adds-bind _ _ (Adds-json w _ _ tt) (λ code. Adds-pure _))
              (λ out.
                Yields-bind (json w (inspect_exec id) (λ b. b.as_exit_code)) _ (Yields-any _)
                  (λ code _. Yields-pure _ refl)))))

  -- If ExecStream returns a result, the chunks that it has handed to `onOutput` are, one behind the
  -- other, the output in the result.
  pub exec_stream-chunks :
      (session : Text) (req : ExecRequest) (timeout max_output : ℕ)
      (sink : List (List ℕ) → List ℕ → Option Error) (s : Sys) (r : ExecResult)
      → (exec_stream w session req timeout max_output (some sink) s).0 ≡ ok r
      → concat
          (new_chunks s.trace (exec_stream w session req timeout max_output (some sink) s).1.trace)
        ≡ r.output
  exec_stream-chunks session req timeout max_output sink s r h =
      let handed = (exec_stream-Streaming session req timeout max_output sink).at s r h in
      rw handed.added (
        rw (drop-append_eq (length (chunks_of s.trace)) (chunks_of s.trace) handed.chunks refl)
          handed.whole)
