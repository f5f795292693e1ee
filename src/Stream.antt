-- ===== src/Stream.antt =====
-- readDockerStream of internal/controller/docker.go: the multiplexed output of a command.
pub mod Frames
pub mod Bounds
use docker_control.Prelude.{
  ℕ, zero, suc, ◌+◌, ◌-◌, Bool, true, false, ◌&&◌, not, List, [], ◌∷◌, ◌++◌, Option, none, some,
  length, take, drop, ltb, ◌==◌, if◌then◌else◌,
}
use docker_control.Errors.{Kind, Error, Result, ok, err}
use docker_control.Bytes.{get_be, Stream, Reader, read_full, pure, ◌>>=◌}

-- `onOutput`: nil, or what it answers to a chunk, given the chunks before it.
abbrev pub Sink : Type 0
Sink = Option (List (List ℕ) → List ℕ → Option Error)

-- The variables of the loop, and the chunks that `onOutput` has been given.
pub record Output : Type 0 where
  pub bytes : List ℕ
  pub truncated : Bool
  pub chunks : List (List ℕ)

abbrev pub no_output : Output
no_output = record { bytes = []; truncated = false; chunks = [] }

-- `onOutput(chunk)` where it is set and the chunk is not empty
unfoldable pub emit : Sink → List ℕ → Output → Option Error × Output
emit none chunk o = (none, o)
emit (some sink) [] o = (none, o)
emit (some sink) (b ∷ chunk) o =
    (sink o.chunks (b ∷ chunk), record o { chunks = o.chunks ++ (b ∷ chunk) ∷ [] })

-- The body of the loop behind the reads; `int` arithmetic cannot overflow at these sizes, and
-- `remaining` is not above 0 exactly where the truncated difference is 0.
unfoldable pub on_frame : ℕ → Sink → List ℕ → Output → Option Error × Output
unfolding emit
on_frame limit sink frame o =
    let remaining = limit - length o.bytes in
    if ltb 0 remaining
    then (if ltb remaining (length frame)
        then emit sink (take remaining frame)
            (record o { bytes = o.bytes ++ take remaining frame; truncated = true })
        else emit sink frame (record o { bytes = o.bytes ++ frame }))
    else (none, if ltb 0 (length frame) then record o { truncated = true } else o)

-- The header of eight bytes, with the size in the last four; then the frame. An end of the input
-- before a header is the end of the stream.
abbrev pub frame_size : List ℕ → ℕ
frame_size header = get_be 0 (drop 4 header)

abbrev pub is_eof : Error → Bool
is_eof e = elim e.kind [ Kind.end_of_file ↦ true | _ ↦ false ]

abbrev pub after_header : Result (List ℕ) × Stream → Result (Option (List ℕ)) × Stream
after_header (err e, s) = (if is_eof e then ok none else err e, s)
after_header (ok header, s) = (do frame ← read_full (frame_size header); pure (some frame)) s

-- One round's reads: `none` at the end of the stream.
unfoldable pub next_frame : Reader (Option (List ℕ))
next_frame s = after_header (read_full 8 s)

-- What the function has when it returns; `none` says that the fuel ran out.
abbrev pub Outcome : Type 0
Outcome = Option (Result (List ℕ × Bool)) × Output

abbrev pub after_emit : (Output → Outcome) → Option Error × Output → Outcome
after_emit again (none, o) = again o
after_emit again (some e, o) = (some (err e), o)

abbrev pub after_read : ℕ → Sink → (Output → Outcome) → Result (Option (List ℕ)) → Output → Outcome
after_read limit sink again (err e) o = (some (err e), o)
after_read limit sink again (ok none) o = (some (ok (o.bytes, o.truncated)), o)
after_read limit sink again (ok (some frame)) o = after_emit again (on_frame limit sink frame o)

unfoldable pub read_stream : ℕ → Sink → ℕ → Stream → Output → Outcome
unfolding next_frame on_frame
read_stream limit sink zero s o = (none, o)
read_stream limit sink (suc fuel) s o =
    let (r, s') = next_frame s in after_read limit sink (read_stream limit sink fuel s') r o

-- readDockerStream(reader, limit, onOutput)
unfoldable pub read_docker_stream : ℕ → Sink → Stream → Outcome
unfolding read_stream
read_docker_stream limit sink s = read_stream limit sink (suc (length s.bytes)) s no_output
