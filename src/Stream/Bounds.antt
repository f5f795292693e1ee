-- ===== src/Stream/Bounds.antt =====
-- The bound on a command's output, and the end of the loop, whatever the engine sends.
use docker_control.Prelude.{
  ℕ, zero, suc, ◌-◌, ◌<◌, ◌≤◌, ◌≡◌, refl, Bool, true, List, [], ◌∷◌, ◌++◌, arith, Option, none,
  some, length, take, length-append, length-take,
}
use mathlib.Core.List.{append_assoc, append-nil}
use docker_control.Errors.{Error, Result, ok, err}
use docker_control.Bytes.{Stream, pure, read_full, ◌>>=◌}
use docker_control.Bytes.Takes.{
  TookFrom, Takes-pure, Takes-read_full, Takes-bind_weak, Takes-weaken,
}
use docker_control.Stream.{
  Sink, Output, no_output, emit, on_frame, frame_size, after_header, next_frame, Outcome,
  after_read, after_emit, read_stream, read_docker_stream,
}

pub concat : List (List ℕ) → List ℕ
concat [] = []
concat (c ∷ cs) = c ++ concat cs

concat-append_one : (cs : List (List ℕ)) (c : List ℕ) → concat (cs ++ c ∷ []) ≡ concat cs ++ c
unfolding concat
concat-append_one [] c = append-nil c
concat-append_one (d ∷ cs) c = rw (concat-append_one cs c) (rw append_assoc refl)

-- The output is within the limit, and what a sink has been given is the output.
abbrev pub Given : Sink → Output → Type 0
Given none o = Unit
Given (some sink) o = concat o.chunks ≡ o.bytes

pub record IsKept (limit : ℕ) (sink : Sink) (o : Output) : Type 0 where
  pub within : length o.bytes ≤ limit
  pub given : Given sink o

emit-Given :
    (sink : Sink) (chunk : List ℕ) (o : Output) (t : Bool)
    → Given sink o
    → Given sink (emit sink chunk (record o { bytes = o.bytes ++ chunk; truncated = t })).1
unfolding emit
emit-Given none chunk o t h = tt
emit-Given (some sink) [] o t h = rw (append-nil o.bytes) h
emit-Given (some sink) (b ∷ chunk) o t h = rw (concat-append_one o.chunks (b ∷ chunk), h) refl

bytes-emit : (sink : Sink) (chunk : List ℕ) (o : Output) → (emit sink chunk o).1.bytes ≡ o.bytes
unfolding emit
bytes-emit none chunk o = refl
bytes-emit (some sink) [] o = refl
bytes-emit (some sink) (b ∷ chunk) o = refl

on_frame-within :
    (limit : ℕ) (sink : Sink) (frame : List ℕ) (o : Output)
    → length o.bytes ≤ limit
    → length (on_frame limit sink frame o).1.bytes ≤ limit
unfolding on_frame
on_frame-within limit sink frame o h =
    let room = limit - length o.bytes in
    ground (
      arith,
      bytes-emit sink (take room frame)
          (record o { bytes = o.bytes ++ take room frame; truncated = true }),
      bytes-emit sink frame (record o { bytes = o.bytes ++ frame }),
      length-append o.bytes (take room frame),
      length-append o.bytes frame,
      length-take room frame,
    )

on_frame-Given :
    (limit : ℕ) (sink : Sink) (frame : List ℕ) (o : Output)
    → Given sink o
    → Given sink (on_frame limit sink frame o).1
unfolding on_frame
on_frame-Given limit none frame o h = tt
on_frame-Given limit (some sink) frame o h =
    let room = limit - length o.bytes in
    ground (
      arith,
      emit-Given (some sink) (take room frame) o true h,
      emit-Given (some sink) frame o o.truncated h,
    )

-- The end of the loop: it has returned, and the output is kept.
abbrev pub Ended : ℕ → Sink → Outcome → Type 0
Ended limit sink (none, o) = ⊥
Ended limit sink (some (err e), o) = IsKept limit sink o
Ended limit sink (some (ok (bytes, t)), o) = (bytes ≡ o.bytes) × IsKept limit sink o

abbrev Shorter : Stream → Result (Option (List ℕ)) × Stream → Type 0
Shorter s (ok (some frame), s') = length s'.bytes < length s.bytes
Shorter s _ = Unit

frame_after :
    (s : Stream) (n : ℕ) → TookFrom 0 (λ _. Unit {0}) s ((do f ← read_full n; pure (some f)) s)
frame_after s n =
    (Takes-bind_weak 0 (read_full n) _ (Takes-weaken n (Takes-read_full n))
        (λ f _. Takes-pure (some f) tt)).at
      s

next_frame-Shorter : (s : Stream) → Shorter s (next_frame s)
unfolding next_frame
next_frame-Shorter s = go (read_full 8 s) ((Takes-read_full 8).at s)
  where
    shorter :
        (s' : Stream) (r : Result (Option (List ℕ)) × Stream)
        → length s'.bytes < length s.bytes
        → TookFrom 0 (λ _. Unit {0}) s' r
        → Shorter s r
    shorter s' (err e, s'') l h = tt
    shorter s' (ok none, s'') l h = tt
    shorter s' (ok (some f), s'') l (_, h) = omega arith

    go :
        (r : Result (List ℕ) × Stream)
        → TookFrom 8 (λ t. length t ≤ 8) s r
        → Shorter s (after_header r)
    go (err e, s') h = ground arith
    go (ok header, s') (_, h) = shorter s' _ (omega arith) (frame_after s' (frame_size header))

module _ (limit : ℕ) (sink : Sink) where
  round_Ended :
      (fuel : ℕ) (s : Stream) (o : Output) (r : Result (Option (List ℕ)) × Stream)
      → ((s' : Stream) (o' : Output)
          → length s'.bytes < fuel
          → IsKept limit sink o'
          → Ended limit sink (read_stream limit sink fuel s' o'))
      → length s.bytes < suc fuel
      → Shorter s r
      → IsKept limit sink o
      → Ended limit sink (after_read limit sink (read_stream limit sink fuel r.1) r.0 o)
  round_Ended fuel s o (err e, s') ih h l k = k
  round_Ended fuel s o (ok none, s') ih h l k = (refl, k)
  round_Ended fuel s o (ok (some frame), s') ih h l k =
      emitted (on_frame limit sink frame o) (record {
        within = on_frame-within limit sink frame o k.within;
        given = on_frame-Given limit sink frame o k.given;
      })
    where
      emitted :
          (p : Option Error × Output)
          → IsKept limit sink p.1
          → Ended limit sink (after_emit (read_stream limit sink fuel s') p)
      emitted (none, o') k' = ih s' o' (omega arith) k'
      emitted (some e, o') k' = k'

  read_stream-Ended :
      (fuel : ℕ) (s : Stream) (o : Output)
      → length s.bytes < fuel
      → IsKept limit sink o
      → Ended limit sink (read_stream limit sink fuel s o)
  unfolding read_stream
  read_stream-Ended zero s o h k = absurd (omega arith)
  read_stream-Ended (suc fuel) s o h k =
      round_Ended fuel s o (next_frame s) (read_stream-Ended fuel) h (next_frame-Shorter s) k

  -- Whatever the engine sends, the loop ends, the output is within the limit, and the chunks that
  -- `onOutput` has been given are the output, also where an error ends it.
  pub read_docker_stream-Ended : (s : Stream) → Ended limit sink (read_docker_stream limit sink s)
  unfolding read_docker_stream concat
  read_docker_stream-Ended s =
      read_stream-Ended (suc (length s.bytes)) s no_output (omega arith)
        (record { within = omega arith; given = start sink })
    where
      start : (k : Sink) → Given k no_output
      start none = tt
      start (some f) = refl
