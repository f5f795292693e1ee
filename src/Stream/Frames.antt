-- ===== src/Stream/Frames.antt =====
-- What becomes of a command's output that arrives whole.
use docker_control.Prelude.{
  ℕ, zero, suc, ◌+◌, ◌-◌, ◌^◌, ◌<◌, ◌≤◌, ◌≡◌, refl, ap, true, ◌||◌, List, [], ◌∷◌, ◌++◌, arith,
  Option, none, some, length, take, ltb, take-append_ge, take-take_append, take-all, length-append,
  length-take, length-take-le, All,
}
use mathlib.Core.List.{append_assoc, append-nil}
use docker_control.Errors.{Kind, Error, ok}
use docker_control.Bytes.{put_be, read_full}
use docker_control.Bytes.Endian.{length-put_be, get_be-put_be}
use docker_control.Websocket.Reading.{read_full-append}
use docker_control.Stream.{
  Sink, Output, no_output, emit, on_frame, next_frame, Outcome, after_emit, read_stream,
  read_docker_stream,
}

-- A frame as the Docker engine sends it: the stream's mark and three zeros, the size, the payload.
pub record Sent : Type 0 where
  pub mark : ℕ
  pub payload : List ℕ

pub encode : List Sent → List ℕ
encode [] = []
encode (f ∷ fs) = (f.mark ∷ 0 ∷ 0 ∷ 0 ∷ put_be 4 (length f.payload)) ++ (f.payload ++ encode fs)

pub payloads : List Sent → List ℕ
payloads [] = []
payloads (f ∷ fs) = f.payload ++ payloads fs

-- The sink takes every chunk.
abbrev pub Takes : Sink → Type 0
Takes none = Unit {0}
Takes (some sink) = (before : List (List ℕ)) (chunk : List ℕ) → sink before chunk ≡ none

-- One frame: what the output holds behind it.
pub record Followed (limit : ℕ) (frame : List ℕ) (o o' : Output) : Type 0 where
  pub bytes : o'.bytes ≡ take limit (o.bytes ++ frame)
  pub truncated : o'.truncated ≡ (o.truncated || ltb limit (length o.bytes + length frame))

emit_taken :
    (sink : Sink) (chunk : List ℕ) (o : Output)
    → Takes sink
    → ((emit sink chunk o).0 ≡ none)
      × ((emit sink chunk o).1.bytes ≡ o.bytes)
      × ((emit sink chunk o).1.truncated ≡ o.truncated)
unfolding emit
emit_taken none chunk o t = (refl, refl, refl)
emit_taken (some sink) [] o t = (refl, refl, refl)
emit_taken (some sink) (b ∷ chunk) o t = (t o.chunks (b ∷ chunk), refl, refl)

take-none : (n : ℕ) (s : List ℕ) → n ≡ 0 → take n s ≡ []
take-none n s h = rw h refl

on_frame_lem :
    (limit : ℕ) (sink : Sink) (frame : List ℕ) (o : Output)
    → Takes sink
    → length o.bytes ≤ limit
    → ((on_frame limit sink frame o).0 ≡ none)
      × Followed limit frame o (on_frame limit sink frame o).1
unfolding on_frame
on_frame_lem limit sink frame o t h =
    let room = limit - length o.bytes in
    let short =
      emit_taken sink (take room frame)
        (record o { bytes = o.bytes ++ take room frame; truncated = true }) t in
    let whole = emit_taken sink frame (record o { bytes = o.bytes ++ frame }) t in
    let cut = take-append_ge limit o.bytes frame h in
    (
      ground (arith, short, whole),
      record {
        bytes = ground (
          arith,
          short,
          whole,
          cut,
          take-all room frame,
          take-none room frame,
          append-nil o.bytes,
        );
        truncated = ground (arith, short, whole);
      },
    )

next_frame-sent :
    (f : Sent) (rest : List ℕ) (e : Error)
    → length f.payload < 2 ^ 32
    → next_frame (record {
      bytes = (f.mark ∷ 0 ∷ 0 ∷ 0 ∷ put_be 4 (length f.payload)) ++ (f.payload ++ rest);
      ending = e;
    })
      ≡ (ok (some f.payload), record { bytes = rest; ending = e })
unfolding next_frame
next_frame-sent f rest e h =
    let header = f.mark ∷ 0 ∷ 0 ∷ 0 ∷ put_be 4 (length f.payload) in
    let l : length header ≡ 8 = omega (arith, length-put_be 4 (length f.payload)) in
    rw (read_full-append 8 header (f.payload ++ rest) e l, next_frame)
      (rw (get_be-put_be 4 (length f.payload) (omega arith))
        (rw (read_full-append (length f.payload) f.payload rest e refl) refl))

next_frame-end :
    (e : Error)
    → e.kind ≡ Kind.end_of_file
    → next_frame (record { bytes = []; ending = e }) ≡ (ok none, record { bytes = []; ending = e })
unfolding next_frame read_full
next_frame-end e h = ground arith

after_emit-none :
    (again : Output → Outcome) (p : Option Error × Output)
    → p.0 ≡ none
    → after_emit again p ≡ again p.1
after_emit-none again (none, o) h = refl
after_emit-none again (some e, o) h = cc

abbrev pub FitsHeader : Sent → Type 0
FitsHeader f = length f.payload < 2 ^ 32

-- The run of the loop over frames that arrive whole.
read_stream-encode :
    (limit : ℕ) (sink : Sink) (fs : List Sent) (e : Error) (fuel : ℕ) (o : Output)
    → Takes sink
    → All FitsHeader fs
    → e.kind ≡ Kind.end_of_file
    → length o.bytes ≤ limit
    → length fs < fuel
    → (read_stream limit sink fuel (record { bytes = encode fs; ending = e }) o).0
      ≡ some (
          ok (
            take limit (o.bytes ++ payloads fs),
            o.truncated || ltb limit (length o.bytes + length (payloads fs)),
          ))
unfolding read_stream encode payloads
read_stream-encode limit sink fs e zero o t fit k h l = absurd (omega arith)
read_stream-encode limit sink [] e (suc fuel) o t fit k h l =
    rw (next_frame-end e k, append-nil o.bytes, take-all limit o.bytes h) (ground arith)
read_stream-encode limit sink (f ∷ fs) e (suc fuel) o t (fit, fits) k h l =
    let (done, followed) = on_frame_lem limit sink f.payload o t h in
    let o' = (on_frame limit sink f.payload o).1 in
    let all_bytes = o.bytes ++ f.payload in
    let small : length o'.bytes ≤ limit =
      omega (arith, ap length followed.bytes, length-take-le limit all_bytes) in
    let joined : take limit (o'.bytes ++ payloads fs)
        ≡ take limit (o.bytes ++ (f.payload ++ payloads fs)) =
      rw followed.bytes
        (rw (take-take_append limit all_bytes (payloads fs)) (rw append_assoc refl)) in
    rw (next_frame-sent f (encode fs) e fit) (
      rw (after_emit-none _ (on_frame limit sink f.payload o) done) (
        rw (read_stream-encode limit sink fs e fuel o' t fits k small (omega arith)) (
          ground (
            arith,
            joined,
            followed.truncated,
            ap length followed.bytes,
            length-take limit all_bytes,
            length-append o.bytes f.payload,
            length-append f.payload (payloads fs),
          ))))

length-encode : (fs : List Sent) → length fs ≤ length (encode fs)
unfolding encode
length-encode [] = omega arith
length-encode (f ∷ fs) = omega (
  arith,
  length-append (put_be 4 (length f.payload)) (f.payload ++ encode fs),
  length-append f.payload (encode fs),
  length-encode fs,
)

-- Of frames that arrive whole, up to the end of the stream, the result holds the payloads in order,
-- cut at the limit, and says that it was cut exactly when they are longer than that.
pub read_docker_stream-encode :
    (limit : ℕ) (sink : Sink) (fs : List Sent) (e : Error)
    → Takes sink
    → All FitsHeader fs
    → e.kind ≡ Kind.end_of_file
    → (read_docker_stream limit sink (record { bytes = encode fs; ending = e })).0
      ≡ some (ok (take limit (payloads fs), ltb limit (length (payloads fs))))
unfolding read_docker_stream
read_docker_stream-encode limit sink fs e t fit k =
    rw
      (read_stream-encode limit sink fs e (suc (length (encode fs))) no_output t fit k (omega arith)
        (omega (arith, length-encode fs)))
      (ground arith)
