-- ===== src/Websocket/Writing.antt =====
-- Frames that are sent: what a client that follows RFC 6455 reads, and the closing of a connection.
use docker_control.Prelude.{
  ℕ, ◌+◌, ◌%◌, ◌^◌, ◌<◌, ◌≤◌, ◌≡◌, refl, true, false, ◌||◌, not, List, ◌∷◌, ◌++◌, arith, Option,
  none, some, length, take, drop, ltb, ltb→lt, leb, ◌==◌, if◌then◌else◌, take-append_eq,
  drop-append_eq, Bool-cases, inl, inr, length-append,
}
use mathlib.Core.List.{append_assoc}
use docker_control.Text.{Text}
use docker_control.Bytes.{put_be, get_be}
use docker_control.Bytes.Endian.{length-put_be, get_be-put_be}
use docker_control.Websocket.Loop.{TakesAll, write_sent}
use docker_control.Websocket.Defs.{
  Network, Conn, Frame, set_top, top_bit, net_closed, frame_header, write_frame, bytes_frame, close,
}

-- The payload of a frame whose length is written in `width` bytes.
abbrev sized : ℕ → ℕ → List ℕ → Option (Frame × List ℕ)
sized opcode size s =
    if leb size (length s)
    then some (record { opcode = opcode; payload = take size s }, drop size s)
    else none

abbrev wide : ℕ → ℕ → List ℕ → Option (Frame × List ℕ)
wide width opcode s =
    if leb width (length s) then sized opcode (get_be 0 (take width s)) (drop width s) else none

-- How RFC 6455, section 5.2, reads an unmasked and unfragmented frame: the frame, and what follows.
pub decode : List ℕ → Option (Frame × List ℕ)
decode (first ∷ second ∷ s) =
    if not (top_bit first) || top_bit second
    then none
    else if second == 126
    then wide 2 (first % 128) s
    else if second == 127
    then wide 8 (first % 128) s
    else sized (first % 128) second s
decode _ = none

sized-append :
    (opcode : ℕ) (payload rest : List ℕ)
    → sized opcode (length payload) (payload ++ rest)
      ≡ some (record { opcode = opcode; payload = payload }, rest)
sized-append opcode payload rest =
    rw
      (
        take-append_eq (length payload) payload rest refl,
        drop-append_eq (length payload) payload rest refl,
      )
      (ground (arith, length-append payload rest))

wide-append :
    (width opcode : ℕ) (payload rest : List ℕ)
    → length payload < 256 ^ width
    → wide width opcode (put_be width (length payload) ++ (payload ++ rest))
      ≡ some (record { opcode = opcode; payload = payload }, rest)
wide-append width opcode payload rest h =
    let size = put_be width (length payload) in
    let l = length-put_be width (length payload) in
    rw
      (take-append_eq width size (payload ++ rest) l, drop-append_eq width size (payload ++ rest) l)
      (rw (get_be-put_be width (length payload) h)
        (ground (arith, length-append size (payload ++ rest), l, sized-append opcode payload rest)))

decode_start :
    (opcode second : ℕ) (s : List ℕ)
    → opcode < 16
    → second < 128
    → decode (set_top opcode ∷ second ∷ s) ≡ (
        if second == 126
        then wide 2 opcode s
        else if second == 127
        then wide 8 opcode s
        else sized opcode second s)
unfolding decode
decode_start opcode second s h l =
    let top : set_top opcode ≡ opcode + 128 = ground arith in
    let bit : top_bit (opcode + 128) ≡ true = ground arith in
    let low : top_bit second ≡ false = ground arith in
    let rest : (opcode + 128) % 128 ≡ opcode = omega arith in rw top (rw (bit, low, rest) refl)

-- What writeFrame sends for a payload of any length that a uint64 holds is read back by the RFC's
-- rules as the opcode and the payload, and what follows is left.
pub decode-frame_header :
    (opcode : ℕ) (payload rest : List ℕ)
    → opcode < 16
    → length payload < 2 ^ 64
    → decode ((frame_header opcode (length payload) ++ payload) ++ rest)
      ≡ some (record { opcode = opcode; payload = payload }, rest)
decode-frame_header opcode payload rest h l = elim (Bool-cases (ltb (length payload) 126)) [
  | inl small ↦ rw small (
      rw (decode_start opcode (length payload) (payload ++ rest) h (ground arith))
        (ground (arith, sized-append opcode payload rest)))
  | inr large ↦ rw large (elim (Bool-cases (leb (length payload) 65535)) [
    | inl short ↦ rw short (
        rw (append_assoc (put_be 2 (length payload)) payload rest) (
          rw
            (decode_start opcode 126 (put_be 2 (length payload) ++ (payload ++ rest)) h
              (omega arith))
            (wide-append 2 opcode payload rest (ground arith))))
    | inr long ↦ rw long (
        rw (append_assoc (put_be 8 (length payload)) payload rest) (
          rw
            (decode_start opcode 127 (put_be 8 (length payload) ++ (payload ++ rest)) h
              (omega arith))
            (wide-append 8 opcode payload rest (omega arith))))
  ])
]

-- The hand-written frame of a close is the one that writeFrame would send.
bytes_frame-eq-frame_header :
    (opcode : ℕ) (payload : List ℕ)
    → length payload ≤ 65535
    → bytes_frame opcode payload ≡ frame_header opcode (length payload) ++ payload
unfolding bytes_frame put_be
bytes_frame-eq-frame_header opcode payload h = elim (Bool-cases (ltb (length payload) 126)) [
  | inl small ↦
      let e : length payload % 256 ≡ length payload = omega (arith, ltb→lt _ _ small) in
      rw (small, e) refl
  | inr large ↦
      let short : leb (length payload) 65535 ≡ true = ground arith in rw large (rw short refl)
]

-- The state of a connection that has been closed with `code` and `reason`.
abbrev pub closed_with : ℕ → Text → Conn → Conn
closed_with code reason c = record c {
  output =
      c.output
      ++ (frame_header 0x8 (length (put_be 2 code ++ reason)) ++ (put_be 2 code ++ reason));
  closed = true;
  hung_up = true;
}

-- Closing an open connection sends one close frame with the code and the reason and hangs up; a
-- second close changes nothing, and every later write fails and sends nothing.
pub close_once :
    (net : Network) (code later : ℕ) (reason other : Text) (opcode : ℕ) (payload : List ℕ)
    (c : Conn)
    → TakesAll net
    → c.closed ≡ false
    → length reason ≤ 65533
    → (close net code reason c ≡ closed_with code reason c)
      × (close net later other (close net code reason c) ≡ close net code reason c)
      × (write_frame net opcode payload (close net code reason c)
          ≡ (some net_closed, close net code reason c))
unfolding close write_frame
close_once net code later reason other opcode payload c t o h =
    let body = put_be 2 code ++ reason in
    let fits : length body ≤ 65535 =
      omega (arith, length-append (put_be 2 code) reason, length-put_be 2 code) in
    ground (
      arith,
      bytes_frame-eq-frame_header 0x8 body fits,
      write_sent net (bytes_frame 0x8 body) (record c { closed = true }) t,
    )
