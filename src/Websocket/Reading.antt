-- ===== src/Websocket/Reading.antt =====
-- Frames that arrive: readText on what a client sends.
use docker_control.Prelude.{
  ℕ, zero, suc, ◌+◌, ◌%◌, ◌^◌, ◌<◌, ◌≤◌, ◌≡◌, refl, ap, true, false, List, [], ◌∷◌, ◌++◌, arith,
  length, length-append, take-append_eq, drop-append_eq, get_elem?, ltb, if◌then◌else◌, Bool-cases,
  inl, inr,
}
use mathlib.Core.List.{append_assoc}
use docker_control.Errors.{Error, ok}
use docker_control.Bytes.{AreBytes, put_be, read_full, pure, ◌>>=◌}
use docker_control.Bytes.Xor.{bit_xor_twice}
use docker_control.Bytes.Endian.{length-put_be, get_be-put_be}
use docker_control.Websocket.Defs.{mask_byte, unmask, top_bit, Frame, read_length, read_frame}

-- A stream that begins with `s` gives `s` to a read of its length.
pub read_full-append :
    (n : ℕ) (s rest : List ℕ) (e : Error)
    → length s ≡ n
    → read_full n (record { bytes = s ++ rest; ending = e })
      ≡ (ok s, record { bytes = rest; ending = e })
unfolding read_full
read_full-append n s rest e h =
    rw (take-append_eq n s rest h, drop-append_eq n s rest h) (ground (arith, length-append s rest))

pub length-unmask : (mask : List ℕ) (i : ℕ) (s : List ℕ) → length (unmask mask i s) ≡ length s
unfolding unmask
length-unmask mask i [] = refl
length-unmask mask i (b ∷ s) = ap suc (length-unmask mask (i + 1) s)

mask_byte-lt_256 : (mask : List ℕ) (i : ℕ) → AreBytes mask → mask_byte (get_elem? mask i) < 256
mask_byte-lt_256 [] i h = omega arith
mask_byte-lt_256 (k ∷ mask) zero h = h.0
mask_byte-lt_256 (k ∷ mask) (suc i) h = mask_byte-lt_256 mask i h.1

-- Masking twice with one key changes nothing.
unmask_twice :
    (mask : List ℕ) (i : ℕ) (s : List ℕ)
    → AreBytes mask
    → AreBytes s
    → unmask mask i (unmask mask i s) ≡ s
unfolding unmask
unmask_twice mask i [] h k = refl
unmask_twice mask i (b ∷ s) h (k, ks) =
    rw
      (
        bit_xor_twice b (mask_byte (get_elem? mask (i % 4))) k (mask_byte-lt_256 mask (i % 4) h),
        unmask_twice mask (i + 1) s h ks,
      )
      refl

-- How a client announces the length of a payload (RFC 6455, section 5.2): the second byte of the
-- frame, with the mask bit, and the bytes behind it.
client_code : ℕ → ℕ
client_code size = if ltb size 126 then 128 + size else if ltb size 65536 then 254 else 255

client_extension : ℕ → List ℕ
client_extension size =
    if ltb size 126 then [] else if ltb size 65536 then put_be 2 size else put_be 8 size

-- An unfragmented frame of a client, as the RFC describes it.
pub client_frame : ℕ → List ℕ → List ℕ → List ℕ
client_frame opcode mask payload =
    (128 + opcode)
    ∷ client_code (length payload)
    ∷ (client_extension (length payload) ++ (mask ++ unmask mask 0 payload))

read_length_wide :
    (width size : ℕ) (rest : List ℕ) (e : Error)
    → size < 256 ^ width
    → read_full width (record { bytes = put_be width size ++ rest; ending = e })
      ≡ (ok (put_be width size), record { bytes = rest; ending = e })
read_length_wide width size rest e h =
    read_full-append width (put_be width size) rest e (length-put_be width size)

read_length-client_extension :
    (max size : ℕ) (rest : List ℕ) (e : Error)
    → size ≤ max
    → max < 2 ^ 63
    → read_length max
        (client_code size % 128)
        (record { bytes = client_extension size ++ rest; ending = e })
      ≡ (ok size, record { bytes = rest; ending = e })
unfolding read_length client_code client_extension
read_length-client_extension max size rest e h l = elim (Bool-cases (ltb size 126)) [
  | inl small ↦ rw small (ground arith)
  | inr large ↦ rw large (elim (Bool-cases (ltb size 65536)) [
    | inl short ↦ rw short (
        rw (read_length_wide 2 size rest e (ground arith))
          (rw (get_be-put_be 2 size (ground arith)) refl))
    | inr long ↦ rw long (
        rw (read_length_wide 8 size rest e (omega arith))
          (rw (get_be-put_be 8 size (omega arith)) (ground arith)))
  ])
]

top_bit_opcode : (opcode : ℕ) → opcode < 16 → top_bit (128 + opcode) ≡ true
top_bit_opcode opcode h = ground arith

top_bit-client_code : (size : ℕ) → top_bit (client_code size) ≡ true
unfolding client_code
top_bit-client_code size = ground arith

-- The frame behind its two-byte header.
read_body :
    (max opcode : ℕ) (mask payload rest : List ℕ) (e : Error)
    → opcode < 16
    → length mask ≡ 4
    → AreBytes mask
    → AreBytes payload
    → (do
      m ← read_full 4
      p ← read_full (length payload)
      pure {A = Frame} (record { opcode = (128 + opcode) % 16; payload = unmask m 0 p }))
        (record { bytes = (mask ++ unmask mask 0 payload) ++ rest; ending = e })
      ≡ (ok (record { opcode = opcode; payload = payload }), record { bytes = rest; ending = e })
read_body max opcode mask payload rest e h l m b =
    rw (append_assoc mask (unmask mask 0 payload) rest) (
      rw (read_full-append 4 mask (unmask mask 0 payload ++ rest) e l) (
        rw
          (read_full-append (length payload) (unmask mask 0 payload) rest e
            (length-unmask mask 0 payload))
          (rw (unmask_twice mask 0 payload m b)
            (let r : (128 + opcode) % 16 ≡ opcode = omega arith in rw r refl))))

-- A frame that a client sends is read as its opcode and payload, and nothing behind it is taken, if
-- the payload is within the limit.
pub read_frame-client_frame :
    (max opcode : ℕ) (mask payload rest : List ℕ) (e : Error)
    → opcode < 16
    → length mask ≡ 4
    → AreBytes mask
    → AreBytes payload
    → length payload ≤ max
    → max < 2 ^ 63
    → read_frame max (record { bytes = client_frame opcode mask payload ++ rest; ending = e })
      ≡ (ok (record { opcode = opcode; payload = payload }), record { bytes = rest; ending = e })
unfolding read_frame client_frame
read_frame-client_frame max opcode mask payload rest e h l m b fits big =
    let size = length payload in
    let body = mask ++ unmask mask 0 payload in
    let within : ltb max size ≡ false = ground arith in
    rw
      (read_full-append 2 ((128 + opcode) ∷ client_code size ∷ [])
        ((client_extension size ++ body) ++ rest) e refl)
      (rw (top_bit_opcode opcode h, top_bit-client_code size)
        (rw (append_assoc (client_extension size) body rest) (
          rw (read_length-client_extension max size (body ++ rest) e fits big)
            (rw within (read_body max opcode mask payload rest e h l m b)))))
