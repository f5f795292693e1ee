-- ===== src/Websocket/Limits.antt =====
-- The limit on a message, and the end of readText's loop, whatever arrives.
use docker_control.Prelude.{
  ℕ, zero, suc, ◌%◌, ◌<◌, ◌≤◌, ◌≡◌, refl, ap, not, List, arith, none, some, length, ltb, ◌==◌,
}
use docker_control.Errors.{Result, ok, err}
use docker_control.Bytes.{Stream, read_full, get_be}
use docker_control.Bytes.Takes.{
  TookFrom, Takes, Takes-pure, Takes-fail, Takes-if, Takes-read_full, Takes-bind, Takes-bind_weak,
  Takes-weaken,
}
use docker_control.Websocket.Defs.{
  Network, Conn, Frame, top_bit, byte_at, read_payload, read_sized, read_masked, too_long,
  read_length, read_frame, on_frame, on_read, Outcome, read_text, write_frame,
}
use docker_control.Websocket.Reading.{length-unmask}

Takes-read_length : (max code : ℕ) → Takes 0 (λ _. Unit {0}) (read_length max code)
unfolding read_length
Takes-read_length max code =
    Takes-if 0 (code == 126) _ _
      (λ _.
        Takes-bind_weak 0 (read_full 2) _ (Takes-weaken 2 (Takes-read_full 2))
          (λ s _. Takes-pure (get_be 0 s) tt))
      (λ _.
        Takes-if 0 (code == 127) _ _
          (λ _. Takes-bind_weak 0 (read_full 8) _ (Takes-weaken 8 (Takes-read_full 8)) (λ s _.
            Takes-if 0 (ltb max (get_be 0 s)) _ _ (λ _. Takes-fail 0 too_long)
              (λ _. Takes-pure (get_be 0 s) tt)))
          (λ _. Takes-pure code tt))

Takes-read_payload :
    (max opcode size : ℕ)
    → size ≤ max
    → Takes 0 (λ f. length f.payload ≤ max) (read_payload opcode size)
unfolding read_payload
Takes-read_payload max opcode size h =
    Takes-bind_weak 0 (read_full 4) _ (Takes-weaken 4 (Takes-read_full 4)) (λ mask _.
      Takes-bind_weak 0 (read_full size) _ (Takes-weaken size (Takes-read_full size))
        (λ payload l. Takes-pure _ (omega (arith, length-unmask mask 0 payload))))

Takes-read_sized :
    (max opcode size : ℕ) → Takes 0 (λ f. length f.payload ≤ max) (read_sized max opcode size)
unfolding read_sized
Takes-read_sized max opcode size =
    Takes-if 0 (ltb max size) _ _ (λ _. Takes-fail 0 too_long)
      (λ e. Takes-read_payload max opcode size (ground arith))

Takes-read_masked :
    (max : ℕ) (header : List ℕ) → Takes 0 (λ f. length f.payload ≤ max) (read_masked max header)
unfolding read_masked
Takes-read_masked max header =
    Takes-if 0 (not (top_bit (byte_at header 0))) _ _ (λ _. Takes-fail 0 _)
      (λ _.
        Takes-if 0 (not (top_bit (byte_at header 1))) _ _ (λ _. Takes-fail 0 _)
          (λ _.
            Takes-bind_weak 0 (read_length max (byte_at header 1 % 128)) _
              (Takes-read_length max (byte_at header 1 % 128))
              (λ size _. Takes-read_sized max (byte_at header 0 % 16) size)))

-- A frame takes two bytes at least, and its payload is within the limit.
pub Takes-read_frame : (max : ℕ) → Takes 2 (λ f. length f.payload ≤ max) (read_frame max)
unfolding read_frame
Takes-read_frame max =
    Takes-bind 2 0 (read_full 2) _ (Takes-read_full 2) (λ header _. Takes-read_masked max header)

-- The writes that a read makes do not touch the input.
pub input-write_frame :
    (net : Network) (opcode : ℕ) (payload : List ℕ) (c : Conn)
    → (write_frame net opcode payload c).1.input ≡ c.input
unfolding write_frame
input-write_frame net opcode payload c = ground arith

-- What is known of a message that readText has returned, with the fuel left out or not.
abbrev pub Within : ℕ → Outcome → Type 0
Within max (some (ok p), c) = length p ≤ max
Within max (some (err e), c) = Unit
Within max (none, c) = ⊥

module _ (net : Network) (max : ℕ) where
  on_frame-Within :
      (again : Conn → Outcome) (f : Frame) (c : Conn)
      → length f.payload ≤ max
      → ((c' : Conn) → c'.input ≡ c.input → Within max (again c'))
      → Within max (on_frame net again f c)
  unfolding on_frame
  on_frame-Within again f c h k =
      let w = write_frame net 0xa f.payload c in
      ground (arith, k c refl, k w.1 (input-write_frame net 0xa f.payload c))

  read_text_round :
      (fuel : ℕ) (c : Conn) (r : Result Frame × Stream)
      → ((c' : Conn) → length c'.input.bytes < fuel → Within max (read_text net max fuel c'))
      → length c.input.bytes < suc fuel
      → TookFrom 2 (λ f. length f.payload ≤ max) c.input r
      → Within max (on_read net (read_text net max fuel) r.0 (record c { input = r.1 }))
  read_text_round fuel c (err e, s) ih h t = tt
  read_text_round fuel c (ok f, s) ih h (fits, l) =
      on_frame-Within (read_text net max fuel) f (record c { input = s }) fits
        (λ c' same. ih c' (omega (arith, ap (λ (t : Stream). length t.bytes) same)))

  -- Whatever arrives, a round for each byte of the input and one more are enough for readText to
  -- return a message or an error, and a message that it returns is within the limit.
  pub read_text-Within :
      (fuel : ℕ) (c : Conn) → length c.input.bytes < fuel → Within max (read_text net max fuel c)
  unfolding read_text
  read_text-Within zero c h = absurd (omega arith)
  read_text-Within (suc fuel) c h =
      read_text_round fuel c (read_frame max c.input) (read_text-Within fuel) h
        ((Takes-read_frame max).at c.input)
