-- ===== src/Websocket/Progress.antt =====
-- What readText and writeFrame leave of a connection's input, and that they do not close it.
use docker_control.Prelude.{
  ℕ, zero, suc, ◌+◌, ◌≤◌, ◌≡◌, refl, ap, ◌∙◌, List, arith, none, some, length,
}
use docker_control.Errors.{Result, ok, err}
use docker_control.Bytes.{Stream}
use docker_control.Bytes.Takes.{TookFrom}
use docker_control.Websocket.Defs.{
  Network, Conn, Frame, write_frame, read_frame, on_frame, on_read, Outcome, read_text,
}
use docker_control.Websocket.Limits.{Takes-read_frame, input-write_frame}

-- `c'` comes after `c`: it is as closed as `c`, and no input has been added.
pub record IsAfter (c c' : Conn) : Type 0 where
  pub closed : c'.closed ≡ c.closed
  pub input : length c'.input.bytes ≤ length c.input.bytes

pub IsAfter-refl : (c : Conn) → IsAfter c c
IsAfter-refl c = record { closed = refl; input = omega arith }

pub IsAfter-trans : {c d e : Conn} → IsAfter c d → IsAfter d e → IsAfter c e
IsAfter-trans p q = record { closed = q.closed ∙ p.closed; input = omega (arith, p.input, q.input) }

closed-write_frame :
    (net : Network) (opcode : ℕ) (payload : List ℕ) (c : Conn)
    → (write_frame net opcode payload c).1.closed ≡ c.closed
unfolding write_frame
closed-write_frame net opcode payload c = ground arith

pub write_frame-IsAfter :
    (net : Network) (opcode : ℕ) (payload : List ℕ) (c : Conn)
    → IsAfter c (write_frame net opcode payload c).1
write_frame-IsAfter net opcode payload c =
    let same = input-write_frame net opcode payload c in
    record {
      closed = closed-write_frame net opcode payload c;
      input = omega (arith, ap (λ (s : Stream). length s.bytes) same);
    }

-- A text has taken two bytes at least.
abbrev pub Advanced : Conn → Outcome → Type 0
Advanced c (some (ok p), c') = IsAfter c c' × (length c'.input.bytes + 2 ≤ length c.input.bytes)
Advanced c (some (err e), c') = c'.closed ≡ c.closed
Advanced c (none, c') = c'.closed ≡ c.closed

pub advance : {c d : Conn} (o : Outcome) → IsAfter c d → Advanced d o → Advanced c o
advance (some (ok p), c') l (h, k) = (IsAfter-trans l h, omega (arith, l.input))
advance (some (err e), c') l h = h ∙ l.closed
advance (none, c') l h = h ∙ l.closed

module _ (net : Network) (max : ℕ) where
  on_frame-Advanced :
      (again : Conn → Outcome) (f : Frame) (c d : Conn)
      → IsAfter c d
      → (length d.input.bytes + 2 ≤ length c.input.bytes)
      → ((c' : Conn) → Advanced c' (again c'))
      → Advanced c (on_frame net again f d)
  unfolding on_frame
  on_frame-Advanced again f c d h l k =
      let w = write_frame net 0xa f.payload d in
      let later = write_frame-IsAfter net 0xa f.payload d in
      ground (
        arith,
        advance (again d) h (k d),
        advance (again w.1) (IsAfter-trans h later) (k w.1),
        h.closed,
        later.closed,
      )

  round_Advanced :
      (again : Conn → Outcome) (c : Conn) (r : Result Frame × Stream)
      → ((c' : Conn) → Advanced c' (again c'))
      → TookFrom 2 (λ f. length f.payload ≤ max) c.input r
      → Advanced c (on_read net again r.0 (record c { input = r.1 }))
  round_Advanced again c (err e, s) k t = refl
  round_Advanced again c (ok f, s) k (fits, t) =
      on_frame-Advanced again f c (record c { input = s })
        (record { closed = refl; input = omega arith }) (omega arith) k

  -- Whatever arrives, readText does not close the connection, and a text takes two bytes of the input.
  pub read_text-Advanced : (fuel : ℕ) (c : Conn) → Advanced c (read_text net max fuel c)
  unfolding read_text
  read_text-Advanced zero c = refl
  read_text-Advanced (suc fuel) c =
      round_Advanced (read_text net max fuel) c (read_frame max c.input) (read_text-Advanced fuel)
        ((Takes-read_frame max).at c.input)
