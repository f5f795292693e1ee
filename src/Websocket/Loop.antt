-- ===== src/Websocket/Loop.antt =====
-- The loop of readText: control frames in front of a text, its limit and its end.
use docker_control.Prelude.{
  ℕ, suc, ◌^◌, ◌<◌, ◌≤◌, ◌≡◌, refl, Bool, false, List, [], ◌∷◌, ◌++◌, arith, none, some, length,
  All, Option,
}
use mathlib.Core.List.{append_assoc, append-nil}
use docker_control.Errors.{Error, ok}
use docker_control.Bytes.{AreBytes}
use docker_control.Websocket.Defs.{
  Network, Conn, read_text, write, write_frame, write_both, frame_header,
}
use docker_control.Websocket.Reading.{client_frame, read_frame-client_frame}

-- What a client sends with a mask.
pub record Masked : Type 0 where
  pub mask : List ℕ
  pub payload : List ℕ

pub record IsSendable (max : ℕ) (m : Masked) : Type 0 where
  pub four : length m.mask ≡ 4
  pub mask_bytes : AreBytes m.mask
  pub payload_bytes : AreBytes m.payload
  pub fits : length m.payload ≤ max

pub data Control : Type 0 where
  ping pong : Masked → Control

abbrev masked : Control → Masked
masked (ping m) = m
masked (pong m) = m

abbrev code_of : Control → ℕ
code_of (ping m) = 0x9
code_of (pong m) = 0xa

-- The controls on the wire, with what follows them.
pub wire : List Control → List ℕ → List ℕ
wire [] rest = rest
wire (c ∷ cs) rest = client_frame (code_of c) (masked c).mask (masked c).payload ++ wire cs rest

-- The pongs that they ask for.
pub answers : List Control → List ℕ
answers [] = []
answers (ping m ∷ cs) = (frame_header 0xa (length m.payload) ++ m.payload) ++ answers cs
answers (pong m ∷ cs) = answers cs

-- The network takes whatever is written.
abbrev pub TakesAll : Network → Type 0
TakesAll net = (before s : List ℕ) → net before s ≡ none

pub write_sent :
    (net : Network) (s : List ℕ) (c : Conn)
    → TakesAll net
    → write net s c ≡ (none, record c { output = c.output ++ s })
unfolding write
write_sent net s c t = ground (arith, t c.output s)

write_both_sent :
    (net : Network) (s u : List ℕ) (c : Conn)
    → TakesAll net
    → write_both net s u c ≡ (none, record c { output = c.output ++ (s ++ u) })
unfolding write_both
write_both_sent net s u c t = ground (
  arith,
  write_sent net s c t,
  write_sent net u (record c { output = c.output ++ s }) t,
  append_assoc c.output s u,
)

pub write_frame_sent :
    (net : Network) (opcode : ℕ) (payload : List ℕ) (c : Conn)
    → TakesAll net
    → c.closed ≡ false
    → write_frame net opcode payload c
      ≡ (none, record c { output = c.output ++ (frame_header opcode (length payload) ++ payload) })
unfolding write_frame
write_frame_sent net opcode payload c t open' =
    let h = frame_header opcode (length payload) in simp (open', write_both_sent net h payload c t)

module _ (net : Network) (max : ℕ) (takes : TakesAll net) (big : max < 2 ^ 63) (e : Error) where
  -- Behind any pings and pongs the next text is returned whole, each ping has been answered by a
  -- pong with its payload, in order, and what follows the text is not touched.
  pub read_text-wire :
      (controls : List Control) (text : Masked) (rest output : List ℕ) (hung : Bool)
      (until : Option ℕ)
      → All (λ c. IsSendable max (masked c)) controls
      → IsSendable max text
      → read_text net max (suc (length controls)) (record {
        input = record {
          bytes = wire controls (client_frame 0x1 text.mask text.payload ++ rest);
          ending = e;
        };
        output = output;
        closed = false;
        hung_up = hung;
        read_deadline = until;
      })
        ≡ (
          some (ok text.payload),
          record {
            input = record { bytes = rest; ending = e };
            output = output ++ answers controls;
            closed = false;
            hung_up = hung;
            read_deadline = until;
          },
        )
  unfolding read_text wire answers
  read_text-wire [] text rest output hung until all_ok t =
      rw
        (read_frame-client_frame max 0x1 text.mask text.payload rest e (omega arith) t.four
          t.mask_bytes t.payload_bytes t.fits big)
        (rw (append-nil output) refl)
  read_text-wire (ping m ∷ cs) text rest output hung until (k, ks) t =
      rw
        (read_frame-client_frame max 0x9 m.mask m.payload
          (wire cs (client_frame 0x1 text.mask text.payload ++ rest)) e (omega arith) k.four
          k.mask_bytes k.payload_bytes k.fits big)
        (rw
          (write_frame_sent net 0xa m.payload
            (record {
              input = record {
                bytes = wire cs (client_frame 0x1 text.mask text.payload ++ rest);
                ending = e;
              };
              output = output;
              closed = false;
              hung_up = hung;
              read_deadline = until;
            })
            takes refl)
          (rw
            (read_text-wire cs text rest
              (output ++ (frame_header 0xa (length m.payload) ++ m.payload)) hung until ks t)
            (rw
              (append_assoc output (frame_header 0xa (length m.payload) ++ m.payload) (answers cs))
              refl)))
  read_text-wire (pong m ∷ cs) text rest output hung until (k, ks) t =
      rw
        (read_frame-client_frame max 0xa m.mask m.payload
          (wire cs (client_frame 0x1 text.mask text.payload ++ rest)) e (omega arith) k.four
          k.mask_bytes k.payload_bytes k.fits big)
        (read_text-wire cs text rest output hung until ks t)
