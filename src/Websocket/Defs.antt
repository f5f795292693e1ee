-- ===== src/Websocket/Defs.antt =====
-- websocketConn: readText, writeFrame, close and bytesFrame.add.
use Prim.Native.Nat.{bit_xor}
use docker_control.Prelude.{
  ℕ, zero, suc, ◌+◌, ◌/◌, ◌%◌, Bool, true, not, List, [], ◌∷◌, ◌++◌, Option, none, some, length,
  get_elem?, ltb, leb, ◌==◌, if◌then◌else◌,
}
use docker_control.Errors.{Kind, Error, Result, ok, err, new_error}
use docker_control.Text.{Text, codes, itoa}
use docker_control.Bytes.{put_be, get_be, Stream, read_full, Reader, pure, fail, ◌>>=◌}

-- What the network does to a write, given the bytes that went out before: it takes the bytes, or
-- it fails. The bytes of a write that fails are not recorded.
abbrev pub Network : Type 0
Network = List ℕ → List ℕ → Option Error

pub record Conn : Type 0 where
  pub input : Stream
  pub output : List ℕ
  pub closed : Bool
  pub hung_up : Bool
  -- the time at which a read fails, in nanoseconds
  pub read_deadline : Option ℕ

abbrev pub net_closed : Error
net_closed = record { kind = Kind.closed; text = codes "use of closed network connection" }

abbrev pub eof : Error
eof = record { kind = Kind.end_of_file; text = codes "EOF" }

-- `header[0]&0x80 != 0`, `0x80 | opcode` on a byte
abbrev pub top_bit : ℕ → Bool
top_bit b = b / 128 % 2 == 1

abbrev pub set_top : ℕ → ℕ
set_top b = if top_bit b then b else b + 128

-- ws.conn.Write
unfoldable pub write : Network → List ℕ → Conn → Option Error × Conn
write net s c = elim (net c.output s) [
  | none ↦ (none, record c { output = c.output ++ s })
  | some e ↦ (some e, c)
]

abbrev pub frame_header : ℕ → ℕ → List ℕ
frame_header opcode size =
    if ltb size 126
    then set_top opcode ∷ size ∷ []
    else if leb size 65535
    then set_top opcode ∷ 126 ∷ put_be 2 size
    else set_top opcode ∷ 127 ∷ put_be 8 size

-- The second write is made only if the first one succeeds.
unfoldable pub write_both : Network → List ℕ → List ℕ → Conn → Option Error × Conn
write_both net s t c =
    let (failed, c') = write net s c in
    elim failed [ some e ↦ (some e, c') | none ↦ write net t c' ]

-- `none` is success.
unfoldable pub write_frame : Network → ℕ → List ℕ → Conn → Option Error × Conn
unfolding write write_both
write_frame net opcode payload c =
    if c.closed
    then (some net_closed, c)
    else write_both net (frame_header opcode (length payload)) payload c

-- bytesFrame.add on an empty frame; a length byte keeps its low eight bits.
unfoldable pub bytes_frame : ℕ → List ℕ → List ℕ
bytes_frame opcode payload =
    if ltb (length payload) 126
    then set_top opcode ∷ length payload % 256 ∷ payload
    else set_top opcode ∷ 126 ∷ (length payload / 256 % 256) ∷ (length payload % 256) ∷ payload

-- close(code, reason): only the first call sends the frame and hangs up.
unfoldable pub close : Network → ℕ → Text → Conn → Conn
unfolding write bytes_frame
close net code reason c =
    if c.closed
    then c
    else let marked = record c { closed = true } in
      let (_, sent) = write net (bytes_frame 0x8 (put_be 2 code ++ reason)) marked in
      record sent { hung_up = true }

abbrev pub mask_byte : Option ℕ → ℕ
mask_byte none = 0
mask_byte (some k) = k

-- `payload[index] ^= mask[index%4]`, from the index `i` on
unfoldable pub unmask : List ℕ → ℕ → List ℕ → List ℕ
unmask mask i [] = []
unmask mask i (b ∷ s) = bit_xor b (mask_byte (get_elem? mask (i % 4))) ∷ unmask mask (i + 1) s

pub record Frame : Type 0 where
  pub opcode : ℕ
  pub payload : List ℕ

abbrev pub too_long : Error
too_long = new_error (codes "websocket frame exceeds limit")

abbrev pub byte_at : List ℕ → ℕ → ℕ
byte_at s i = mask_byte (get_elem? s i)

-- The length that the second byte announces, and its limit (the switch of readText).
unfoldable pub read_length : ℕ → ℕ → Reader ℕ
read_length max code =
    if code == 126
    then (do s ← read_full 2; pure (get_be 0 s))
    else if code == 127
    then (do s ← read_full 8; if ltb max (get_be 0 s) then fail too_long else pure (get_be 0 s))
    else pure code

-- The mask key and the payload, behind the length.
unfoldable pub read_payload : ℕ → ℕ → Reader Frame
read_payload opcode size = do
  mask ← read_full 4
  payload ← read_full size
  pure (record { opcode = opcode; payload = unmask mask 0 payload })

unfoldable pub read_sized : ℕ → ℕ → ℕ → Reader Frame
read_sized max opcode size = if ltb max size then fail too_long else read_payload opcode size

unfoldable pub read_masked : ℕ → List ℕ → Reader Frame
read_masked max header =
    if not (top_bit (byte_at header 0))
    then fail (new_error (codes "fragmented websocket frames are not supported"))
    else if not (top_bit (byte_at header 1))
    then fail (new_error (codes "client websocket frames must be masked"))
    else do
      size ← read_length max (byte_at header 1 % 128)
      read_sized max (byte_at header 0 % 16) size

-- One frame: the body of readText's loop, up to the switch on the opcode.
unfoldable pub read_frame : ℕ → Reader Frame
unfolding read_length read_masked read_sized read_payload
read_frame max = do header ← read_full 2; read_masked max header

-- `none` as a result says that the fuel ran out.
abbrev pub Outcome : Type 0
Outcome = Option (Result (List ℕ)) × Conn

-- After a ping has been answered, or not.
abbrev pub answered : (Conn → Outcome) → Option Error × Conn → Outcome
answered again (none, c) = again c
answered again (some e, c) = (some (err e), c)

-- The switch on the opcode; `again` is the next round of the loop.
unfoldable pub on_frame : Network → (Conn → Outcome) → Frame → Conn → Outcome
on_frame net again frame c =
    if frame.opcode == 0x1
    then (some (ok frame.payload), c)
    else if frame.opcode == 0x8
    then (some (err eof), c)
    else if frame.opcode == 0x9
    then answered again (write_frame net 0xa frame.payload c)
    else if frame.opcode == 0xa
    then again c
    else (some (err (new_error (codes "unsupported websocket opcode " ++ itoa frame.opcode))), c)

abbrev pub on_read : Network → (Conn → Outcome) → Result Frame → Conn → Outcome
on_read net again (err e) c = (some (err e), c)
on_read net again (ok frame) c = on_frame net again frame c

-- readText(maxPayload), with fuel for the rounds of its loop
unfoldable pub read_text : Network → ℕ → ℕ → Conn → Outcome
unfolding on_frame
read_text net max zero c = (none, c)
read_text net max (suc fuel) c =
    let (r, s) = read_frame max c.input in
    on_read net (read_text net max fuel) r (record c { input = s })
