-- ===== src/Bytes.antt =====
-- Bytes and big-endian numbers, as packages encoding/binary and encoding/hex have them, and reads
-- from a stream.
pub mod Xor
pub mod Endian
pub mod Takes
pub mod Hex
pub mod Base64
use docker_control.Prelude.{
  ℕ, zero, suc, ◌+◌, ◌*◌, ◌/◌, ◌%◌, ◌<◌, ◌≤◌, ◌-◌, List, [], ◌∷◌, ◌++◌, All, length, take, drop,
  ltb, leb, ◌==◌, if◌then◌else◌,
}
use docker_control.Errors.{Kind, Error, Result, ok, err}
use docker_control.Text.{codes}

-- Every element is a byte.
abbrev pub AreBytes : List ℕ → Type 0
AreBytes s = All (λ c. c < 256) s

-- The last `width` bytes of `n`, the highest first (binary.BigEndian.PutUint16 and PutUint64).
unfoldable pub put_be : ℕ → ℕ → List ℕ
put_be zero n = []
put_be (suc width) n = put_be width (n / 256) ++ n % 256 ∷ []

-- The number that the bytes stand for, from `acc` on (binary.BigEndian.Uint16, Uint32 and Uint64).
unfoldable pub get_be : ℕ → List ℕ → ℕ
get_be acc [] = acc
get_be acc (b ∷ s) = get_be (acc * 256 + b) s

-- A stream: what it still holds, and the error that a read behind it meets.
pub record Stream : Type 0 where
  pub bytes : List ℕ
  pub ending : Error

-- io.ReadFull into a buffer of `n` bytes. At the end of the input the error is io.EOF if nothing was
-- read, and io.ErrUnexpectedEOF if something was; any other error is passed on.
abbrev pub cut_short : Stream → Error
cut_short s = elim s.ending.kind [
  | Kind.end_of_file ↦ elim s.bytes [
    | [] ↦ s.ending
    | b ∷ r ↦ record { kind = Kind.unexpected_end; text = codes "unexpected EOF" }
  ]
  | _ ↦ s.ending
]

-- A computation that reads from a stream and may fail.
abbrev pub Reader : Type 0 → Type 0
Reader A = Stream → Result A × Stream

abbrev pub pure : {A : Type 0} → A → Reader A
pure a s = (ok a, s)

abbrev pub fail : {A : Type 0} → Error → Reader A
fail e s = (err e, s)

abbrev pub continue : {A B : Type 0} → (A → Reader B) → Result A × Stream → Result B × Stream
continue f (ok a, s) = f a s
continue f (err e, s) = (err e, s)

infixl 5 ◌>>=◌
abbrev pub ◌>>=◌ : {A B : Type 0} → Reader A → (A → Reader B) → Reader B
◌>>=◌ m f s = continue f (m s)

unfoldable pub read_full : ℕ → Reader (List ℕ)
read_full n s =
    if leb n (length s.bytes)
    then (ok (take n s.bytes), record s { bytes = drop n s.bytes })
    else (err (cut_short s), record s { bytes = [] })
