-- ===== src/Types/Keys/Drawn.antt =====
-- The identifier that CreateSnapshot of internal/controller/docker.go draws, and validSnapshotID.
use docker_control.Prelude.{
  ℕ, ◌*◌, ◌/◌, ◌%◌, ◌<◌, true, List, [], ◌∷◌, ◌≡◌, refl, arith, all, length,
}
use docker_control.Bytes.{AreBytes}
use docker_control.Bytes.Hex.{hex_digit, encode_hex}
use docker_control.Types.Keys.{is_hex_byte, valid_snapshot_id}

hex_digit-is_hex_byte : (n : ℕ) → n < 16 → is_hex_byte (hex_digit n) ≡ true
hex_digit-is_hex_byte n h = ground arith

all-encode_hex : (bytes : List ℕ) → AreBytes bytes → all is_hex_byte (encode_hex bytes) ≡ true
unfolding encode_hex
all-encode_hex [] h = refl
all-encode_hex (b ∷ bytes) (h, hs) =
    rw (hex_digit-is_hex_byte (b / 16) (omega arith), hex_digit-is_hex_byte (b % 16) (omega arith))
      (all-encode_hex bytes hs)

length-encode_hex : (bytes : List ℕ) → length (encode_hex bytes) ≡ 2 * length bytes
unfolding encode_hex
length-encode_hex [] = refl
length-encode_hex (b ∷ bytes) = omega (arith, length-encode_hex bytes)

-- Six random bytes in hexadecimal are a valid snapshot identifier, so that the search behind the
-- commit does not refuse the identifier that CreateSnapshot has drawn.
valid_snapshot_id-encode_hex :
    (bytes : List ℕ)
    → AreBytes bytes
    → length bytes ≡ 6
    → valid_snapshot_id (encode_hex bytes) ≡ true
unfolding valid_snapshot_id
valid_snapshot_id-encode_hex bytes h l =
    ground (arith, length-encode_hex bytes, all-encode_hex bytes h)
