-- ===== src/Types/Keys.antt =====
-- The tests of internal/controller/types.go on keys, images, identifiers and names, and secureEqual.
-- Go's loops run over code points. A code point outside ASCII, and the replacement character of
-- a broken sequence, fail these tests as each of their bytes does, so the loops run over bytes.
pub mod Drawn
use docker_control.Prelude.{
  ℕ, Bool, false, ◌&&◌, ◌||◌, not, leb, ltb, ◌==◌, ◌=?◌, if◌then◌else◌, length, all, [], ◌∷◌,
}
use docker_control.Text.{Text, trim_space, contains_any}

abbrev pub is_lower : ℕ → Bool
is_lower c = leb b'a' c && leb c b'z'

abbrev pub is_digit : ℕ → Bool
is_digit c = leb b'0' c && leb c b'9'

abbrev pub is_key_byte : ℕ → Bool
is_key_byte c = is_lower c || is_digit c || c == b'-' || c == b'_'

abbrev pub is_hex_byte : ℕ → Bool
is_hex_byte c = leb b'a' c && leb c b'f' || is_digit c

abbrev pub is_prefix_byte : ℕ → Bool
is_prefix_byte c = is_lower c || is_digit c || c == b'-' || c == b'_' || c == b'.'

-- "\r\n\x00"
abbrev pub line_controls : Text
line_controls = b'\r' ∷ b'\n' ∷ 0 ∷ []

unfoldable pub valid_key : Text → Bool
valid_key value =
    if ltb (length value) 8 || ltb 64 (length value) then false else all is_key_byte value

unfoldable pub valid_image : Text → Bool
valid_image value =
    let value' = trim_space value in
    not (value' =? []) && leb (length value') 255 && not (contains_any value' line_controls)

unfoldable pub valid_snapshot_id : Text → Bool
valid_snapshot_id value = if not (length value == 12) then false else all is_hex_byte value

unfoldable pub valid_snapshot_name : Text → Bool
valid_snapshot_name value =
    let value' = trim_space value in
    leb (length value') 64 && not (contains_any value' line_controls)

unfoldable pub valid_name_prefix : Text → Bool
valid_name_prefix value =
    if value =? [] || ltb 40 (length value) then false else all is_prefix_byte value

-- subtle.ConstantTimeCompare tells whether the bytes are equal.
unfoldable pub secure_equal : Text → Text → Bool
secure_equal left right = if not (length left == length right) then false else left =? right
