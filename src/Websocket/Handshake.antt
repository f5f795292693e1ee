-- ===== src/Websocket/Handshake.antt =====
-- upgradeWebSocket and headerContains of internal/controller/websocket.go.
use docker_control.Prelude.{
  ℕ, ◌+◌, Bool, true, not, ◌||◌, ◌&&◌, List, [], ◌∷◌, ◌++◌, Option, none, some, any, leb, ◌==◌,
  ◌=?◌, if◌then◌else◌, ◌≡◌, refl,
}
use docker_control.Errors.{Error, Result, ok, err, new_error}
use docker_control.Text.{Text, codes, trim_space, split}
use docker_control.Bytes.Base64.{encode_base64}
use docker_control.Websocket.Defs.{Network, Conn, write}

abbrev pub websocket_guid : Text
websocket_guid = codes "258EAFA5-E914-47DA-95CA-C5AB0DC85B11"

-- http.Header: the values of a header, by its canonical name
abbrev pub Header : Type 0
Header = Text → List Text

-- header.Get
abbrev pub first_value : List Text → Text
first_value [] = []
first_value (value ∷ values) = value

abbrev to_lower : ℕ → ℕ
to_lower c = if leb b'A' c && leb c b'Z' then c + 32 else c

-- A byte in front of a folded text: U+017F (long s) and U+212A (the sign of Kelvin), in UTF-8, are the
-- two runes besides the capital letters that fold to letters of ASCII.
abbrev behind_c5 : Text → Text
behind_c5 [] = 0xc5 ∷ []
behind_c5 (d ∷ s) = if d == 0xbf then b's' ∷ s else 0xc5 ∷ d ∷ s

abbrev behind_e2 : Text → Text
behind_e2 [] = 0xe2 ∷ []
behind_e2 (d ∷ []) = 0xe2 ∷ d ∷ []
behind_e2 (d ∷ e ∷ s) = if d == 0x84 && e == 0xaa then b'k' ∷ s else 0xe2 ∷ d ∷ e ∷ s

-- The simple folding of a text, as far as it leads to ASCII
unfoldable pub folded : Text → Text
folded [] = []
folded (c ∷ s) =
    let rest = folded s in
    if c == 0xc5 then behind_c5 rest else if c == 0xe2 then behind_e2 rest else to_lower c ∷ rest

-- strings.EqualFold to a text of ASCII
abbrev pub equal_fold : Text → Text → Bool
equal_fold s t = folded s =? folded t

unfoldable pub header_contains : Header → Text → Text → Bool
header_contains header name wanted =
    any (λ value. any (λ item. equal_fold (trim_space item) wanted) (split value b','))
      (header name)

-- What upgradeWebSocket returns: a failure, with the connection where it has been taken over and
-- closed, or a connection.
pub data Upgrade : Type 0 where
  refused : Error → Upgrade
  dropped : Error → Conn → Upgrade
  upgraded : Conn → Upgrade

-- SHA-1 is a parameter. The answer is shorter than the buffer of the connection, so that it goes out
-- with Flush, in one write.
module _ (net : Network) (sha1 : List ℕ → List ℕ) where
  abbrev pub accept_of : Text → Text
  accept_of key = encode_base64 (sha1 (key ++ websocket_guid))

  abbrev pub switching : Text → Text
  switching key =
      codes "HTTP/1.1 101 Switching Protocols\r\nUpgrade: websocket\r\nConnection: Upgrade\r\n"
      ++ (codes "Sec-WebSocket-Accept: " ++ (accept_of key ++ codes "\r\n\r\n"))

  abbrev pub after_flush : Option Error × Conn → Upgrade
  after_flush (none, c) = upgraded c
  after_flush (some e, c) = dropped e (record c { hung_up = true })

  -- behind the tests of the headers: `none` where the response is no http.Hijacker
  abbrev pub take_over : Text → Option (Result Conn) → Upgrade
  take_over key none =
      refused (new_error (codes "HTTP server does not support websocket hijacking"))
  take_over key (some (err e)) = refused e
  take_over key (some (ok c)) = after_flush (write net (switching key) c)

  unfoldable pub upgrade_websocket : Header → Option (Result Conn) → Upgrade
  unfolding header_contains
  upgrade_websocket header hijacked =
      let key = trim_space (first_value (header (codes "Sec-Websocket-Key"))) in
      if not (header_contains header (codes "Connection") (codes "upgrade"))
        || not (header_contains header (codes "Upgrade") (codes "websocket"))
      then refused (new_error (codes "websocket upgrade required"))
      else if not (first_value (header (codes "Sec-Websocket-Version")) =? codes "13")
      then refused (new_error (codes "websocket version 13 required"))
      else if key =? []
      then refused (new_error (codes "Sec-WebSocket-Key is required"))
      else take_over key hijacked

upgraded_headers :
    header_contains
      (λ name. codes "keep-alive, Upgrade" ∷ [])
      (codes "Connection")
      (codes "upgrade")
    ≡ true
unfolding header_contains folded split trim_space ◌=?◌
upgraded_headers = refl

upgraded_kelvin :
    equal_fold
      (b'W' ∷ b'e' ∷ b'b' ∷ 0xc5 ∷ 0xbf ∷ b'o' ∷ b'c' ∷ 0xe2 ∷ 0x84 ∷ 0xaa ∷ b'E' ∷ b't' ∷ [])
      (codes "websocket")
    ≡ true
unfolding folded ◌=?◌
upgraded_kelvin = refl
