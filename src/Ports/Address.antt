-- ===== src/Ports/Address.antt =====
-- WithPort, EndpointFromListener and the parsing in ListenWithFallback of
-- internal/controller/runtime.go, over net.SplitHostPort.
use docker_control.Prelude.{
  ℕ, not, ◌||◌, [], ◌∷◌, ◌++◌, Option, none, some, leb, ◌==◌, ◌=?◌, if◌then◌else◌, ◌≡◌, refl, ℤ,
  pos, negsuc, at_most, is_negative,
}
use docker_control.Errors.{Error, Result, ok, err, new_error, wrap_behind, ◌>>=◌}
use docker_control.Text.{Text, codes, contains_byte, itoa, itoa_int, parse_int}
use docker_control.EnvFile.{cut_at}
use docker_control.Ports.{join_host_port, listen_with_fallback}

-- net.AddrError
abbrev pub addr_error : Text → Text → Error
addr_error address why = new_error (codes "address " ++ (address ++ (codes ": " ++ why)))

-- At the last separator.
unfoldable pub cut_last : ℕ → Text → Option (Text × Text)
cut_last sep [] = none
cut_last sep (c ∷ s) = elim (cut_last sep s) [
  | some (before, behind) ↦ some (c ∷ before, behind)
  | none ↦ if c == sep then some ([], s) else none
]

abbrev missing_port : Text → Error
missing_port address = addr_error address (codes "missing port in address")

abbrev too_many_colons : Text → Error
too_many_colons address = addr_error address (codes "too many colons in address")

-- Both tests for brackets that have no place, and the host and the port
abbrev no_brackets : Text → Text → Text → Text × Text → Result (Text × Text)
no_brackets address from_start from_end parts =
    if contains_byte from_start b'['
    then err (addr_error address (codes "unexpected '[' in address"))
    else if contains_byte from_end b']'
    then err (addr_error address (codes "unexpected ']' in address"))
    else ok parts

-- `rest` is what stands behind the first bracket.
abbrev behind_bracket : Text → Text → Text → Text → Result (Text × Text)
behind_bracket address rest host [] = err (missing_port address)
behind_bracket address rest host (c ∷ port) =
    if not (c == b':')
    then err (missing_port address)
    else if contains_byte port b':'
    then err (too_many_colons address)
    else no_brackets address rest (c ∷ port) (host, port)

abbrev bracketed : Text → Text → Option (Text × Text) → Result (Text × Text)
bracketed address rest none = err (addr_error address (codes "missing ']' in address"))
bracketed address rest (some (host, behind)) = behind_bracket address rest host behind

abbrev plain : Text → Text × Text → Result (Text × Text)
plain address (host, port) =
    if contains_byte host b':'
    then err (too_many_colons address)
    else no_brackets address address address (host, port)

abbrev with_colon : Text → Option (Text × Text) → Result (Text × Text)
with_colon address none = err (missing_port address)
with_colon [] (some parts) = plain [] parts
with_colon (c ∷ s) (some parts) =
    if c == b'[' then bracketed (c ∷ s) s (cut_at b']' s) else plain (c ∷ s) parts

-- net.SplitHostPort
unfoldable pub split_host_port : Text → Result (Text × Text)
unfolding cut_last
split_host_port address = with_colon address (cut_last b':' address)

abbrev joined : ℤ → Text × Text → Result Text
joined port (host, old) =
    if is_negative port || not (at_most port 65535)
    then err (new_error (codes "port must be between 0 and 65535"))
    else ok (join_host_port host (itoa_int port))

unfoldable pub with_port : Text → ℤ → Result Text
unfolding split_host_port
with_port address port = do parts ← split_host_port address; joined port parts

-- strconv.Atoi, and the range
abbrev valid_port : Option ℤ → Option ℕ
valid_port none = none
valid_port (some (negsuc n)) = none
valid_port (some (pos n)) = if leb n 65535 then some n else none

-- `%q` of the address and of the port is left out of the messages.
module _ {L : Type 0} (listen : Text → Result L) (address : Text) (fallbacks : ℕ) where
  abbrev listen_at : Text → Option ℕ → Result L
  listen_at host none = err (new_error (codes "invalid listen port "))
  listen_at host (some port) = listen_with_fallback listen address host fallbacks port

  abbrev listen_parts : Result (Text × Text) → Result L
  listen_parts (err e) = err (wrap_behind (codes "invalid listen address: ") e)
  listen_parts (ok (host, port)) = listen_at host (valid_port (parse_int port))

  -- ListenWithFallback(address, fallbackPorts)
  unfoldable pub listen_on : Result L
  unfolding split_host_port
  listen_on = listen_parts (split_host_port address)

-- A listener's address: address.IP.String() and address.Port
pub record TcpAddress : Type 0 where
  pub ip : Text
  pub port : ℕ

unfoldable pub endpoint_from_listener : TcpAddress → Text
endpoint_from_listener a =
    let any_host = a.ip =? [] || a.ip =? codes "0.0.0.0" || a.ip =? codes "::" in
    codes "ws://" ++ join_host_port (if any_host then codes "127.0.0.1" else a.ip) (itoa a.port)

ports :
    (with_port (codes ":16544") (pos 80) ≡ ok (codes ":80"))
    × (with_port (codes "[::1]:1") (pos 80) ≡ ok (codes "[::1]:80"))
    × (split_host_port (codes "::1:80") ≡ err (too_many_colons (codes "::1:80")))
    × (split_host_port (codes "host") ≡ err (missing_port (codes "host")))
    × (endpoint_from_listener (record { ip = codes "::"; port = 5 }) ≡ codes "ws://127.0.0.1:5")
unfolding with_port split_host_port cut_at contains_byte join_host_port itoa itoa_int
    endpoint_from_listener ◌=?◌
ports = (refl, refl, refl, refl, refl)
