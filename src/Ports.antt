-- ===== src/Ports.antt =====
-- ListenWithFallback of internal/controller/runtime.go behind the parsing of its address.
pub mod First
pub mod Address
use docker_control.Prelude.{
  ℕ, zero, suc, ◌+◌, Bool, true, false, List, [], ◌∷◌, ◌++◌, Option, none, some, ltb, ◌==◌,
  if◌then◌else◌,
}
use docker_control.Errors.{Kind, Error, Result, ok, err, wrap_behind, new_error}
use docker_control.Text.{Text, codes, contains_byte, itoa}

-- isPortUnavailable: the errors of that kind are those four of the system.
abbrev pub is_port_unavailable : Error → Bool
is_port_unavailable e = elim e.kind [ Kind.port_unavailable ↦ true | _ ↦ false ]

-- net.JoinHostPort
unfoldable pub join_host_port : Text → Text → Text
join_host_port host port =
    if contains_byte host b':' then b'[' ∷ (host ++ (codes "]:" ++ port)) else host ++ (b':' ∷ port)

abbrev pub candidate : Text → ℕ → Text
candidate host port = join_host_port host (itoa port)

-- `lastError` in the last message; %w writes a nil error so.
abbrev pub none_free : Text → ℕ → Option Error → Error
none_free address fallbacks none = new_error (
    codes "no free port in "
    ++ (address ++ (codes " plus " ++ (itoa fallbacks ++ codes " fallbacks: %!w(<nil>)"))))
none_free address fallbacks (some e) =
    wrap_behind
      (codes "no free port in "
        ++ (address ++ (codes " plus " ++ (itoa fallbacks ++ codes " fallbacks: "))))
      e

-- `listen` is net.Listen("tcp", …), at the moment of each call.
module _ {L : Type 0} (listen : Text → Result L) (address host : Text) (fallbacks : ℕ) where
  abbrev pub after_listen : (Option Error → Result L) → Result L → Result L
  after_listen again (ok l) = ok l
  after_listen again (err e) = if is_port_unavailable e then again (some e) else err e

  -- The loop, with the rounds that are left, the next port and `lastError`
  unfoldable pub search_port : ℕ → ℕ → Option Error → Result L
  search_port zero port last = err (none_free address fallbacks last)
  search_port (suc rounds) port last =
      if ltb 65535 port
      then err (none_free address fallbacks last)
      else after_listen (search_port rounds (port + 1)) (listen (candidate host port))

  -- Behind the parsing of the address; `fallbacks` is not negative (Config.Validate).
  unfoldable pub listen_with_fallback : ℕ → Result L
  unfolding search_port
  listen_with_fallback port =
      if port == 0 then listen address else search_port (suc fallbacks) port none
