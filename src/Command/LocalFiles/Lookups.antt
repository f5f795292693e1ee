-- ===== src/Command/LocalFiles/Lookups.antt =====
-- What ConfigFromEnv of internal/controller/types.go finds for a name that is set.
use docker_control.Prelude.{
  ◌*◌, ◌/◌, ◌%◌, ◌^◌, ◌<◌, ◌≡◌, ◌≢◌, refl, Bool, true, false, List, [], ◌∷◌, arith, some, ltb, ◌=?◌,
  =?_sound, Bool-cases, inl, inr, ℤ, pos, negsuc,
}
use docker_control.Text.{Text, trim_space, parse_int, parse_bool, itoa, itoa_int}
use docker_control.Text.Numerals.Printed.{parse_int-itoa, itoa-not_empty}
use docker_control.EnvFile.{Environment}
use docker_control.Types.Config.Environment.{
  get_env, env_or, env_aliases, env_bool, env_int64, seconds_of,
}
use docker_control.Command.LocalFiles.{bool_text, whole_seconds}

not_empty : (s : Text) → s ≢ [] → s =? [] ≡ false
not_empty s n = elim (Bool-cases (s =? [])) [
  | inl empty ↦ absurd (n (=?_sound s [] empty))
  | inr given ↦ given
]

-- A count that fits into 63 bits, and a duration of whole seconds.
abbrev pub IsCount : ℤ → Type 0
IsCount (pos n) = n < 2 ^ 63
IsCount (negsuc n) = ⊥

abbrev pub IsSeconds : ℤ → Type 0
IsSeconds (pos n) = (n % 1_000_000_000 ≡ 0) × (n < 2 ^ 63)
IsSeconds (negsuc n) = ⊥

module _ (e : Environment) (name value : Text) (found : get_env name e ≡ value) where
  module _ (trimmed : trim_space value ≡ value) where
    pub env_aliases-found :
        (fallback : Text) (names : List Text)
        → value ≢ []
        → env_aliases fallback (name ∷ names) e ≡ value
    unfolding env_aliases
    env_aliases-found fallback names n = rw found (rw trimmed (rw (not_empty value n) refl))

    pub env_or-found : (fallback : Text) → value ≢ [] → env_or name fallback e ≡ value
    unfolding env_or
    env_or-found fallback n = rw found (rw trimmed (rw (not_empty value n) refl))

    env_int64-found :
        (fallback n : ℤ) → value ≢ [] → parse_int value ≡ some n → env_int64 name fallback e ≡ n
    unfolding env_int64
    env_int64-found fallback n k read =
        rw found (rw trimmed (rw (not_empty value k) (rw read refl)))

  pub env_bool-found : (fallback b : Bool) → value ≡ bool_text b → env_bool name fallback e ≡ b
  unfolding env_bool parse_bool trim_space ◌=?◌
  env_bool-found fallback true is = rw found (rw is refl)
  env_bool-found fallback false is = rw found (rw is refl)

pub count_read :
    (e : Environment) (name : Text) (fallback n : ℤ)
    → get_env name e ≡ itoa_int n
    → trim_space (itoa_int n) ≡ itoa_int n
    → IsCount n
    → env_int64 name fallback e ≡ n
unfolding itoa_int
count_read e name fallback (pos n) found trimmed h =
    env_int64-found e name (itoa n) found trimmed fallback (pos n) (itoa-not_empty n)
      (parse_int-itoa n h)
count_read e name fallback (negsuc n) found trimmed h = absurd h

pub seconds_read :
    (e : Environment) (name : Text) (fallback d : ℤ)
    → get_env name e ≡ itoa_int (whole_seconds d)
    → trim_space (itoa_int (whole_seconds d)) ≡ itoa_int (whole_seconds d)
    → IsSeconds d
    → seconds_of (env_int64 name fallback e) ≡ d
unfolding whole_seconds seconds_of
seconds_read e name fallback (pos n) found trimmed (whole, h) =
    let read = count_read e name fallback (pos (n / 1_000_000_000)) found trimmed (omega arith) in
    let same : n / 1_000_000_000 * 1_000_000_000 % 2 ^ 64 ≡ n = omega arith in
    let small : ltb n (2 ^ 63) ≡ true = ground arith in rw read (rw same (rw small refl))
seconds_read e name fallback (negsuc n) found trimmed h = absurd h
