-- ===== src/Text/Decimal.antt =====
-- strconv.Itoa on the numbers that are not negative.
use docker_control.Prelude.{
  ℕ, zero, suc, ◌+◌, ◌/◌, ◌%◌, ◌≡◌, refl, List, [], ◌∷◌, ltb, if◌then◌else◌, ℤ, pos, negsuc,
}

-- The digits of `n` in front of `acc`; the fuel bounds their number.
unfoldable pub itoa_onto : ℕ → ℕ → List ℕ → List ℕ
itoa_onto zero n acc = acc
itoa_onto (suc fuel) n acc =
    let more = itoa_onto fuel (n / 10) ((b'0' + n % 10) ∷ acc) in
    if ltb n 10 then (b'0' + n) ∷ acc else more

-- `n + 1` rounds are more than there are digits.
unfoldable pub itoa : ℕ → List ℕ
unfolding itoa_onto
itoa n = itoa_onto (suc n) n []

itoa_port : itoa 16544 ≡ b'1' ∷ b'6' ∷ b'5' ∷ b'4' ∷ b'4' ∷ []
unfolding itoa
itoa_port = refl

-- %d on an integer
unfoldable pub itoa_int : ℤ → List ℕ
unfolding itoa
itoa_int (pos n) = itoa n
itoa_int (negsuc n) = b'-' ∷ itoa (suc n)
