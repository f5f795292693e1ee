-- ===== src/Text/Numerals/Printed.antt =====
-- A number that strconv.Itoa has printed is read back by strconv.ParseInt.
use docker_control.Prelude.{
  ℕ, zero, suc, ◌+◌, ◌-◌, ◌*◌, ◌/◌, ◌%◌, ◌^◌, ◌<◌, ◌≡◌, ◌≢◌, refl, sym, ap, ◌∙◌, true, false, [],
  ◌∷◌, arith, some, ltb, ◌==◌, Bool-cases, inl, inr, pos,
}
use docker_control.Text.Search.{Text}
use docker_control.Text.Decimal.{itoa_onto, itoa}
use docker_control.Text.Numerals.{is_digit, digits_onto, parse_int}

-- The digits, in front of `acc`, are a digit and a text with the same value.
record Printed (n : ℕ) (acc digits : Text) : Type 0 where
  first : ℕ
  others : Text
  is : digits ≡ first ∷ others
  digit : is_digit first ≡ true
  value : digits_onto 0 digits ≡ digits_onto n acc

itoa_onto-Printed : (fuel n : ℕ) (acc : Text) → n < fuel → Printed n acc (itoa_onto fuel n acc)
unfolding itoa_onto digits_onto
itoa_onto-Printed zero n acc h = absurd (omega arith)
itoa_onto-Printed (suc fuel) n acc h = elim (Bool-cases (ltb n 10)) [
  | inl small ↦
      let digit : is_digit (b'0' + n) ≡ true = ground arith in
      let same : 0 * 10 + (b'0' + n - b'0') ≡ n = omega arith in
      record {
        first = b'0' + n;
        others = acc;
        is = rw small refl;
        digit = digit;
        value = rw small (rw digit (rw same refl));
      }
  | inr large ↦
      let p = itoa_onto-Printed fuel (n / 10) ((b'0' + n % 10) ∷ acc) (ground arith) in
      let digit : is_digit (b'0' + n % 10) ≡ true = ground arith in
      let same : n / 10 * 10 + (b'0' + n % 10 - b'0') ≡ n = omega arith in
      record {
        first = p.first;
        others = p.others;
        is = rw large p.is;
        digit = p.digit;
        value = rw large (p.value ∙ rw digit (rw same refl));
      }
]

parse_digits :
    (c n : ℕ) (s : Text)
    → is_digit c ≡ true
    → digits_onto 0 (c ∷ s) ≡ some n
    → n < 2 ^ 63
    → parse_int (c ∷ s) ≡ some (pos n)
unfolding parse_int
parse_digits c n s d v h =
    let minus : c == b'-' ≡ false = ground arith in
    let plus : c == b'+' ≡ false = ground arith in
    let small : ltb n (2 ^ 63) ≡ true = ground arith in rw (minus, plus) (rw v (rw small refl))

printed :
    (n : ℕ) (digits : Text) → n < 2 ^ 63 → Printed n [] digits → parse_int digits ≡ some (pos n)
unfolding digits_onto
printed n digits h p =
    ap parse_int p.is
    ∙ parse_digits p.first n p.others p.digit (sym (ap (digits_onto 0) p.is) ∙ p.value) h

-- A printed number of 63 bits is read back.
pub parse_int-itoa : (n : ℕ) → n < 2 ^ 63 → parse_int (itoa n) ≡ some (pos n)
unfolding itoa
parse_int-itoa n h = printed n (itoa n) h (itoa_onto-Printed (suc n) n [] (omega arith))

-- A printed number is not empty.
pub itoa-not_empty : (n : ℕ) → itoa n ≢ []
unfolding itoa
itoa-not_empty n e =
    let p = itoa_onto-Printed (suc n) n [] (omega arith) in absurd (cons_ne (sym p.is ∙ e))
  where
    cons_ne : {c : ℕ} {s : Text} → (c ∷ s) ≢ []
    cons_ne = λ h. cc
