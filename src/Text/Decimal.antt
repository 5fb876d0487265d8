-- ===== src/Text/Decimal.antt =====
-- Decimal texts can be read back, so that different numbers have different texts.
use hft_sys.Common.{
  ℕ, zero, suc, ◌+◌, ◌-◌, ◌*◌, ◌/◌, ◌%◌, ◌^◌, ◌<◌, ◌≤◌, ◌≡◌, ap, ◌∙◌, inl, inr, [], ◌∷◌, All, arith,
  Bool-cases, ◌==◌,
}
use hft_sys.Text.{Text, digits, most_digits, to_string}

-- The number that decimal digits stand for, behind the number `n` read so far.
unfoldable pub value_from : ℕ → Text → ℕ
value_from n [] = n
value_from n (c ∷ t) = value_from (n * 10 + (c - b'0')) t

abbrev ten_to : ℕ → ℕ
ten_to zero = 1
ten_to (suc f) = 10 * ten_to f

value_from-digits :
    (fuel n : ℕ) (out : Text)
    → n < ten_to fuel
    → value_from 0 (digits fuel n out) ≡ value_from n out
unfolding digits value_from
value_from-digits zero n out fits = ap (λ k. value_from k out) (omega arith)
value_from-digits (suc fuel) n out fits = elim (Bool-cases (n / 10 == 0)) [
  | inl e ↦ rw (e) (ap (λ k. value_from k out) (ground arith))
  | inr e ↦ rw (e) (
      value_from-digits fuel (n / 10) ((b'0' + n % 10) ∷ out) (omega arith)
      ∙ ap (λ k. value_from k out) (omega arith))
]

-- Every number below 10^20, and so every 64-bit number, is read back from its text.
pub value_from-to_string : (n : ℕ) → n < 2 ^ 64 → value_from 0 (to_string n) ≡ n
unfolding to_string value_from
value_from-to_string n h = value_from-digits most_digits n [] (omega arith)

abbrev pub IsDigit : ℕ → Type 0
IsDigit c = (b'0' ≤ c) × (c ≤ b'9')

digits-IsDigit : (fuel n : ℕ) (out : Text) → All IsDigit out → All IsDigit (digits fuel n out)
unfolding digits
digits-IsDigit zero n out h = h
digits-IsDigit (suc fuel) n out h = elim (Bool-cases (n / 10 == 0)) [
  | inl e ↦ rw (e) ((omega arith, omega arith), h)
  | inr e ↦ rw (e) (digits-IsDigit fuel (n / 10) _ ((omega arith, omega arith), h))
]

pub to_string-IsDigit : (n : ℕ) → All IsDigit (to_string n)
unfolding to_string
to_string-IsDigit n = digits-IsDigit most_digits n [] tt
