-- ===== src/Exchange/Distinct.antt =====
-- Texts of identifiers tell them apart.
use hft_sys.Common.{
  ℕ, ◌^◌, ◌<◌, ◌≡◌, ◌≢◌, refl, subst, ◌⊎◌, inl, inr, All, arith, Bool-cases, ◌==◌, ==→eq,
}
use hft_sys.Text.{Text, codes, to_string}
use hft_sys.Text.Decimal.{value_from, value_from-to_string, IsDigit, to_string-IsDigit}
use hft_sys.Exchange.Printing.{numeric_to_str}

-- `INVALID` is no decimal text.
to_string-ne : (n : ℕ) → to_string n ≢ codes "INVALID"
to_string-ne n e = omega (arith, subst (λ t. All IsDigit t) e (to_string-IsDigit n))

-- What a text says of a value: that it is the invalid one, or its digits.
abbrev pub Tells : ℕ → ℕ → Text → Type 0
Tells invalid a t =
    ((a ≡ invalid) × (t ≡ codes "INVALID"))
    ⊎ ((a ≢ invalid) × (t ≢ codes "INVALID") × All IsDigit t × (value_from 0 t ≡ a))

-- `numericToStr` of an unsigned value of at most 64 bits is `INVALID` if the value is the invalid one of its
-- type, and otherwise another text, of decimal digits that read back as the value.
pub numeric_to_str-Tells : (invalid a : ℕ) → a < 2 ^ 64 → Tells invalid a (numeric_to_str invalid a)
unfolding numeric_to_str
numeric_to_str-Tells invalid a h = elim (Bool-cases (a == invalid)) [
  | inl e ↦ rw (e) (inl (==→eq a invalid e, refl))
  | inr e ↦
      rw (e) (inr (ground arith, to_string-ne a, to_string-IsDigit a, value_from-to_string a h))
]
