-- ===== src/Text.antt =====
-- Text as the code points that the program writes: std::to_string, and std::format for the fields that
-- the program uses.
pub mod Decimal
use Prim.Native.Char.{code}
use Prim.Native.String.{String}
use hft_sys.Common.{
  ℕ, zero, suc, ◌+◌, ◌-◌, ◌/◌, ◌%◌, List, [], ◌∷◌, ◌++◌, ◌==◌, if◌then◌else◌, length,
}
use hft_sys.Common.Int.{ℤ, pos, negsuc}

abbrev pub Text : Type 0
Text = List ℕ

abbrev pub codes : String → Text
codes String.[] = []
codes (String.◌∷◌ c s) = code c ∷ codes s

-- The decimal digits of a number in front of `out`; `fuel` bounds how many are written.
unfoldable pub digits : ℕ → ℕ → Text → Text
digits zero n out = out
digits (suc fuel) n out =
    let rest = digits fuel (n / 10) ((b'0' + n % 10) ∷ out) in
    if n / 10 == 0 then (b'0' + n % 10) ∷ out else rest

-- A 64-bit number has at most 20 digits.
abbrev pub most_digits : ℕ
most_digits = 20

unfoldable pub to_string : ℕ → Text
unfolding digits
to_string n = digits most_digits n []

unfoldable pub to_string_ℤ : ℤ → Text
unfolding to_string
to_string_ℤ (pos n) = to_string n
to_string_ℤ (negsuc n) = b'-' ∷ to_string (suc n)

unfoldable pub spaces : ℕ → Text
spaces zero = []
spaces (suc n) = b' ' ∷ spaces n

-- `{:w}` puts a text to the left of its field and a number to the right.
unfoldable pub pad_text : ℕ → Text → Text
unfolding spaces
pad_text width t = t ++ spaces (width - length t)

unfoldable pub pad_number : ℕ → Text → Text
unfolding spaces
pad_number width t = spaces (width - length t) ++ t
