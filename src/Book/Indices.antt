-- ===== src/Book/Indices.antt =====
-- The index of a price, which goes unchecked into an array.
use hft_sys.Common.{ℕ, ◌-◌, ◌%◌, ◌<◌, ◌≡◌, arith}
use hft_sys.Common.Int.{ℤ, pos, negsuc}
use hft_sys.Exchange.{max_price_levels}
use hft_sys.Book.Levels.{price_to_index}

-- The remainder of a price that is not negative, for negative prices too.
abbrev pub residue : ℕ → ℤ → ℕ
residue m (pos n) = n % m
residue m (negsuc n) = m - 1 - n % m

-- `priceToIndex` is below the number of levels for every price, and is the remainder of the price by that
-- number, for negative prices too.
pub price_to_index-residue :
    (p : ℤ)
    → (price_to_index p < max_price_levels) × (price_to_index p ≡ residue max_price_levels p)
unfolding price_to_index
price_to_index-residue (pos n) = (omega arith, omega arith)
price_to_index-residue (negsuc n) = (omega arith, omega arith)
