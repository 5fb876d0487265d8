-- ===== src/Pool/Count.antt =====
-- How many of a pool's first blocks are free, and sums over the live objects.
use hft_sys.Common.{ℕ, zero, suc, ◌+◌, ◌≤◌, ◌<◌, ◌≡◌, refl, Option, arith, update, dec_lt}

module _ {ℓ} {A : Type ℓ} (w : Option A → ℕ) where
  -- The sum of `w` over the first `size` blocks.
  unfoldable pub total : ℕ → (ℕ → Option A) → ℕ
  total zero blocks = 0
  total (suc size) blocks = total size blocks + w (blocks size)

  pub total-update_of_le :
      (size : ℕ) (blocks : ℕ → Option A) (p : ℕ) (b : Option A)
      → size ≤ p
      → total size (update blocks p b) ≡ total size blocks
  unfolding total
  total-update_of_le zero blocks p b e = refl
  total-update_of_le (suc size) blocks p b e = ground (arith, total-update_of_le size blocks p b)

  pub total-update :
      (size : ℕ) (blocks : ℕ → Option A) (p : ℕ) (b : Option A)
      → p < size
      → total size (update blocks p b) + w (blocks p) ≡ total size blocks + w b
  unfolding total
  total-update zero blocks p b e = elim e [ ]
  total-update (suc size) blocks p b e =
      ground (arith, total-update size blocks p b, total-update_of_le size blocks p b)

  pub total-const : (size : ℕ) (b : Option A) → w b ≡ 1 → total size (λ _. b) ≡ size
  unfolding total
  total-const zero b e = refl
  total-const (suc size) b e = omega (arith, total-const size b e)

  -- A sum that is not 0 has a part that is not 0.
  pub total-pos :
      (size : ℕ) (blocks : ℕ → Option A)
      → 0 < total size blocks
      → (p : ℕ) × (p < size) × (0 < w (blocks p))
  unfolding total
  total-pos zero blocks e = elim e [ ]
  total-pos (suc size) blocks e = elim (dec_lt 0 (w (blocks size))) [
    | yes here ↦ (size, omega arith, here)
    | no below ↦
        let (p, in_range, found) = total-pos size blocks (omega arith) in (p, omega arith, found)
  ]

  pub total-le :
      ((b : Option A) → w b ≤ 1) → (size : ℕ) (blocks : ℕ → Option A) → total size blocks ≤ size
  unfolding total
  total-le small zero blocks = omega arith
  total-le small (suc size) blocks = omega (arith, small (blocks size), total-le small size blocks)
