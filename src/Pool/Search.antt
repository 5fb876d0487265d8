-- ===== src/Pool/Search.antt =====
-- The loop of `updateNextFreeIndex` finds a free block whenever there is one.
use native.Mathlib.Nat.{mod-eq_of_lt, mod-eq-sub-mod}
use hft_sys.Common.{
  ℕ, zero, suc, ◌+◌, ◌-◌, ◌%◌, ◌^◌, ◌≤◌, ◌<◌, ◌≡◌, refl, sym, ◌∙◌, ◌≢◌, inl, inr, Option, none,
  some, arith, dec_lt, ok, add_size, Option-cases, ne→==,
}
use hft_sys.Common.Rounds.{round-ne, next-round}
use hft_sys.Pool.{search}

-- Every index lies some number of steps behind another.
pub steps_to : (size s t : ℕ) → s < size → t < size → (m : ℕ) × (m < size) × (t ≡ (s + m) % size)
steps_to size s t hs ht = elim (dec_lt t s) [
  | yes p ↦ (t + size - s, omega arith, wrapped p)
  | no p ↦ (t - s, omega arith, direct p)
]
  where
    wrapped : t < s → t ≡ (s + (t + size - s)) % size
    wrapped p = omega (
      arith,
      mod-eq-sub-mod {n = s + (t + size - s)} {m = size} (omega arith),
      mod-eq_of_lt {n = s + (t + size - s) - size} {m = size} (omega arith),
    )

    direct : ¬ (t < s) → t ≡ (s + (t - s)) % size
    direct p = omega (arith, mod-eq_of_lt {n = s + (t - s)} {m = size} (omega arith))

module _ {ℓ} {A : Type ℓ} (blocks : ℕ → Option A) (size start m : ℕ) (small : size ≤ 2 ^ 63)
    (start_in : start < size) (m_in : m < size) (free : blocks ((start + m) % size) ≡ none) where
  clash : {j n : ℕ} (a : A) → blocks j ≡ some a → j ≡ (start + n) % size → n ≢ m
  clash {j} {n} a used e q = cc (free, used, e, q)

  pub search-ok :
      (fuel n i : ℕ)
      → i ≡ (start + n) % size
      → n < m
      → m ≤ n + fuel
      → (j : ℕ) × (search blocks size start fuel i ≡ ok j) × (j < size) × (blocks j ≡ none)
  unfolding search
  search-ok zero n i e before enough = absurd (omega arith)
  search-ok (suc fuel) n i e before enough = elim (Option-cases (blocks (add_size i 1 % size))) [
    | inl found ↦ (add_size i 1 % size, rw found refl, omega arith, found)
    | inr (a, used) ↦
        let next : add_size i 1 % size ≡ (start + suc n) % size =
          next-round size start n i small (rw e (omega arith)) e in
        let on : suc n ≢ m = clash a used next in
        let moved : add_size i 1 % size ≢ start =
          λ q. round-ne size start n start_in (omega arith) (sym next ∙ q) in
        rw (used, ne→== _ _ moved)
          (search-ok fuel (suc n) (add_size i 1 % size) next (omega arith) (omega arith))
  ]
