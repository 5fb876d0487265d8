-- ===== src/Common/Ring/Fits.antt =====
-- Different numbers below a bound are at most that many.
use hft_sys.Common.{
  ℕ, zero, suc, ◌≤◌, ◌<◌, ◌≡◌, sym, ap, subst, ◌⊎◌, inl, inr, List, [], ◌∷◌, ◌++◌, All, All-left,
  All-right, All-append, arith, length, length-append, ℕ_discrete,
}
use hft_sys.Common.Ring.{Absent, Distinct, Absent-append}
use hft_sys.Common.Ring.Splice.{Distinct-without, Distinct-right, Distinct-before}

-- A number is absent from a list, or stands somewhere in it.
Absent-or_split : (n : ℕ) (xs : List ℕ) → Absent n xs ⊎ ((us vs : List ℕ) × (xs ≡ us ++ n ∷ vs))
Absent-or_split n [] = inl tt
Absent-or_split n (x ∷ xs) = elim (ℕ_discrete n x) [
  | yes e ↦ inr ([], xs, ap (λ y. y ∷ xs) (sym e))
  | no apart ↦ elim (Absent-or_split n xs) [
    | inl h ↦ inl (apart, h)
    | inr (us, vs, e) ↦ inr (x ∷ us, vs, ap (λ ys. x ∷ ys) e)
  ]
]

below : (n : ℕ) (xs : List ℕ) → All (λ i. i < suc n) xs → Absent n xs → All (λ i. i < n) xs
below n [] h k = tt
below n (x ∷ xs) h k = let here = h.0 in let apart = k.0 in (omega arith, below n xs h.1 k.1)

pub Distinct-length : (n : ℕ) (xs : List ℕ) → Distinct xs → All (λ i. i < n) xs → length xs ≤ n
Distinct-length zero [] d h = omega arith
Distinct-length zero (x ∷ xs) d h = absurd (let here = h.0 in omega arith)
Distinct-length (suc n) xs d h = elim (Absent-or_split n xs) [
  | inl absent ↦ let rest = Distinct-length n xs d (below n xs h absent) in omega arith
  | inr (us, vs, e) ↦
      let d' = subst Distinct e d in
      let h' = subst (λ ys. All (λ i. i < suc n) ys) e h in
      let small =
        below n (us ++ vs)
          (All-append (λ i. i < suc n) us vs (All-left (λ i. i < suc n) us (n ∷ vs) h')
            (All-right (λ i. i < suc n) us (n ∷ vs) h').1)
          (Absent-append n us vs (Distinct-before us [] n vs d')
            (Distinct-right us (n ∷ vs) d').0) in
      let rest = Distinct-length n (us ++ vs) (Distinct-without us n vs d') small in
      omega (arith, ap (λ ys. length ys) e, length-append us vs, length-append us (n ∷ vs))
]
