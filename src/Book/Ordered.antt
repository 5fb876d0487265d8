-- ===== src/Book/Ordered.antt =====
-- When `addPriceLevel` keeps the prices of a side in order.
use hft_sys.Common.{
  ℕ, ◌≤◌, ◌≡◌, ◌≢◌, ◌↔◌, refl, sym, ◌∙◌, subst, fun_ext, inl, inr, Option, some, none, List, [],
  ◌∷◌, map, All, ok, Bool, true, false, length, arith, Bool-cases, Option-cases, if◌then◌else◌,
}
use hft_sys.Common.Int.{ℤ}
use hft_sys.Common.Ring.{Absent}
use hft_sys.Pool.Access.{Live}
use hft_sys.Exchange.{OrdersAtPrice, Side}
use hft_sys.Book.{Book}
use hft_sys.Book.Sorted.{Behind, IsSortedFrom}
use hft_sys.Book.Seeking.{level_price, level_price-Live}
use hft_sys.Book.Inserting.{IsTraded, HasLevels, before_worse, inserted, eq_of_parts}
use hft_sys.Book.Adding.{Unequal, add_price_level-inserted, indexed-price}
use hft_sys.Book.Levels.{is_worse, add_price_level, price_to_index}

-- Each price is worse than the one before.
abbrev pub IsOrdered : Side → List ℤ → Type 0
IsOrdered side [] = Unit
IsOrdered side (p ∷ ps) = IsSortedFrom side p ps

Behind-of_worse :
    (side : Side) (p q : ℤ) → IsTraded side → is_worse side p q ≡ true → Behind side q p
Behind-of_worse Side.buy p q t h = ground arith
Behind-of_worse Side.sell p q t h = ground arith
Behind-of_worse Side.invalid p q t h = absurd t
Behind-of_worse (Side.other _) p q t h = absurd t

Behind-of_not_worse :
    (side : Side) (p q : ℤ) → IsTraded side → p ≢ q → is_worse side p q ≡ false → Behind side p q
Behind-of_not_worse Side.buy p q t apart h = ground (arith, eq_of_parts p q)
Behind-of_not_worse Side.sell p q t apart h = ground (arith, eq_of_parts p q)
Behind-of_not_worse Side.invalid p q t apart h = absurd t
Behind-of_not_worse (Side.other _) p q t apart h = absurd t

Behind-asym : (side : Side) (p q : ℤ) → Behind side p q → ¬ Behind side q p
Behind-asym Side.buy p q h k = omega arith
Behind-asym Side.sell p q h k = omega arith
Behind-asym Side.invalid p q h k = h
Behind-asym (Side.other _) p q h k = h

worse-of_Behind :
    (side : Side) (p q : ℤ) → IsTraded side → Behind side q p → is_worse side p q ≡ true
worse-of_Behind Side.buy p q t h = ground arith
worse-of_Behind Side.sell p q t h = ground arith
worse-of_Behind Side.invalid p q t h = absurd t
worse-of_Behind (Side.other _) p q t h = absurd t

-- All the levels are better than `n`.
abbrev pub AllBetter : (ℕ → ℤ) → Side → ℕ → List ℕ → Type 0
AllBetter prices side n orders = All (λ i. Behind side (prices i) (prices n)) orders

-- All of two or more levels are better than `n`.
abbrev pub IsWorstOfMany : (ℕ → ℤ) → Side → ℕ → List ℕ → Type 0
IsWorstOfMany prices side n orders = (2 ≤ length orders) × AllBetter prices side n orders

module _ (prices : ℕ → ℤ) (side : Side) (n : ℕ) (traded : IsTraded side) where
  abbrev Other : List ℕ → Type 0
  Other orders = All (λ i. prices n ≢ prices i) orders

  none-AllBetter :
      (ys : List ℕ) → before_worse prices side (prices n) n ys ≡ none → AllBetter prices side n ys
  none-AllBetter [] e = tt
  none-AllBetter (y ∷ ys) e =
      decided (is_worse side (prices n) (prices y)) (before_worse prices side (prices n) n ys)
        (Behind-of_worse side (prices n) (prices y) traded) (none-AllBetter ys) e
    where
      decided :
          (t : Bool) (zs : Option (List ℕ))
          → (t ≡ true → Behind side (prices y) (prices n))
          → (zs ≡ none → AllBetter prices side n ys)
          → (if t then elim zs [ none ↦ none | some ws ↦ some (y ∷ ws) ] else some (n ∷ y ∷ ys))
            ≡ none
          → AllBetter prices side n (y ∷ ys)
      decided true none h k e = (h refl, k refl)
      decided true (some ws) h k e = absurd cc
      decided false zs h k e = absurd cc

  AllBetter-none :
      (ys : List ℕ) → AllBetter prices side n ys → before_worse prices side (prices n) n ys ≡ none
  AllBetter-none [] h = refl
  AllBetter-none (y ∷ ys) h =
      rw (worse-of_Behind side (prices n) (prices y) traded h.0, AllBetter-none ys h.1) refl

  some-IsSortedFrom :
      (last : ℤ) (ys zs : List ℕ)
      → Other ys
      → Behind side last (prices n)
      → IsSortedFrom side last (map prices ys)
      → before_worse prices side (prices n) n ys ≡ some zs
      → IsSortedFrom side last (map prices zs)
  some-IsSortedFrom last [] zs other behind sorted e = absurd cc
  some-IsSortedFrom last (y ∷ ys) zs other behind sorted e =
      decided (is_worse side (prices n) (prices y)) (before_worse prices side (prices n) n ys) zs
        (Behind-of_worse side (prices n) (prices y) traded)
        (Behind-of_not_worse side (prices n) (prices y) traded other.0)
        (λ ws b. some-IsSortedFrom (prices y) ys ws other.1 b sorted.1) e
    where
      decided :
          (t : Bool) (found : Option (List ℕ)) (zs : List ℕ)
          → (t ≡ true → Behind side (prices y) (prices n))
          → (t ≡ false → Behind side (prices n) (prices y))
          → ((ws : List ℕ)
              → Behind side (prices y) (prices n)
              → found ≡ some ws
              → IsSortedFrom side (prices y) (map prices ws))
          → (if t then elim found [ none ↦ none | some ws ↦ some (y ∷ ws) ] else some (n ∷ y ∷ ys))
            ≡ some zs
          → IsSortedFrom side last (map prices zs)
      decided true none zs h k l e = absurd cc
      decided true (some ws) zs h k l e =
          let same : y ∷ ws ≡ zs = cc in
          subst (λ w. IsSortedFrom side last (map prices w)) same (sorted.0, l ws (h refl) refl)
      decided false found zs h k l e =
          let same : n ∷ y ∷ ys ≡ zs = cc in
          subst (λ w. IsSortedFrom side last (map prices w)) same (behind, (k refl, sorted.1))

  worst-not_IsOrdered :
      (orders : List ℕ)
      → IsWorstOfMany prices side n orders
      → ¬ IsOrdered side (map prices (inserted prices side (prices n) n orders))
  worst-not_IsOrdered [] (many, better) = absurd (omega arith)
  worst-not_IsOrdered (x ∷ []) (many, better) = absurd (omega arith)
  worst-not_IsOrdered (x ∷ y ∷ ys) (many, better) =
      rw
        (
          worse-of_Behind side (prices n) (prices x) traded better.0,
          AllBetter-none (y ∷ ys) better.1,
        )
        (λ ordered. Behind-asym side (prices y) (prices n) better.1.0 ordered.1.0)

  alone-IsOrdered :
      (x : ℕ) (rest : List ℕ)
      → Behind side (prices x) (prices n)
      → AllBetter prices side n rest
      → ¬ IsWorstOfMany prices side n (x ∷ rest)
      → IsOrdered side (map prices (x ∷ n ∷ rest))
  alone-IsOrdered x [] behind better good = (behind, tt)
  alone-IsOrdered x (y ∷ ys) behind better good = absurd (good (omega arith, (behind, better)))

  not_worst-IsOrdered :
      (orders : List ℕ)
      → Other orders
      → IsOrdered side (map prices orders)
      → ¬ IsWorstOfMany prices side n orders
      → IsOrdered side (map prices (inserted prices side (prices n) n orders))
  not_worst-IsOrdered [] other ordered good = tt
  not_worst-IsOrdered (x ∷ rest) other ordered good =
      elim (Bool-cases (is_worse side (prices n) (prices x))) [
        | inr fits ↦
            rw (fits) (Behind-of_not_worse side (prices n) (prices x) traded other.0 fits, ordered)
        | inl worse ↦
            let behind = Behind-of_worse side (prices n) (prices x) traded worse in
            elim (Option-cases (before_worse prices side (prices n) n rest)) [
              | inr (zs, e) ↦
                  rw (worse, e) (some-IsSortedFrom (prices x) rest zs other.1 behind ordered e)
              | inl e ↦ rw (worse, e) (alone-IsOrdered x rest behind (none-AllBetter rest e) good)
            ]
      ]

Unequal-of_other :
    (b : Book) (n : ℕ) (orders : List ℕ)
    → All (λ i. level_price b n ≢ level_price b i) orders
    → Unequal b (level_price b n) orders
Unequal-of_other b n [] h = tt
Unequal-of_other b n (x ∷ rest) h = h.0

-- `addPriceLevel` of a live level that is not in the ring of its side, for BUY or SELL, at a price that no
-- level of the side has, where the prices are in order from the best one on: it returns, the side
-- has the levels with the new one inserted, and the prices are in order again exactly if the new level is
-- not the worst one of three or more.
pub add_price_level-IsOrdered :
    (b : Book) (n : ℕ) (level : OrdersAtPrice) (orders : List ℕ)
    → HasLevels b level.side orders
    → Live b.level_pool n level
    → Absent n orders
    → IsTraded level.side
    → All (λ i. level_price b n ≢ level_price b i) orders
    → IsOrdered level.side (map (level_price b) orders)
    → (b' : Book) × (add_price_level (some n) b ≡ ok (tt, b'))
      × HasLevels b' level.side (inserted (level_price b) level.side level.price n orders)
      × (IsOrdered level.side
            (map (level_price b') (inserted (level_price b) level.side level.price n orders))
          ↔ (¬ IsWorstOfMany (level_price b) level.side n orders))
add_price_level-IsOrdered b n level orders has live new traded other ordered =
    let prices = level_price b in
    let side = level.side in
    let e = level_price-Live b n level live in
    let (b', returns, levels, same) =
      add_price_level-inserted b n level orders has live new traded
        (subst (λ p. Unequal b p orders) e (Unequal-of_other b n orders other)) in
    (
      b',
      returns,
      levels,
      subst
          (λ p.
            IsOrdered side (map (level_price b') (inserted prices side p n orders))
            ↔ (¬ IsWorstOfMany prices side n orders))
          e
          (subst
            (λ f.
              IsOrdered side (map f (inserted prices side (prices n) n orders))
              ↔ (¬ IsWorstOfMany prices side n orders))
            (sym
              (fun_ext λ i. same.same_prices i ∙ indexed-price b (price_to_index level.price) n i))
            (
              (λ order worst. worst-not_IsOrdered prices side n traded orders worst order),
              not_worst-IsOrdered prices side n traded orders other ordered,
            )),
    )
