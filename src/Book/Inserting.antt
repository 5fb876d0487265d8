-- ===== src/Book/Inserting.antt =====
-- `addPriceLevel`: where a new level goes in the ring of its side.
use hft_sys.Common.{
  ℕ, ◌+◌, ◌≡◌, ◌≢◌, refl, ap, ◌⊎◌, inl, inr, Option, some, none, List, [], ◌∷◌, ◌++◌, Bool, true,
  false, if◌then◌else◌, arith,
}
use hft_sys.Common.Int.{ℤ, pos_part, neg_part}
use hft_sys.Exchange.{Side}
use hft_sys.Book.{Book, best_of}
use hft_sys.Book.LevelRings.{LevelRing}
use hft_sys.Book.Seeking.{level_price, stop_at}
use hft_sys.Book.Levels.{is_worse, is_better}

-- The sides on which orders rest.
abbrev pub IsTraded : Side → Type 0
IsTraded Side.buy = Unit
IsTraded Side.sell = Unit
IsTraded _ = ⊥

-- The levels of a side, the best one first.
abbrev pub HasLevels : Book → Side → List ℕ → Type 0
HasLevels b side [] = best_of side b ≡ none
HasLevels b side (first ∷ rest) = (best_of side b ≡ some first) × LevelRing b first rest

-- `n` before the first level that is not better than its price, if there is one.
abbrev pub before_worse : (ℕ → ℤ) → Side → ℤ → ℕ → List ℕ → Option (List ℕ)
before_worse prices side price n [] = none
before_worse prices side price n (y ∷ ys) =
    if is_worse side price (prices y)
    then elim (before_worse prices side price n ys) [ none ↦ none | some zs ↦ some (y ∷ zs) ]
    else some (n ∷ y ∷ ys)

-- Where the code puts the level `n`: in front, if its price is better than the best one; before the first level
-- that is not better; and right behind the best one, if all are better.
abbrev pub inserted : (ℕ → ℤ) → Side → ℤ → ℕ → List ℕ → List ℕ
inserted prices side price n [] = n ∷ []
inserted prices side price n (first ∷ rest) =
    if is_worse side price (prices first)
    then elim (before_worse prices side price n rest) [
      | none ↦ first ∷ n ∷ rest
      | some zs ↦ first ∷ zs
    ]
    else n ∷ first ∷ rest

pub eq_of_parts : (p q : ℤ) → pos_part p + neg_part q ≡ pos_part q + neg_part p → p ≡ q
eq_of_parts p q h = ground arith

pub not_better : (side : Side) (p q : ℤ) → is_worse side p q ≡ true → is_better side p q ≡ false
not_better Side.buy p q h = ground arith
not_better Side.sell p q h = ground arith
not_better Side.invalid p q h = refl
not_better (Side.other _) p q h = refl

pub better :
    (side : Side) (p q : ℤ)
    → IsTraded side
    → p ≢ q
    → is_worse side p q ≡ false
    → is_better side p q ≡ true
better Side.buy p q t apart h = ground (arith, eq_of_parts p q)
better Side.sell p q t apart h = ground (arith, eq_of_parts p q)
better Side.invalid p q t apart h = absurd t
better (Side.other _) p q t apart h = absurd t

-- How the walk over `rest` ends, and where that is in the list.
abbrev pub StopsAt : Book → Side → ℤ → ℕ → ℕ → List ℕ → Option ℕ × Bool → Option (List ℕ) → Type 0
StopsAt b side price n first rest stop zs =
    ((zs ≡ none) × (stop ≡ (some first, is_worse side price (level_price b first))))
    ⊎ ((us : List ℕ) × (y : ℕ) × (vs : List ℕ) × (rest ≡ us ++ y ∷ vs)
        × (stop ≡ (some y, false))
        × (zs ≡ some (us ++ n ∷ y ∷ vs)))

pub stop_at-StopsAt :
    (b : Book) (side : Side) (price : ℤ) (n first : ℕ) (rest : List ℕ)
    → StopsAt b side price n first rest
        (stop_at b side price first rest)
        (before_worse (level_price b) side price n rest)
stop_at-StopsAt b side price n first [] = inl (refl, refl)
stop_at-StopsAt b side price n first (y ∷ ys) =
    decided (is_worse side price (level_price b y)) (stop_at b side price first ys)
      (before_worse (level_price b) side price n ys) (stop_at-StopsAt b side price n first ys)
  where
    decided :
        (t : Bool) (stop : Option ℕ × Bool) (zs : Option (List ℕ))
        → StopsAt b side price n first ys stop zs
        → StopsAt b side price n first
            (y ∷ ys)
            (if t then stop else (some y, false))
            (if t then elim zs [ none ↦ none | some ws ↦ some (y ∷ ws) ] else some (n ∷ y ∷ ys))
    decided false stop zs h = inr ([], y, ys, refl, refl, refl)
    decided true stop zs (inl (e1, e2)) = inl (rw (e1) refl, e2)
    decided true stop zs (inr (us, w, vs, e, e1, e2)) =
        inr (y ∷ us, w, vs, ap (λ ws. y ∷ ws) e, e1, rw (e2) refl)
