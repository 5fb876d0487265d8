-- ===== src/Book/PriceLevels.antt =====
-- `addPriceLevel` as a whole, on the list of the levels of a side.
use hft_sys.Common.{
  ℕ, suc, ◌≤◌, ◌<◌, ◌≡◌, ◌≢◌, refl, sym, ap, ◌∙◌, subst, inl, inr, Option, some, List, [], ◌∷◌,
  ◌++◌, All, ok, Bool, true, false, if◌then◌else◌, Bool-cases, length,
}
use hft_sys.Common.Ring.{Absent}
use hft_sys.Pool.Access.{Live}
use hft_sys.Exchange.{OrdersAtPrice}
use hft_sys.Book.{Book, level_at, best_of}
use hft_sys.Book.Access.{bind-ok, level_at-Live}
use hft_sys.Book.LevelRings.{IsLevel, LevelRing}
use hft_sys.Book.Seeking.{level_price, level_price-Live, stop_at, seek-stop_at}
use hft_sys.Book.Contents.{SameContents}
use hft_sys.Book.Inserting.{IsTraded, HasLevels, inserted, stop_at-StopsAt}
use hft_sys.Book.Placing.{behind_best, in_front, between}
use hft_sys.Book.Levels.{is_worse, find_place, place_before, insert_after, insert_level}

pub in_pool : (b : Book) (xs : List ℕ) → All (IsLevel b) xs → All (λ i. i < b.level_pool.size) xs
in_pool b [] h = tt
in_pool b (x ∷ xs) h = (h.0.1.in_pool, in_pool b xs h.1)

module _ (b : Book) (first : ℕ) (rest : List ℕ) (n : ℕ) (level : OrdersAtPrice)
    (levels : LevelRing b first rest) (live : Live b.level_pool n level)
    (new : Absent n (first ∷ rest)) (best : best_of level.side b ≡ some first) where
  insert_level-at :
      (fuel : ℕ) (target : Option ℕ) (after : Bool)
      → find_place fuel level.side level.price (some first) (level_price b first) b
        ≡ ok ((target, after), b)
      → insert_level fuel (some n) (some first) b
        ≡ (if after
              then insert_after (some n) target
              else place_before (some n) level.side level.price (some first) target)
            b
  unfolding insert_level
  insert_level-at fuel target after found =
      let (lf, f_live) = levels.live.0 in
      bind-ok (level_at (some n)) _ b (level_at-Live live)
      ∙ bind-ok (level_at (some first)) _ b (level_at-Live f_live)
      ∙ bind-ok (find_place fuel level.side level.price (some first) lf.price) _ b (
          ap (λ v. find_place fuel level.side level.price (some first) v b)
            (sym (level_price-Live b first lf f_live))
          ∙ found)

  walked :
      (k : ℕ)
      → length rest ≤ k
      → is_worse level.side level.price (level_price b first) ≡ true
      → find_place (suc k) level.side level.price (some first) (level_price b first) b
        ≡ ok (stop_at b level.side level.price first rest, b)
  unfolding find_place
  walked k enough behind = rw (behind) (
      seek-stop_at b level.side level.price first k first rest levels.live.0 levels.live.0
        levels.live.1 levels.distinct.0 levels.ring enough)

  not_walked :
      (fuel : ℕ)
      → is_worse level.side level.price (level_price b first) ≡ false
      → find_place fuel level.side level.price (some first) (level_price b first) b
        ≡ ok ((some first, false), b)
  unfolding find_place
  not_walked fuel fits = rw (fits) refl

  abbrev pub Inserts : ℕ → List ℕ → Type 0
  Inserts fuel orders =
      (b' : Book) × (insert_level fuel (some n) (some first) b ≡ ok (tt, b'))
      × HasLevels b' level.side orders
      × SameContents b b'

  insert_front :
      (fuel : ℕ)
      → IsTraded level.side
      → level.price ≢ level_price b first
      → is_worse level.side level.price (level_price b first) ≡ false
      → Inserts fuel (n ∷ first ∷ rest)
  insert_front fuel traded unequal fits =
      let (b', e, has, same) =
        in_front b first rest n level levels live new best traded unequal fits in
      (b', insert_level-at fuel (some first) false (not_walked fuel fits) ∙ e, has, same)

  insert_second :
      (k : ℕ)
      → length rest ≤ k
      → is_worse level.side level.price (level_price b first) ≡ true
      → stop_at b level.side level.price first rest
        ≡ (some first, is_worse level.side level.price (level_price b first))
      → Inserts (suc k) (first ∷ n ∷ rest)
  insert_second k enough behind stop =
      let (b', e, has, same) = behind_best b first rest n level levels live new best in
      let found =
        walked k enough behind
        ∙ ap (λ s. ok (s, b)) (stop ∙ ap (λ (t : Bool). (some first, t)) behind) in
      (b', insert_level-at (suc k) (some first) true found ∙ e, has, same)

  insert_between :
      (k : ℕ) (us : List ℕ) (y : ℕ) (vs : List ℕ)
      → length rest ≤ k
      → is_worse level.side level.price (level_price b first) ≡ true
      → rest ≡ us ++ y ∷ vs
      → stop_at b level.side level.price first rest ≡ (some y, false)
      → Inserts (suc k) (first ∷ (us ++ n ∷ y ∷ vs))
  insert_between k us y vs enough behind at stop =
      let (b', e, has, same) =
        between b first us y vs n level (subst (λ ys. LevelRing b first ys) at levels) live
          (subst (λ ys. Absent n (first ∷ ys)) at new) best behind in
      (
        b',
        insert_level-at (suc k) (some y) false (walked k enough behind ∙ ap (λ s. ok (s, b)) stop)
            ∙ e,
        has,
        same,
      )

  pub insert_level-inserted :
      (k : ℕ)
      → length rest ≤ k
      → IsTraded level.side
      → level.price ≢ level_price b first
      → Inserts (suc k) (inserted (level_price b) level.side level.price n (first ∷ rest))
  insert_level-inserted k enough traded unequal =
      elim (Bool-cases (is_worse level.side level.price (level_price b first))) [
        | inr fits ↦ rw (fits) (insert_front (suc k) traded unequal fits)
        | inl behind ↦ rw (behind) (elim (stop_at-StopsAt b level.side level.price n first rest) [
          | inl (e, stop) ↦ rw (e) (insert_second k enough behind stop)
          | inr (us, y, vs, at, stop, e) ↦ rw (e) (insert_between k us y vs enough behind at stop)
        ])
      ]
