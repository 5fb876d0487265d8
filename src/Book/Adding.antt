-- ===== src/Book/Adding.antt =====
-- `addPriceLevel` on a side of the book, and when it keeps the prices in order.
use hft_sys.Common.{
  ℕ, suc, ◌-◌, ◌≡◌, ◌≢◌, refl, sym, ap, ◌∙◌, Option, some, none, List, [], ◌∷◌, ok, arith, update,
  update_self,
}
use hft_sys.Common.Int.{ℤ}
use hft_sys.Common.Ring.{Absent}
use hft_sys.Common.Ring.Fits.{Distinct-length}
use hft_sys.Pool.Access.{Live}
use hft_sys.Exchange.{OrdersAtPrice, Side}
use hft_sys.Book.{Book, level_at, set_level, best_of}
use hft_sys.Book.Access.{bind-ok, level_at-Live}
use hft_sys.Book.Rings.{next_level, prev_level, with_levels, with_levels_self, write_level_links}
use hft_sys.Book.LevelRings.{LevelRing, LevelRing-linked}
use hft_sys.Book.Seeking.{level_price}
use hft_sys.Book.Inserting.{IsTraded, HasLevels, inserted}
use hft_sys.Book.Contents.{
  level_head, SameContents, SameContents-linked, SameContents-best, SameContents-trans,
}
use hft_sys.Book.PriceLevels.{in_pool, insert_level-inserted}
use hft_sys.Book.Levels.{insert_level, place_level, add_price_level, price_to_index}

-- The book in which the level `n` has links to itself.
abbrev looped : Book → ℕ → Book
looped b n = with_levels b (update (next_level b) n (some n)) (update (prev_level b) n (some n))

loop-ok :
    (b : Book) (n : ℕ) (level : OrdersAtPrice)
    → Live b.level_pool n level
    → set_level (some n) (λ l. record l { prev = some n; next = some n }) b ≡ ok (tt, looped b n)
loop-ok b n level live =
    ap (λ c. set_level (some n) (λ l. record l { prev = some n; next = some n }) c)
      (sym (with_levels_self b))
    ∙ write_level_links b (next_level b) (prev_level b) (some n) n level refl live (some n) (some n)

looped-ring :
    (b : Book) (n : ℕ) (level : OrdersAtPrice)
    → Live b.level_pool n level
    → LevelRing (looped b n) n []
looped-ring b n level live =
    LevelRing-linked b _ _ n [] ((level, live), tt) (tt, tt)
      (update_self (next_level b) n (some n), update_self (prev_level b) n (some n))

-- `n` alone on its side, with links to itself.
alone :
    (side : Side) (b : Book) (n : ℕ) (level : OrdersAtPrice)
    → IsTraded side
    → Live b.level_pool n level
    → (b' : Book) × (place_level (some n) side none b ≡ ok (tt, b'))
      × HasLevels b' side (n ∷ [])
      × SameContents b b'
unfolding place_level
alone Side.buy b n level t live =
    let c = record b { bids = some n } in
    (
      looped c n,
      loop-ok c n level live,
      (refl, looped-ring c n level live),
      SameContents-trans b c _ (SameContents-best b (some n) b.asks) (SameContents-linked c _ _),
    )
alone Side.sell b n level t live =
    let c = record b { asks = some n } in
    (
      looped c n,
      loop-ok c n level live,
      (refl, looped-ring c n level live),
      SameContents-trans b c _ (SameContents-best b b.bids (some n)) (SameContents-linked c _ _),
    )
alone Side.invalid b n level t live = absurd t
alone (Side.other _) b n level t live = absurd t

-- The levels do not depend on the index of the levels by price.
LevelRing-indexed :
    (b : Book) (index : ℕ → Option ℕ) (first : ℕ) (rest : List ℕ)
    → LevelRing b first rest
    → LevelRing (record b { price_levels = index }) first rest
unfolding next_level prev_level
LevelRing-indexed b index first rest r = record {
  live = r.live;
  distinct = r.distinct;
  ring = r.ring;
}

-- The new level's price is not that of the best one.
abbrev pub Unequal : Book → ℤ → List ℕ → Type 0
Unequal b price [] = Unit
Unequal b price (first ∷ rest) = price ≢ level_price b first

place_level-inserted :
    (b : Book) (n : ℕ) (level : OrdersAtPrice) (orders : List ℕ)
    → HasLevels b level.side orders
    → Live b.level_pool n level
    → Absent n orders
    → IsTraded level.side
    → Unequal b level.price orders
    → (b' : Book) × (place_level (some n) level.side (best_of level.side b) b ≡ ok (tt, b'))
      × HasLevels b' level.side (inserted (level_price b) level.side level.price n orders)
      × SameContents b b'
unfolding place_level
place_level-inserted b n level [] has live new traded unequal =
    let (b', e, done, same) = alone level.side b n level traded live in
    (b', ap (λ p. place_level (some n) level.side p b) has ∙ e, done, same)
place_level-inserted b n level (first ∷ rest) (best, levels) live new traded unequal =
    let fits =
      Distinct-length b.level_pool.size (first ∷ rest) levels.distinct
        (in_pool b (first ∷ rest) levels.live) in
    let size : b.level_pool.size ≡ suc (b.level_pool.size - 1) = omega arith in
    let (b', e, done, same) =
      insert_level-inserted b first rest n level levels live new best (b.level_pool.size - 1)
        (omega arith) traded unequal in
    (
      b',
      ap (λ p. place_level (some n) level.side p b) best
          ∙ ap (λ k. insert_level k (some n) (some first) b) size
          ∙ e,
      done,
      same,
    )

-- The book where the index `k` leads to the level `n`.
abbrev pub indexed : Book → ℕ → ℕ → Book
indexed b k n = record b { price_levels = update b.price_levels k (some n) }

HasLevels-indexed :
    (b : Book) (k n : ℕ) (side : Side) (orders : List ℕ)
    → HasLevels b side orders
    → HasLevels (indexed b k n) side orders
HasLevels-indexed b k n side [] h = h
HasLevels-indexed b k n side (first ∷ rest) (best, r) = (best, LevelRing-indexed b _ first rest r)

Unequal-indexed :
    (b : Book) (k n : ℕ) (price : ℤ) (orders : List ℕ)
    → Unequal b price orders
    → Unequal (indexed b k n) price orders
unfolding level_price
Unequal-indexed b k n price [] h = h
Unequal-indexed b k n price (first ∷ rest) h = h

pub indexed-price : (b : Book) (k n i : ℕ) → level_price (indexed b k n) i ≡ level_price b i
unfolding level_price
indexed-price b k n i = refl

pub indexed-head : (b : Book) (k n i : ℕ) → level_head (indexed b k n) i ≡ level_head b i
unfolding level_head
indexed-head b k n i = refl

-- `addPriceLevel` of a live level that is not in the ring of its side, for BUY or SELL, at a price other than
-- the best one: it returns, the side has the levels with the new one inserted, the index of the level's
-- price leads to it, and all else but the links is the same.
pub add_price_level-inserted :
    (b : Book) (n : ℕ) (level : OrdersAtPrice) (orders : List ℕ)
    → HasLevels b level.side orders
    → Live b.level_pool n level
    → Absent n orders
    → IsTraded level.side
    → Unequal b level.price orders
    → (b' : Book) × (add_price_level (some n) b ≡ ok (tt, b'))
      × HasLevels b' level.side (inserted (level_price b) level.side level.price n orders)
      × SameContents (indexed b (price_to_index level.price) n) b'
unfolding add_price_level level_price
add_price_level-inserted b n level orders has live new traded unequal =
    let k = price_to_index level.price in
    let c = indexed b k n in
    let (b', e, levels, same) =
      place_level-inserted c n level orders (HasLevels-indexed b k n level.side orders has) live new
        traded (Unequal-indexed b k n level.price orders unequal) in
    (b', bind-ok (level_at (some n)) _ b (level_at-Live live) ∙ e, levels, same)
