-- ===== src/Book/LevelRemoval.antt =====
-- `removePriceLevel` on the list of the levels of a side.
use hft_sys.Common.{
  ℕ, ◌≡◌, refl, sym, ap, ◌∙◌, Option, some, none, List, [], ◌∷◌, ◌++◌, All, All-left, All-right,
  All-append, ok, Bool, true, false, update, update_self, update_ne, if◌then◌else◌, ==_self, ne→==,
  ◌==◌,
}
use hft_sys.Common.Int.{ℤ}
use hft_sys.Common.Ring.{
  Chain, Chain-split, Absent, Absent-append, Absent-right, Distinct, last, prev-last,
}
use hft_sys.Common.Ring.Splice.{
  frame_next, frame_prev, retarget, Chain-without, Distinct-before, Distinct-right,
  Distinct-without, next-head, first as head_of, Absent-head,
}
use hft_sys.Pool.Access.{Live}
use hft_sys.Exchange.{OrdersAtPrice, Side, is_buy}
use hft_sys.Book.{Book, best_of, same_pointer}
use hft_sys.Book.Rings.{next_level, prev_level}
use hft_sys.Book.LevelRings.{IsLevel, LevelRing, LevelRing-linked}
use hft_sys.Book.ElsewhereLevels.{LevelRing-elsewhere}
use hft_sys.Book.Inserting.{HasLevels}
use hft_sys.Book.Placing.{head_of-IsLevel, last-IsLevel}
use hft_sys.Book.Delisting.{
  moved_best, best-moved, delisted, unlisted, remove_price_level-linked, remove_price_level-alone,
}
use hft_sys.Book.Unlinking.{unlinked_next, unlinked_prev}
use hft_sys.Book.Levels.{remove_price_level, price_to_index}

LevelRing-delisted :
    (b : Book) (k l first : ℕ) (rest : List ℕ)
    → Absent l (first ∷ rest)
    → LevelRing b first rest
    → LevelRing (delisted b k l) first rest
LevelRing-delisted b k l =
    LevelRing-elsewhere b (delisted b k l) l (λ i away. update_ne b.level_pool.blocks l none i away)
      refl

-- What `removePriceLevel` leaves: `orders` on the side, and the level at `l` neither in the pool nor in the index.
abbrev pub Delisted : Book → Side → ℤ → ℕ → List ℕ → Book → Type 0
Delisted b side price l orders b' =
    HasLevels b' side orders
    × (b'.level_pool.blocks l ≡ none)
    × (b'.price_levels ≡ update b.price_levels (price_to_index price) none)
    × (b'.order_pool ≡ b.order_pool)
    × (b'.client_orders ≡ b.client_orders)
    × (b'.sent ≡ b.sent)

freed_level : (b : Book) (k l : ℕ) → (delisted b k l).level_pool.blocks l ≡ none
freed_level b k l = update_self b.level_pool.blocks l none

module _ (b : Book) (side : Side) (price : ℤ) (l : ℕ) (level : OrdersAtPrice)
    (live : Live b.level_pool l level) (at : b.price_levels (price_to_index price) ≡ some l) where
  abbrev Removes : List ℕ → Type 0
  Removes orders =
      (b' : Book) × (remove_price_level side price b ≡ ok (tt, b'))
      × Delisted b side price l orders b'

  only_level : HasLevels b side (l ∷ []) → Removes []
  only_level (best, levels) =
      let k = price_to_index price in
      (
        _,
        remove_price_level-alone b side price l level live at levels.ring.0,
        (best-moved true (is_buy side) none b, freed_level b k l, refl, refl, refl, refl),
      )

  -- The levels that are left when `l` goes from between `z` and `s`.
  left :
      (bids asks : Option ℕ) (z s first : ℕ) (rest : List ℕ)
      → All (IsLevel b) (first ∷ rest)
      → Distinct (first ∷ rest)
      → Absent l (first ∷ rest)
      → Chain (update (next_level b) z (some s)) (update (prev_level b) s (some z)) first rest first
      → LevelRing (delisted (unlisted b bids asks z l s) (price_to_index price) l) first rest
  left bids asks z s first rest all distinct absent ring =
      LevelRing-delisted (unlisted b bids asks z l s) (price_to_index price) l first rest absent (
        LevelRing-linked (record b { bids = bids; asks = asks })
          (unlinked_next (next_level b) z s l) (unlinked_prev (prev_level b) z s l) first rest all
          distinct
          (frame_prev _ (update (prev_level b) s (some z)) l none first rest first absent.1 absent.0
            (frame_next (update (next_level b) z (some s)) (update (prev_level b) s (some z)) l none
              first rest first absent ring)))

  abbrev moved_to : ℕ → Book
  moved_to s = moved_best (same_pointer (some l) (best_of side b)) (is_buy side) (some s) b

  best_after :
      (best s : ℕ) (t : Bool)
      → best_of side b ≡ some best
      → (l == best) ≡ t
      → (let moved = moved_best (same_pointer (some l) (best_of side b)) (is_buy side) (some s) b in
          if is_buy side then moved.bids else moved.asks)
        ≡ (if t then some s else some best)
  best_after best s t e same =
      best-moved (same_pointer (some l) (best_of side b)) (is_buy side) (some s) b
      ∙ ap (λ p. if same_pointer (some l) p then some s else p) e
      ∙ ap (λ (u : Bool). if u then some s else some best) same

  first_level : (y : ℕ) (ys : List ℕ) → HasLevels b side (l ∷ y ∷ ys) → Removes (y ∷ ys)
  first_level y ys (best, levels) =
      let (to, back, beyond) = levels.ring in
      let away = levels.distinct.0 in
      let z = last y ys in
      let (lz, z_live) = last-IsLevel b y ys levels.live.1 in
      let (ls, s_live) = levels.live.1.0 in
      let from = prev-last (next_level b) (prev_level b) y ys l beyond in
      (
        _,
        remove_price_level-linked b side price l level live at z y lz ls z_live s_live to from
            (λ e. away.0 (sym e)),
        (
          (
            best_after l y true best (==_self l),
            left _ _ z y y ys levels.live.1 levels.distinct.1 away (
                retarget (next_level b) (prev_level b) y ys l y levels.distinct.1
                  levels.distinct.1.0 beyond),
          ),
          freed_level (unlisted b (moved_to y).bids (moved_to y).asks z l y) (price_to_index price)
              l,
          refl,
          refl,
          refl,
          refl,
        ),
      )

  later_level :
      (f : ℕ) (xs ys : List ℕ) → HasLevels b side (f ∷ (xs ++ l ∷ ys)) → Removes (f ∷ (xs ++ ys))
  later_level f xs ys (best, levels) =
      let next = next_level b in
      let prev = prev_level b in
      let z = last f xs in
      let s = head_of ys f in
      let distinct = levels.distinct in
      let all = levels.live in
      let (to_l, from_l) = Chain-split next prev f xs l ys f levels.ring in
      let before : Absent l (f ∷ xs) = (
        (λ e. (Absent-right f xs (l ∷ ys) distinct.0).0 (sym e)),
        Distinct-before xs [] l ys distinct.1,
      ) in
      let after = (Distinct-right (f ∷ xs) (l ∷ ys) distinct).0 in
      let absent : Absent l (f ∷ (xs ++ ys)) = (before.0, Absent-append l xs ys before.1 after) in
      let live_after = (All-right (IsLevel b) xs (l ∷ ys) all.1).1 in
      let live_before = All-left (IsLevel b) (f ∷ xs) (l ∷ ys) all in
      let (lz, z_live) = last-IsLevel b f xs live_before in
      let (ls, s_live) = head_of-IsLevel b ys f live_after all.0 in
      (
        _,
        remove_price_level-linked b side price l level live at z s lz ls z_live s_live
            (next-head next prev l ys f from_l) (prev-last next prev f xs l to_l)
            (λ e. Absent-head l ys f after before.0 (sym e)),
        (
          (
            best_after f s false best (ne→== l f before.0),
            left _ _ z s f (xs ++ ys) (All-append (IsLevel b) (f ∷ xs) ys live_before live_after)
                (Distinct-without (f ∷ xs) l ys distinct) absent
                (Chain-without next prev f xs l ys f distinct distinct.0 levels.ring),
          ),
          freed_level (unlisted b (moved_to s).bids (moved_to s).asks z l s) (price_to_index price)
              l,
          refl,
          refl,
          refl,
          refl,
        ),
      )

  -- `removePriceLevel` of a level of its side returns: the side has the other levels, in the same order, and the
  -- level is out of the index and its block free; orders and client map stay as they were.
  pub remove_price_level-Delisted :
      (before after : List ℕ)
      → HasLevels b side (before ++ l ∷ after)
      → (b' : Book) × (remove_price_level side price b ≡ ok (tt, b'))
        × Delisted b side price l (before ++ after) b'
  remove_price_level-Delisted [] [] has = only_level has
  remove_price_level-Delisted [] (y ∷ ys) has = first_level y ys has
  remove_price_level-Delisted (f ∷ xs) after has = later_level f xs after has
