-- ===== src/Book/Placing.antt =====
-- `addPriceLevel` puts the new level where Book/Inserting says.
use hft_sys.Common.{
  ℕ, ◌≡◌, ◌≢◌, refl, sym, ap, ◌∙◌, some, List, [], ◌∷◌, ◌++◌, All, All-append, All-left, All-right,
  ok, Bool, true, false, if◌then◌else◌,
}
use hft_sys.Common.Int.{ℤ}
use hft_sys.Common.Ring.{Link, Chain, Chain-split, Absent, Absent-right, Distinct, last, prev-last}
use hft_sys.Common.Ring.Splice.{
  Chain-snoc, Chain-before, Distinct-with, next-head, first as head_of,
}
use hft_sys.Pool.Access.{Live}
use hft_sys.Exchange.{OrdersAtPrice, Side}
use hft_sys.Book.{Book, M, pure, ◌>>=◌, ◌>>◌, level_at, best_of, set_best}
use hft_sys.Book.Access.{bind-ok}
use hft_sys.Book.Rings.{with_levels, with_levels_self, next_level, prev_level, read_level}
use hft_sys.Book.Queue.{appended_next, appended_prev}
use hft_sys.Book.LevelRings.{
  IsLevel, LevelRing, LevelRing-linked, insert_before-linked, insert_after-linked,
}
use hft_sys.Book.Seeking.{level_price, level_price-Live}
use hft_sys.Book.Contents.{SameContents, SameContents-linked, SameContents-best, SameContents-trans}
use hft_sys.Book.Inserting.{IsTraded, better, not_better, HasLevels}
use hft_sys.Book.Levels.{is_worse, is_better, place_before, insert_before, insert_after}

pub head_of-IsLevel :
    (b : Book) (xs : List ℕ) (e : ℕ) → All (IsLevel b) xs → IsLevel b e → IsLevel b (head_of xs e)
head_of-IsLevel b [] e h k = k
head_of-IsLevel b (x ∷ xs) e h k = h.0

pub last-IsLevel :
    (b : Book) (a : ℕ) (xs : List ℕ) → All (IsLevel b) (a ∷ xs) → IsLevel b (last a xs)
last-IsLevel b a [] h = h.0
last-IsLevel b a (x ∷ xs) h = last-IsLevel b x xs h.1

-- The best level of a side becomes the first of a ring.
set_best-HasLevels :
    (side : Side) (b : Book) (n : ℕ) (rest : List ℕ)
    → IsTraded side
    → LevelRing b n rest
    → (b' : Book) × (set_best side (some n) b ≡ ok (tt, b'))
      × HasLevels b' side (n ∷ rest)
      × SameContents b b'
unfolding next_level prev_level
set_best-HasLevels Side.buy b n rest t r = (
  _,
  refl,
  (refl, record { live = r.live; distinct = r.distinct; ring = r.ring }),
  SameContents-best b (some n) b.asks,
)
set_best-HasLevels Side.sell b n rest t r = (
  _,
  refl,
  (refl, record { live = r.live; distinct = r.distinct; ring = r.ring }),
  SameContents-best b b.bids (some n),
)
set_best-HasLevels Side.invalid b n rest t r = absurd t
set_best-HasLevels (Side.other _) b n rest t r = absurd t

module _ (next prev : Link) (first n : ℕ) where
  -- A new node behind the first one of a ring.
  second-ring :
      (rest : List ℕ)
      → Distinct (first ∷ rest)
      → Absent n (first ∷ rest)
      → Chain next prev first rest first
      → Chain
          (appended_next next (head_of rest first) first n)
          (appended_prev prev (head_of rest first) first n)
          first
          (n ∷ rest)
          first
  second-ring [] d h c = Chain-snoc next prev first [] first n d h tt h.0 c
  second-ring (y ∷ ys) d h c = Chain-before next prev first [] n y ys first d h d.0 h.0 c

  -- A new node before the first one, from the new node on.
  front-ring :
      (rest : List ℕ)
      → Distinct (first ∷ rest)
      → Absent n (first ∷ rest)
      → Chain next prev first rest first
      → Chain
          (appended_next next first (last first rest) n)
          (appended_prev prev first (last first rest) n)
          n
          (first ∷ rest)
          n
  front-ring rest d h c =
      let (to_n, from_n) =
        Chain-split _ _ first rest n [] first
          (Chain-snoc next prev first rest first n d h d.0 h.0 c) in
      (from_n.0, from_n.1, to_n)

-- `insertBefore` the level `s`, and what becomes of the best one.
place_before-links :
    (b : Book) (side : Side) (price : ℤ) (first z n s : ℕ) (level : OrdersAtPrice)
    → IsLevel b z
    → Live b.level_pool n level
    → IsLevel b s
    → IsLevel b first
    → prev_level b s ≡ some z
    → n ≢ s
    → (t : Bool) → is_better side price (level_price b first) ≡ t
    → place_before (some n) side price (some first) (some s) b
      ≡ (if t then set_best side (some n) else pure tt)
          (with_levels b (appended_next (next_level b) s z n) (appended_prev (prev_level b) s z n))
unfolding place_before
place_before-links b side price first z n s level (lz, z_live) live (ls, s_live) (lf, f_live) from
      new t e =
    let next' = appended_next (next_level b) s z n in
    let prev' = appended_prev (prev_level b) s z n in
    ap
      (λ c.
        (insert_before (some n) (some s) >> (do
          x ← level_at (some first)
          if is_better side price x.price then set_best side (some n) else pure tt))
          c)
      (sym (with_levels_self b))
    ∙ bind-ok (insert_before (some n) (some s)) _ _ (
        insert_before-linked b (next_level b) (prev_level b) z n s lz level ls z_live live s_live
          from new)
    ∙ bind-ok (level_at (some first)) _ _
        (read_level b next' prev' (some first) first lf refl f_live)
    ∙ ap (λ (u : Bool). (if u then set_best side (some n) else pure tt) (with_levels b next' prev'))
        (ap (λ v. is_better side price v) (sym (level_price-Live b first lf f_live)) ∙ e)

module _ (b : Book) (first : ℕ) (rest : List ℕ) (n : ℕ) (level : OrdersAtPrice)
    (levels : LevelRing b first rest) (live : Live b.level_pool n level)
    (new : Absent n (first ∷ rest)) (best : best_of level.side b ≡ some first) where
  -- The book with the links of a ring of `orders`, put in place by a method that returns.
  abbrev pub Placed : List ℕ → M (Unit {0}) → Type 0
  Placed orders m =
      (b' : Book) × (m b ≡ ok (tt, b')) × HasLevels b' level.side orders × SameContents b b'

  pub behind_best : Placed (first ∷ n ∷ rest) (insert_after (some n) (some first))
  behind_best =
      let (lz, z_live) = levels.live.0 in
      let s = head_of rest first in
      let (ls, s_live) = head_of-IsLevel b rest first levels.live.1 levels.live.0 in
      (
        with_levels b (appended_next (next_level b) s first n)
            (appended_prev (prev_level b) s first n),
        ap (λ c. insert_after (some n) (some first) c) (sym (with_levels_self b))
            ∙ insert_after-linked b (next_level b) (prev_level b) first n s lz level ls z_live live
                s_live (next-head (next_level b) (prev_level b) first rest first levels.ring) new.0,
        (
          best,
          LevelRing-linked b _ _ first (n ∷ rest) (levels.live.0, ((level, live), levels.live.1))
              (((λ e. new.0 (sym e)), levels.distinct.0), (new.1, levels.distinct.1))
              (second-ring (next_level b) (prev_level b) first n rest levels.distinct new
                levels.ring),
        ),
        SameContents-linked b _ _,
      )

  -- In front of the best level, which the new one replaces.
  pub in_front :
      IsTraded level.side
      → level.price ≢ level_price b first
      → is_worse level.side level.price (level_price b first) ≡ false
      → Placed
          (n ∷ first ∷ rest)
          (place_before (some n) level.side level.price (some first) (some first))
  in_front traded unequal fits =
      let z = last first rest in
      let (b', set, has, same) =
        set_best-HasLevels level.side
          (with_levels b (appended_next (next_level b) first z n)
            (appended_prev (prev_level b) first z n))
          n (first ∷ rest) traded
          (LevelRing-linked b _ _ n (first ∷ rest) ((level, live), levels.live)
            (new, levels.distinct)
            (front-ring (next_level b) (prev_level b) first n rest levels.distinct new
              levels.ring)) in
      (
        b',
        place_before-links b level.side level.price first z n first level
              (last-IsLevel b first rest levels.live) live levels.live.0 levels.live.0
              (prev-last (next_level b) (prev_level b) first rest first levels.ring) new.0 true
              (better level.side level.price (level_price b first) traded unequal fits)
            ∙ set,
        has,
        SameContents-trans b _ b' (SameContents-linked b _ _) same,
      )

-- Between two levels behind the best one.
pub between :
    (b : Book) (first : ℕ) (us : List ℕ) (y : ℕ) (vs : List ℕ) (n : ℕ) (level : OrdersAtPrice)
    → LevelRing b first (us ++ y ∷ vs)
    → Live b.level_pool n level
    → Absent n (first ∷ (us ++ y ∷ vs))
    → best_of level.side b ≡ some first
    → is_worse level.side level.price (level_price b first) ≡ true
    → (b' : Book) × (place_before (some n) level.side level.price (some first) (some y) b
        ≡ ok (tt, b'))
      × HasLevels b' level.side (first ∷ (us ++ n ∷ y ∷ vs))
      × SameContents b b'
between b first us y vs n level levels live new best behind =
    let all = levels.live in
    let distinct = levels.distinct in
    let z = last first us in
    let before = All-left (IsLevel b) (first ∷ us) (y ∷ vs) all in
    let after = All-right (IsLevel b) us (y ∷ vs) all.1 in
    let (to_y, from_y) =
      Chain-split (next_level b) (prev_level b) first us y vs first levels.ring in
    (
      with_levels b (appended_next (next_level b) y z n) (appended_prev (prev_level b) y z n),
      place_before-links b level.side level.price first z n y level (last-IsLevel b first us before)
          live after.0 all.0 (prev-last (next_level b) (prev_level b) first us y to_y)
          (Absent-right n us (y ∷ vs) new.1).0 false
          (not_better level.side level.price (level_price b first) behind),
      (
        best,
        LevelRing-linked b _ _ first (us ++ n ∷ y ∷ vs)
            (all.0, All-append (IsLevel b) us (n ∷ y ∷ vs) before.1 ((level, live), after))
            (Distinct-with (first ∷ us) n (y ∷ vs) distinct new)
            (Chain-before (next_level b) (prev_level b) first us n y vs first distinct new
              distinct.0 new.0 levels.ring),
      ),
      SameContents-linked b _ _,
    )
