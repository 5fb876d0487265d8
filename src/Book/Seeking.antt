-- ===== src/Book/Seeking.antt =====
-- The walk of `addPriceLevel` along the ring of levels.
use hft_sys.Common.{
  ℕ, zero, suc, ◌≤◌, ◌≡◌, refl, sym, ap, ◌∙◌, Option, some, none, List, [], ◌∷◌, All, ok, Bool,
  true, false, ◌&&◌, not, if◌then◌else◌, ◌==◌, ne→==, ==_self, arith, length, Option-cases, inl,
  inr,
}
use hft_sys.Common.Int.{ℤ, pos}
use hft_sys.Common.Ring.{Link, Chain, Absent}
use hft_sys.Pool.Linked.{linked}
use hft_sys.Pool.Access.{Live}
use hft_sys.Exchange.{OrdersAtPrice, Side}
use hft_sys.Book.{Book, M, pure, ◌>>=◌, level_at, same_pointer}
use hft_sys.Book.Access.{bind-ok, level_at-Live}
use hft_sys.Book.Rings.{next_level, prev_level, with_levels}
use hft_sys.Book.LevelRings.{IsLevel}
use hft_sys.Book.Levels.{seek, is_worse}

price_in : Option OrdersAtPrice → ℤ
price_in none = pos 0
price_in (some l) = l.price

-- The price of the level at `i`.
unfoldable pub level_price : Book → ℕ → ℤ
unfolding price_in
level_price b i = price_in (b.level_pool.blocks i)

pub level_price-Live :
    (b : Book) (i : ℕ) (l : OrdersAtPrice) → Live b.level_pool i l → level_price b i ≡ l.price
unfolding level_price
level_price-Live b i l live = let held = live.holds in rw (held) refl

pub level_price-linked :
    (b : Book) (next prev : Link) (i : ℕ)
    → level_price (with_levels b next prev) i ≡ level_price b i
unfolding level_price linked
level_price-linked b next prev i = elim (Option-cases (b.level_pool.blocks i)) [
  | inl e ↦ rw (e) refl
  | inr (l, e) ↦ rw (e) refl
]

next_held :
    (b : Book) (i : ℕ) (l : OrdersAtPrice) (p : Option ℕ)
    → Live b.level_pool i l
    → next_level b i ≡ p
    → l.next ≡ p
unfolding next_level
next_held b i l p live e =
    let held = live.holds in let e' : next_level b i ≡ l.next = rw (held) refl in sym e' ∙ e

-- Where the walk stops among the levels `ys` behind it, with the best level `first`: at the first level
-- that is not better than the new price, or else at the best level again.
abbrev pub stop_at : Book → Side → ℤ → ℕ → List ℕ → Option ℕ × Bool
stop_at b side price first [] = (some first, is_worse side price (level_price b first))
stop_at b side price first (y ∷ ys) =
    if is_worse side price (level_price b y) then stop_at b side price first ys else (some y, false)

module _ (b : Book) (side : Side) (price : ℤ) (first : ℕ) where
  step_of :
      (fuel t y : ℕ)
      → IsLevel b t
      → IsLevel b y
      → next_level b t ≡ some y
      → seek (suc fuel) side price (some first) (some t) b
        ≡ (if is_worse side price (level_price b y) && not (y == first)
              then seek fuel side price (some first) (some y)
              else pure (some y, is_worse side price (level_price b y)))
            b
  unfolding seek
  step_of fuel t y (lt, t_live) (ly, y_live) to =
      let e = next_held b t lt (some y) t_live to in
      bind-ok (level_at (some t)) _ b (level_at-Live t_live)
      ∙ ap
          (λ p.
            (level_at p >>= λ l.
            if is_worse side price l.price && not (same_pointer p (some first))
            then seek fuel side price (some first) p
            else pure (p, is_worse side price l.price))
              b)
          e
      ∙ bind-ok (level_at (some y)) _ b (level_at-Live y_live)
      ∙ ap
          (λ v.
            (if is_worse side price v && not (y == first)
                then seek fuel side price (some first) (some y)
                else pure (some y, is_worse side price v))
              b)
          (sym (level_price-Live b y ly y_live))

  closing :
      (t : Bool) (m : M (Option ℕ × Bool)) (v : Option ℕ × Bool)
      → (if t && not (first == first) then m else pure v) b ≡ ok (v, b)
  closing t m v = rw (==_self first) (stays t)
    where
      stays : (t : Bool) → (if t && false then m else pure v) b ≡ ok (v, b)
      stays true = refl
      stays false = refl

  -- The walk behind `t`, with the levels `ys` to come.
  pub seek-stop_at :
      (fuel t : ℕ) (ys : List ℕ)
      → IsLevel b first
      → IsLevel b t
      → All (IsLevel b) ys
      → Absent first ys
      → Chain (next_level b) (prev_level b) t ys first
      → length ys ≤ fuel
      → seek (suc fuel) side price (some first) (some t) b ≡ ok (stop_at b side price first ys, b)
  seek-stop_at fuel t [] f_live t_live live absent c enough =
      step_of fuel t first t_live f_live c.0
      ∙ closing (is_worse side price (level_price b first))
          (seek fuel side price (some first) (some first)) (some first, _)
  seek-stop_at zero t (y ∷ ys) f_live t_live live absent c enough = absurd (omega arith)
  seek-stop_at (suc fuel) t (y ∷ ys) f_live t_live live absent c enough =
      step_of (suc fuel) t y t_live live.0 c.0
      ∙ stepped (is_worse side price (level_price b y))
          (seek-stop_at fuel y ys f_live live.0 live.1 absent.1 c.2 (omega arith))
    where
      stepped :
          (t : Bool)
          → seek (suc fuel) side price (some first) (some y) b
            ≡ ok (stop_at b side price first ys, b)
          → (if t && not (y == first)
                then seek (suc fuel) side price (some first) (some y)
                else pure (some y, t))
              b
            ≡ ok (if t then stop_at b side price first ys else (some y, false), b)
      stepped true h = rw (ne→== y first (λ e. absent.0 (sym e))) h
      stepped false h = refl
