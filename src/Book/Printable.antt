-- ===== src/Book/Printable.antt =====
-- When `OrderBook::toString` comes to an end: the rings of levels and of orders close, and what their links
-- lead to is there.
use hft_sys.Common.{
  ℕ, zero, suc, ◌≡◌, refl, subst, ◌⊎◌, inl, inr, Option, none, some, Bool, true, false, not, ◌&&◌,
  if◌then◌else◌, Result, ok, fail, ◌>>=◌,
}
use hft_sys.Common.Int.{ℤ}
use hft_sys.Text.{Text}
use hft_sys.Exchange.{Order, OrdersAtPrice, Side}
use hft_sys.Book.{Book, same_pointer}
use hft_sys.Book.Printing.{
  Printed, text, thrown, order_of, level_of, market_id_of, price_of, order_to_str,
  first_order_to_str, level_to_str, sum_orders, list_orders, print_level, is_sorted, not_sorted,
  print_levels, print_side, print_bids, book_to_string,
}
use hft_sys.Book.Sorted.{next_in_ring, Decides, SidesSorted, book_to_string-Decides}

abbrev pub Returns : {A : Type 0} → Result A → Type 0
Returns {A} r = (v : A) × (r ≡ ok v)

Returns-bind :
    {A B : Type 0} (m : Result A) (f : A → Result B)
    → Returns m
    → ((a : A) → m ≡ ok a → Returns (f a))
    → Returns (m >>= f)
Returns-bind (ok a) f h k = k a refl
Returns-bind (fail e) f (v, h) k = absurd cc

Returns-if :
    {A : Type 0} (t : Bool) (r s : Result A) → Returns r → Returns s → Returns (if t then r else s)
Returns-if true r s h k = h
Returns-if false r s h k = k

-- The order at `p` can be printed.
abbrev pub PrintsOrder : Option ℕ → Book → Type 0
PrintsOrder p b =
    (o : Order) × (order_of p b ≡ ok o)
    × Returns (market_id_of o.prev b)
    × Returns (market_id_of o.next b)

-- The orders from `p` along `next` can be printed, and the ring is closed within `fuel` of them.
abbrev pub OrdersClose : ℕ → Option ℕ → Option ℕ → Book → Type 0
OrdersClose zero first p b = ⊥
OrdersClose (suc fuel) first p b =
    (h : PrintsOrder p b) × ((same_pointer h.0.next first ≡ true)
      ⊎ OrdersClose fuel first h.0.next b)

abbrev pub PrintsLevel : OrdersAtPrice → Book → Type 0
PrintsLevel l b =
    OrdersClose b.order_pool.size l.order0 l.order0 b
    × PrintsOrder l.order0 b
    × Returns (level_of l.prev b)
    × Returns (level_of l.next b)

-- The same for the levels of a side.
abbrev pub LevelsClose : ℕ → Option ℕ → Option ℕ → Book → Type 0
LevelsClose fuel first none b = Unit
LevelsClose zero first (some p) b = ⊥
LevelsClose (suc fuel) first (some p) b =
    (l : OrdersAtPrice) × (level_of (some p) b ≡ ok l)
    × PrintsLevel l b
    × LevelsClose fuel first (next_in_ring first l) b

pub record IsPrintable (b : Book) : Type 0 where
  pub asks_close : LevelsClose b.level_pool.size b.asks b.asks b
  pub bids_close : LevelsClose b.level_pool.size b.bids b.bids b

-- The last round of a loop, or one more.
Returns-last :
    {A : Type 0} (t : Bool) (v : A) (rest : Result A)
    → (t ≡ true) ⊎ Returns rest
    → Returns (if t then ok v else rest)
Returns-last true v rest h = (v, refl)
Returns-last false v rest (inl e) = absurd cc
Returns-last false v rest (inr h) = h

module _ (b : Book) (first : Option ℕ) where
  sum_orders-Returns :
      (fuel : ℕ) (p : Option ℕ) (total count : ℕ)
      → OrdersClose fuel first p b
      → Returns (sum_orders fuel first p total count b)
  unfolding sum_orders
  sum_orders-Returns zero p total count h = absurd h
  sum_orders-Returns (suc fuel) p total count ((o, e, prev, next), closes) = rw (e) (
      Returns-last (same_pointer o.next first) _ _
        (elim closes [ inl k ↦ inl k | inr k ↦ inr (sum_orders-Returns fuel o.next _ _ k) ]))

  list_orders-Returns :
      (fuel : ℕ) (p : Option ℕ) (out : Text)
      → OrdersClose fuel first p b
      → Returns (list_orders fuel first p out b)
  unfolding list_orders
  list_orders-Returns zero p out h = absurd h
  list_orders-Returns (suc fuel) p out ((o, e, prev, next), closes) =
      rw (e, prev.1, next.1)
        (Returns-last (same_pointer o.next first) _ _
          (elim closes [ inl k ↦ inl k | inr k ↦ inr (list_orders-Returns fuel o.next _ k) ]))

module _ (b : Book) where
  print_level-Returns :
      (is_detailed : Bool) (l : OrdersAtPrice)
      → PrintsLevel l b
      → Returns (print_level is_detailed l b)
  unfolding print_level
  print_level-Returns is_detailed l (orders, order0, prev, next) =
      Returns-bind (sum_orders b.order_pool.size l.order0 l.order0 0 0 b) _
        (sum_orders-Returns b l.order0 b.order_pool.size l.order0 0 0 orders)
        λ totals _.
          rw (prev.1, next.1)
            (Returns-if is_detailed _ _
              (list_orders-Returns b l.order0 b.order_pool.size l.order0 _ orders) (_, refl))

  price_of-Returns : (p : Option ℕ) → Returns (level_of p b) → Returns (price_of p b)
  unfolding price_of
  price_of-Returns none h = (_, refl)
  price_of-Returns (some p) h = Returns-bind (level_of (some p) b) _ h (λ l _. (_, refl))

  first_order_to_str-Returns : (p : Option ℕ) → PrintsOrder p b → Returns (first_order_to_str p b)
  unfolding first_order_to_str order_to_str
  first_order_to_str-Returns none h = (_, refl)
  first_order_to_str-Returns (some p) (o, e, prev, next) = rw (e, prev.1, next.1) (_, refl)

  not_sorted-Returns :
      (last : ℤ) (l : OrdersAtPrice) → PrintsLevel l b → Returns (not_sorted last l b)
  unfolding not_sorted level_to_str
  not_sorted-Returns last l (orders, order0, prev, next) =
      Returns-bind (level_to_str l b) _
        (Returns-bind (first_order_to_str l.order0 b) _ (first_order_to_str-Returns l.order0 order0)
          λ t _. Returns-bind (price_of l.prev b) _ (price_of-Returns l.prev prev) λ q _.
            Returns-bind (price_of l.next b) _ (price_of-Returns l.next next) λ q' _. (_, refl))
        (λ t _. (_, refl))

  print_levels-Returns :
      (fuel : ℕ) (side : Side) (name : Text) (is_detailed has_check : Bool) (first p : Option ℕ)
      (last : ℤ) (count : ℕ) (out : Text)
      → LevelsClose fuel first p b
      → Returns (print_levels fuel side name is_detailed has_check first p last count out b)
  unfolding print_levels
  print_levels-Returns zero side name d c first none last count out h = (_, refl)
  print_levels-Returns (suc fuel) side name d c first none last count out h = (_, refl)
  print_levels-Returns zero side name d c first (some p) last count out h = absurd h
  print_levels-Returns (suc fuel) side name d c first (some p) last count out (l, e, prints, rest) =
      rw (e) (
        Returns-bind (print_level d l b) _ (print_level-Returns d l prints) λ printed _.
          Returns-if (c && not (is_sorted side last l.price)) _ _ (not_sorted-Returns last l prints)
            (print_levels-Returns fuel side name d c first (next_in_ring first l) _ _ _ rest))

  print_side-Returns :
      (side : Side) (name empty : Text) (start : ℤ) (is_detailed has_check : Bool) (best : Option ℕ)
      (out : Text)
      → LevelsClose b.level_pool.size best best b
      → Returns (print_side side name empty start is_detailed has_check best out b)
  unfolding print_side
  print_side-Returns side name empty start d c none out h = (_, refl)
  print_side-Returns side name empty start d c (some p) out h =
      print_levels-Returns b.level_pool.size side name d c (some p) (some p) start 0 out h

  print_bids-Returns :
      (is_detailed has_check : Bool) (r : Printed)
      → IsPrintable b
      → Returns (print_bids is_detailed has_check b r)
  unfolding print_bids
  print_bids-Returns d c (thrown e) h = (_, refl)
  print_bids-Returns d c (text out) h = print_side-Returns Side.buy _ _ _ d c b.bids _ h.bids_close

  pub book_to_string-Returns :
      (is_detailed has_check : Bool)
      → IsPrintable b
      → Returns (book_to_string is_detailed has_check b)
  unfolding book_to_string
  book_to_string-Returns d c h =
      Returns-bind (print_side Side.sell _ _ _ d c b.asks _ b) _
        (print_side-Returns Side.sell _ _ _ d c b.asks _ h.asks_close)
        (λ r _. print_bids-Returns d c r h)

-- How the check of `S` ends.
abbrev pub Tells : Type 0 → Result Printed → Type 0
Tells S r = (S × ((t : Text) × (r ≡ ok (text t)))) ⊎ (¬ S × ((t : Text) × (r ≡ ok (thrown t))))

-- `toString` with the validity check on a book whose rings close and whose links lead to live orders and
-- levels: if along the ring the prices of the asks rise from above the least 64-bit price and those of the bids fall
-- from below the greatest one, from the best level on, it returns a text, and otherwise it throws.
pub book_to_string-Tells :
    (is_detailed : Bool) (b : Book)
    → IsPrintable b
    → Tells (SidesSorted b) (book_to_string is_detailed true b)
book_to_string-Tells is_detailed b h =
    let (printed, e) = book_to_string-Returns b is_detailed true h in
    told printed e (subst (Decides (SidesSorted b)) e (book_to_string-Decides is_detailed b))
  where
    told :
        (printed : Printed)
        → book_to_string is_detailed true b ≡ ok printed
        → Decides (SidesSorted b) (ok printed)
        → Tells (SidesSorted b) (book_to_string is_detailed true b)
    told (text t) e d = inl (d, (t, e))
    told (thrown t) e d = inr (d, (t, e))
