-- ===== src/Book/Exhausted.antt =====
-- `addOrder` without a free block for the order.
use hft_sys.Common.{
  ℕ, suc, ◌<◌, ◌≡◌, ◌⊎◌, refl, ap, ◌∙◌, inl, inr, Bool, true, false, Option, none, some, arith,
  Result, ok, fail, undefined, ◌==◌, if◌then◌else◌, Bool-cases,
}
use hft_sys.Common.Int.{ℤ}
use hft_sys.Pool.{allocate}
use hft_sys.Pool.Access.{get-cases, get-Live}
use hft_sys.Exchange.{Order, Side, is_buy, is_sell}
use hft_sys.Book.{Book, M, pure, ◌>>=◌, order_at, level_at, allocate_order, get_new_market_order_id}
use hft_sys.Book.Access.{order_at-cases, bind-ok}
use hft_sys.Book.Levels.{get_next_priority, get_level_for_price, priority_behind, price_to_index}
use hft_sys.Book.Orders.{add_order_to_book}
use hft_sys.Book.Match.{match_loop, match_best, find_match, other_side}
use hft_sys.Book.Handlers.{rest_order, add_order}

-- A method that only reads: it leaves the book as it is, or its read is undefined.
abbrev Reads : {A : Type 0} → M A → Type 0
Reads {A} m = (b : Book) → ((a : A) × (m b ≡ ok (a, b))) ⊎ (m b ≡ fail undefined)

bind-fail :
    {A B : Type 0} (m : M A) (f : A → M B) (b : Book)
    → m b ≡ fail undefined
    → (m >>= f) b ≡ fail undefined
bind-fail m f b e = ap (λ r. elim r [ fail x ↦ fail x | ok (a, c) ↦ f a c ]) e

Reads-bind :
    {A B : Type 0} (m : M A) (f : A → M B) → Reads m → ((a : A) → Reads (f a)) → Reads (m >>= f)
Reads-bind m f h k b = elim (h b) [
  | inr e ↦ inr (bind-fail m f b e)
  | inl (a, e) ↦ elim (k a b) [
    | inl (v, e') ↦ inl (v, bind-ok m f b e ∙ e')
    | inr e' ↦ inr (bind-ok m f b e ∙ e')
  ]
]

order_at-Reads : (p : Option ℕ) → Reads (order_at p)
order_at-Reads p b = elim (order_at-cases p b) [ inl e ↦ inr e | inr (i, o, _, _, e) ↦ inl (o, e) ]

level_at-Reads : (p : Option ℕ) → Reads (level_at p)
unfolding level_at
level_at-Reads none b = inr refl
level_at-Reads (some p) b = elim (get-cases b.level_pool p) [
  | inl e ↦ inr (ground (arith, e))
  | inr (l, live) ↦ inl (l, ground (arith, get-Live live))
]

priority_behind-Reads : (found : Option ℕ) → Reads (priority_behind found)
unfolding priority_behind
priority_behind-Reads none b = inl (1, refl)
priority_behind-Reads (some p) b =
    (Reads-bind (level_at (some p)) _ (level_at-Reads (some p)) λ level.
        Reads-bind (order_at level.order0) _ (order_at-Reads level.order0) λ first.
          Reads-bind (order_at first.prev) _ (order_at-Reads first.prev) λ last c. inl (_, refl))
      b

get_next_priority-Reads : (price : ℤ) → Reads (get_next_priority price)
unfolding get_next_priority get_level_for_price
get_next_priority-Reads price b = priority_behind-Reads (b.price_levels (price_to_index price)) b

-- Without a free block `allocate` returns null.
allocate_order-null :
    (o : Order) (b : Book) → b.order_pool.free_count ≡ 0 → allocate_order o b ≡ ok (none, b)
unfolding allocate_order allocate
allocate_order-null o b full = rw (full) refl

rest_order-undefined :
    (client oid ticker : ℕ) (side : Side) (price : ℤ) (qty market_oid : ℕ) (b : Book)
    → b.order_pool.free_count ≡ 0
    → rest_order client oid ticker side price qty market_oid b ≡ fail undefined
unfolding rest_order add_order_to_book order_at
rest_order-undefined client oid ticker side price qty market_oid b full =
    elim (get_next_priority-Reads price b) [
      | inr e ↦ bind-fail (get_next_priority price) _ b e
      | inl (priority, e) ↦
          bind-ok (get_next_priority price) _ b e
          ∙ bind-ok (allocate_order _) _ b (allocate_order-null _ b full)
    ]

module _ (word_below : Book → ℕ → Option ℕ) (client oid ticker : ℕ) (side : Side) (price : ℤ)
    (qty : ℕ) where
  match_loop-nothing :
      (fuel market_oid : ℕ) (b : Book)
      → other_side side b ≡ none
      → match_loop word_below (suc fuel) client oid ticker side price qty market_oid b ≡ ok (qty, b)
  unfolding match_loop match_best
  match_loop-nothing fuel market_oid b e = elim (Bool-cases (qty == 0)) [
    | inl h ↦ rw (h) refl
    | inr h ↦ rw (h, e) refl
  ]

  find_match-nothing :
      (fuel market_oid : ℕ) (b : Book)
      → other_side side b ≡ none
      → find_match word_below (suc fuel) client oid ticker side price qty market_oid b ≡ ok (qty, b)
  unfolding find_match
  find_match-nothing fuel market_oid b e =
      sided (is_buy side) (is_sell side) (match_loop-nothing fuel market_oid b e)
    where
      sided :
          (t u : Bool) {r : Result (ℕ × Book)}
          → r ≡ ok (qty, b)
          → (if t then r else if u then r else ok (qty, b)) ≡ ok (qty, b)
      sided true u h = h
      sided false true h = h
      sided false false h = refl

  -- `addOrder` of a quantity that is not 0, when the other side of the book is empty and the pool of orders has
  -- no free block, dereferences a null pointer: the result of `allocate` is not looked at.
  pub add_order-undefined :
      (fuel : ℕ) (b : Book)
      → 0 < qty
      → other_side side b ≡ none
      → b.order_pool.free_count ≡ 0
      → add_order word_below (suc fuel) client oid ticker side price qty b ≡ fail undefined
  unfolding add_order get_new_market_order_id
  add_order-undefined fuel b pos nothing full =
      bind-ok (find_match word_below (suc fuel) client oid ticker side price qty b.next_market_oid)
        _ _ (find_match-nothing fuel b.next_market_oid _ nothing)
      ∙ rested (qty == 0) _ full refl
    where
      rested :
          (t : Bool) (c : Book)
          → c.order_pool.free_count ≡ 0
          → (qty == 0) ≡ t
          → (if t then pure tt else rest_order client oid ticker side price qty b.next_market_oid) c
            ≡ fail undefined
      rested true c empty e = absurd (ground arith)
      rested false c empty e =
          rest_order-undefined client oid ticker side price qty b.next_market_oid c empty
