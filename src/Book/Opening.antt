-- ===== src/Book/Opening.antt =====
-- The rest of `addOrder` at a price without a level: the order gets a level of its own.
use hft_sys.Common.{
  ℕ, ◌≡◌, ◌≢◌, ◌<◌, refl, sym, ap, ◌∙◌, subst, inl, inr, some, none, List, [], ◌∷◌, All, ok, fail,
  update, update_self, update_ne, arith,
}
use hft_sys.Common.Int.{ℤ}
use hft_sys.Common.Ring.{Absent}
use hft_sys.Pool.{Pool, allocate}
use hft_sys.Pool.Access.{Live}
use hft_sys.Pool.Invariant.{IsValid, Allocated, allocate_lem}
use hft_sys.Exchange.{Order, OrdersAtPrice, Side}
use hft_sys.Book.{Book, set_order, allocate_level}
use hft_sys.Book.Access.{bind-ok}
use hft_sys.Book.Rings.{with_orders, with_orders_self, next_order, prev_order, write_order_links}
use hft_sys.Book.Queue.{OrderRing, OrderRing-linked, HasQueue}
use hft_sys.Book.ElsewhereLevels.{Absent-free_level, LevelRing-elsewhere}
use hft_sys.Book.Seeking.{level_price}
use hft_sys.Book.Contents.{level_head-Live, level_of_head}
use hft_sys.Book.Inserting.{IsTraded, HasLevels, before_worse, inserted}
use hft_sys.Book.Adding.{Unequal, indexed-head, add_price_level-inserted}
use hft_sys.Book.Emptying.{HasLevels-same}
use hft_sys.Book.Levels.{price_to_index}
use hft_sys.Book.Orders.{join_level}

-- The list with the new level depends only on the prices of the levels in it.
before_worse-agree :
    (f g : ℕ → ℤ) (side : Side) (price : ℤ) (n : ℕ) (xs : List ℕ)
    → All (λ i. f i ≡ g i) xs
    → before_worse f side price n xs ≡ before_worse g side price n xs
before_worse-agree f g side price n [] h = refl
before_worse-agree f g side price n (x ∷ xs) h =
    rw (h.0, before_worse-agree f g side price n xs h.1) refl

inserted-agree :
    (f g : ℕ → ℤ) (side : Side) (price : ℤ) (n : ℕ) (xs : List ℕ)
    → All (λ i. f i ≡ g i) xs
    → inserted f side price n xs ≡ inserted g side price n xs
inserted-agree f g side price n [] h = refl
inserted-agree f g side price n (x ∷ xs) h =
    rw (h.0, before_worse-agree f g side price n xs h.1) refl

-- A ring of orders depends on the pool of orders.
OrderRing-pool :
    (b b' : Book) (first : ℕ) (rest : List ℕ)
    → b.order_pool ≡ b'.order_pool
    → OrderRing b first rest
    → OrderRing b' first rest
unfolding next_order prev_order
OrderRing-pool b b' first rest e r =
    subst (λ q. OrderRing (record b' { order_pool = q }) first rest) e
      (record { live = r.live; distinct = r.distinct; ring = r.ring })

-- The order `n` with links to itself.
abbrev pub self_linked : Book → ℕ → Book
self_linked b n =
    with_orders b (update (next_order b) n (some n)) (update (prev_order b) n (some n))

self_linked-ok :
    (b : Book) (n : ℕ) (o : Order)
    → Live b.order_pool n o
    → set_order (some n) (λ x. record x { prev = some n; next = some n }) b
      ≡ ok (tt, self_linked b n)
self_linked-ok b n o live =
    ap (λ c. set_order (some n) (λ x. record x { prev = some n; next = some n }) c)
      (sym (with_orders_self b))
    ∙ write_order_links b (next_order b) (prev_order b) (some n) n o refl live (some n) (some n)

self_linked-ring :
    (b : Book) (n : ℕ) (o : Order) → Live b.order_pool n o → OrderRing (self_linked b n) n []
self_linked-ring b n o live =
    OrderRing-linked b _ _ n [] ((o, live), tt) (tt, tt)
      (update_self (next_order b) n (some n), update_self (prev_order b) n (some n))

allocate_level-ok :
    (l : OrdersAtPrice) (b : Book) (n : ℕ) (q : Pool OrdersAtPrice)
    → allocate l b.level_pool ≡ ok (some n, q)
    → allocate_level l b ≡ ok (some n, record b { level_pool = q })
unfolding allocate_level
allocate_level-ok l b n q e =
    ap (λ r. elim r [ fail x ↦ fail x | ok (p, pool) ↦ ok (p, record b { level_pool = pool }) ]) e

-- Levels of a side when a free block of the pool of levels is filled.
module _ (b : Book) (q : Pool OrdersAtPrice) (k : ℕ) (level : OrdersAtPrice)
    (free : b.level_pool.blocks k ≡ none)
    (stored : q.blocks ≡ update b.level_pool.blocks k (some level))
    (size : q.size ≡ b.level_pool.size) where
  same_away : (i : ℕ) → i ≢ k → q.blocks i ≡ b.level_pool.blocks i
  same_away i away = ap (λ f. f i) stored ∙ update_ne b.level_pool.blocks k (some level) i away

  HasLevels-allocated :
      (side : Side) (xs : List ℕ)
      → HasLevels b side xs
      → HasLevels (record b { level_pool = q }) side xs
  HasLevels-allocated side [] h = h
  HasLevels-allocated side (x ∷ xs) (best, r) = (
    best,
    LevelRing-elsewhere b (record b { level_pool = q }) k same_away size x xs
        (Absent-free_level b k (x ∷ xs) free r.live) r,
  )

  Absent-allocated : (side : Side) (xs : List ℕ) → HasLevels b side xs → Absent k xs
  Absent-allocated side [] h = tt
  Absent-allocated side (x ∷ xs) (best, r) = Absent-free_level b k (x ∷ xs) free r.live

  price-allocated :
      (xs : List ℕ)
      → Absent k xs
      → All (λ i. level_price (record b { level_pool = q }) i ≡ level_price b i) xs
  unfolding level_price
  price-allocated [] h = tt
  price-allocated (x ∷ xs) h =
      ((let e = same_away x (λ s. h.0 (sym s)) in rw (e) refl), price-allocated xs h.1)

  Unequal-allocated :
      (price : ℤ) (xs : List ℕ)
      → Absent k xs
      → Unequal b price xs
      → Unequal (record b { level_pool = q }) price xs
  Unequal-allocated price [] h u = u
  Unequal-allocated price (x ∷ xs) h u = λ e. u (e ∙ (price-allocated (x ∷ xs) h).0)

pub Unequal-orders :
    (b : Book) (q : Pool Order) (price : ℤ) (xs : List ℕ)
    → Unequal b price xs
    → Unequal (record b { order_pool = q }) price xs
unfolding level_price
Unequal-orders b q price [] u = u
Unequal-orders b q price (x ∷ xs) u = u

-- The level `k` with the only order `n` on a side that had `levels`.
pub record Opened (b : Book) (side : Side) (price : ℤ) (levels : List ℕ) (k n : ℕ) (b' : Book)
    : Type 0 where
  pub levels_left : HasLevels b' side (inserted (level_price b) side price k levels)
  pub queue : HasQueue b' k (n ∷ [])
  pub index : b'.price_levels (price_to_index price) ≡ some k

module _ (c : Book) (n : ℕ) (o : Order) (levels : List ℕ) (live : Live c.order_pool n o)
    (traded : IsTraded o.side) (has : HasLevels c o.side levels)
    (unequal : Unequal c o.price levels) (valid : IsValid c.level_pool)
    (room : 0 < c.level_pool.free_count) where
  new_level : OrdersAtPrice
  new_level = record { side = o.side; price = o.price; order0 = some n; prev = none; next = none }

  Allocated-Opened :
      (q : Pool OrdersAtPrice)
      → allocate new_level c.level_pool ≡ ok (some c.level_pool.next_free, q)
      → Allocated new_level c.level_pool q
      → (b' : Book) × (join_level (some n) o none c ≡ ok (tt, b'))
        × Opened c o.side o.price levels c.level_pool.next_free n b'
        × (b'.order_pool ≡ (self_linked c n).order_pool)
        × (b'.client_orders ≡ c.client_orders)
  unfolding join_level new_level level_price
  Allocated-Opened q e got =
      let k = c.level_pool.next_free in
      let c2 = self_linked c n in
      let c3 = record c2 { level_pool = q } in
      let has2 = HasLevels-same c c2.order_pool c.client_orders c.sent o.side levels has in
      let new =
        Absent-allocated c2 q k new_level got.was_free got.stored got.same_size o.side levels
          has2 in
      let k_live : Live q k new_level = record {
        in_pool = subst (λ s. k < s) (sym got.same_size) got.in_pool;
        holds = ap (λ f. f k) got.stored ∙ update_self c.level_pool.blocks k (some new_level);
      } in
      let (b', adds, placed, same) =
        add_price_level-inserted c3 k new_level levels
          (HasLevels-allocated c2 q k new_level got.was_free got.stored got.same_size o.side levels
            has2)
          k_live new traded
          (Unequal-allocated c2 q k new_level got.was_free got.stored got.same_size o.price levels
            new (Unequal-orders c c2.order_pool o.price levels unequal)) in
      let inside : k < b'.level_pool.size =
        subst (λ s. k < s) (sym (same.same_size ∙ got.same_size)) got.in_pool in
      let (level', there, head) = level_of_head b' k n inside (
        same.same_heads k
        ∙ indexed-head c3 (price_to_index o.price) k k
        ∙ level_head-Live c3 k new_level k_live) in
      (
        b',
        bind-ok (set_order (some n) _) _ c (self_linked-ok c n o live)
            ∙ bind-ok (allocate_level new_level) _ c2 (allocate_level-ok new_level c2 k q e)
            ∙ adds,
        record {
          levels_left =
              subst (λ xs. HasLevels b' o.side xs)
                (inserted-agree (level_price c3) (level_price c) o.side o.price k levels (
                  price-allocated c2 q k new_level got.was_free got.stored got.same_size levels
                    new))
                placed;
          queue = (
            level',
            record {
              there = there;
              head = head;
              orders =
                  OrderRing-pool c2 b' n [] (sym same.same_orders) (self_linked-ring c n o live);
            },
          );
          index =
              ap (λ f. f (price_to_index o.price)) same.same_index
              ∙ update_self c.price_levels (price_to_index o.price) (some k);
        },
        same.same_orders,
        same.same_map,
      )

  pub join_level-Opened :
      (b' : Book) × (join_level (some n) o none c ≡ ok (tt, b'))
      × Opened c o.side o.price levels c.level_pool.next_free n b'
      × (b'.order_pool ≡ (self_linked c n).order_pool)
      × (b'.client_orders ≡ c.client_orders)
  join_level-Opened = elim (allocate_lem new_level c.level_pool valid) [
    | inl (full, _) ↦ absurd (omega arith)
    | inr (q, e, got) ↦ Allocated-Opened q e got
  ]
