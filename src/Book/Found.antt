-- ===== src/Book/Found.antt =====
-- What `addOrder` enters into the client map.
use hft_sys.Common.{
  ℕ, ◌<◌, ◌≡◌, refl, sym, ap, ◌∙◌, subst, Bool, true, false, Option, none, some, arith, undefined,
  update, update_self, ◌⊎◌, ℕ_discrete, update_ne, inl, inr, Result, ok, fail, if◌then◌else◌, ◌==◌,
}
use hft_sys.Common.Int.{ℤ}
use hft_sys.Pool.{Pool, allocate}
use hft_sys.Pool.Access.{Allocates, allocate-Allocates}
use hft_sys.Exchange.{Order, Side}
use hft_sys.Book.{
  Book, pure, ◌>>◌, order_at, set_client_order, allocate_order, get_new_market_order_id,
}
use hft_sys.Book.Access.{set_client_order-cases}
use hft_sys.Book.Levels.{get_next_priority, get_level_for_price, price_to_index}
use hft_sys.Book.Orders.{add_order_to_book, join_level}
use hft_sys.Book.Match.{find_match}
use hft_sys.Book.Handlers.{rest_order, add_order}
use hft_sys.Book.Keeps.{Ends, Ends-of_fail, Ends-of_ok, Ends-bind, Property, IsLinkFree}
use hft_sys.Book.Links.{Keeps-join_level}
use hft_sys.Book.Weight.{weight}
use hft_sys.Book.Resting.{AnyFault, any-Ends, find_match-any}
use hft_sys.Book.Entries.{any_fault, read_order-Ends}

-- The block `n` holds an order of the client and the id, with the quantity.
abbrev pub Rests : ℕ → ℕ → ℕ → ℕ → Property
Rests n client oid qty q c =
    (x : Order) × (q.blocks n ≡ some x)
    × (x.client_id ≡ client)
    × (x.client_order_id ≡ oid)
    × (x.qty ≡ qty)

Rests-IsLinkFree : (n client oid qty : ℕ) → IsLinkFree (Rests n client oid qty)
Rests-IsLinkFree n client oid qty q c p o o' in_pool holds same (x, h, k1, k2, k3) =
    elim (ℕ_discrete n p) [
      | yes here ↦
          let eq : o ≡ x = grind arith in
          (
            o',
            subst (λ i. update q.blocks p (some o') i ≡ some o') (sym here)
                (update_self q.blocks p (some o')),
            same.client ∙ ap (λ y. y.client_id) eq ∙ k1,
            same.oid ∙ ap (λ y. y.client_order_id) eq ∙ k2,
            same.qty ∙ ap (λ y. y.qty) eq ∙ k3,
          )
      | no away ↦ (x, update_ne q.blocks p (some o') n away ∙ h, k1, k2, k3)
    ]

-- The map leads from the client and the id to such an order.
abbrev pub IsFound : ℕ → ℕ → ℕ → Unit {0} → Book → Type 0
IsFound client oid qty _ b =
    (n : ℕ) × (b.client_orders client oid ≡ some n)
    × Rests n client oid qty b.order_pool b.client_orders

entered-IsFound :
    (n client oid qty : ℕ) (b : Book)
    → Rests n client oid qty b.order_pool b.client_orders
    → Ends AnyFault (IsFound client oid qty) (set_client_order client oid (some n) b)
entered-IsFound n client oid qty b h = elim (set_client_order-cases client oid (some n) b) [
  | inl e ↦
      Ends-of_fail AnyFault (IsFound client oid qty) (set_client_order client oid (some n) b)
        undefined e tt
  | inr e ↦
      Ends-of_ok AnyFault (IsFound client oid qty) (set_client_order client oid (some n) b) e
        (n, ground arith, h)
]

placed-IsFound :
    (n : ℕ) (o : Order) (found : Option ℕ) (b : Book)
    → Rests n o.client_id o.client_order_id o.qty b.order_pool b.client_orders
    → Ends AnyFault
        (IsFound o.client_id o.client_order_id o.qty)
        ((join_level (some n) o found >> set_client_order o.client_id o.client_order_id (some n)) b)
placed-IsFound n o found b h =
    let J = Rests n o.client_id o.client_order_id o.qty in
    Ends-bind AnyFault (IsFound o.client_id o.client_order_id o.qty) (join_level (some n) o found) _
      b
      ((Keeps-join_level AnyFault any_fault (λ _. tt) J
          (Rests-IsLinkFree n o.client_id o.client_order_id o.qty) (some n) o found).apply
        b h)
      λ _ b' h'. entered-IsFound n o.client_id o.client_order_id o.qty b' h'

add_order_to_book-IsFound :
    (n : ℕ) (o : Order) (b : Book)
    → b.order_pool.blocks n ≡ some o
    → Ends AnyFault (IsFound o.client_id o.client_order_id o.qty) (add_order_to_book (some n) b)
unfolding add_order_to_book get_level_for_price
add_order_to_book-IsFound n o b holds =
    let Q = IsFound o.client_id o.client_order_id o.qty in
    Ends-bind AnyFault Q (order_at (some n)) _ b (read_order-Ends (some n) b)
      λ o' b1 (same, (i, at, live)).
        let eq : o' ≡ o = read_same b n o o' i holds at live.holds in
        subst
          (λ x. Ends AnyFault Q (
            (join_level (some n) x (b1.price_levels (price_to_index x.price))
                >> set_client_order x.client_id x.client_order_id (some n))
              b1))
          (sym eq)
          (placed-IsFound n o (b1.price_levels (price_to_index o.price)) b1 (
            subst (λ c. Rests n o.client_id o.client_order_id o.qty c.order_pool c.client_orders)
              (sym same) (o, holds, refl, refl, refl)))
  where
    read_same :
        (b : Book) (n : ℕ) (o o' : Order) (i : ℕ)
        → b.order_pool.blocks n ≡ some o
        → ◌≡◌ {A = Option ℕ} (some n) (some i)
        → b.order_pool.blocks i ≡ some o'
        → o' ≡ o
    read_same b n o o' i h e k = grind arith

-- `allocate` returns null, or a block that holds the order.
allocate_order-Ends :
    (o : Order) (b : Book)
    → Ends AnyFault
        (λ p b'. (p ≡ none) ⊎ ((n : ℕ) × (p ≡ some n) × (b'.order_pool.blocks n ≡ some o)))
        (allocate_order o b)
unfolding allocate_order
allocate_order-Ends o b = taken (allocate o b.order_pool) (allocate-Allocates o b.order_pool)
  where
    taken :
        (r : Result (Option ℕ × Pool Order))
        → Allocates o b.order_pool r
        → Ends AnyFault
            (λ p b'. (p ≡ none) ⊎ ((n : ℕ) × (p ≡ some n) × (b'.order_pool.blocks n ≡ some o)))
            (elim r [ fail e ↦ fail e | ok (p, q) ↦ ok (p, record b { order_pool = q }) ])
    taken (ok (none, q)) h = inl refl
    taken (ok (some n, q)) (free, same) =
        inr (n, refl, ap (λ f. f n) same ∙ update_self b.order_pool.blocks n (some o))
    taken (fail e) h = tt

null_order-Ends :
    (Q : Unit {0} → Book → Type 0) (b : Book) → Ends AnyFault Q (add_order_to_book none b)
unfolding add_order_to_book
null_order-Ends Q b = tt

add_allocated-IsFound :
    (p : Option ℕ) (o : Order) (b : Book)
    → (p ≡ none) ⊎ ((n : ℕ) × (p ≡ some n) × (b.order_pool.blocks n ≡ some o))
    → Ends AnyFault (IsFound o.client_id o.client_order_id o.qty) (add_order_to_book p b)
add_allocated-IsFound p o b (inl null) =
    subst (λ q. Ends AnyFault (IsFound o.client_id o.client_order_id o.qty) (add_order_to_book q b))
      (sym null) (null_order-Ends (IsFound o.client_id o.client_order_id o.qty) b)
add_allocated-IsFound p o b (inr (n, e, holds)) =
    subst (λ q. Ends AnyFault (IsFound o.client_id o.client_order_id o.qty) (add_order_to_book q b))
      (sym e) (add_order_to_book-IsFound n o b holds)

module _ (client oid ticker : ℕ) (side : Side) (price : ℤ) (qty : ℕ) where
  rest_order-IsFound :
      (market_oid : ℕ) (b : Book)
      → Ends AnyFault
          (IsFound client oid qty)
          (rest_order client oid ticker side price qty market_oid b)
  unfolding rest_order
  rest_order-IsFound market_oid b =
      let Q = IsFound client oid qty in
      Ends-bind AnyFault {P = λ _ _. Unit {0}} Q (get_next_priority price) _ b
        (any-Ends (get_next_priority price b))
        λ priority b1 _.
          Ends-bind AnyFault Q (allocate_order _) _ b1 (allocate_order-Ends _ b1) λ p b2 h.
            Ends-bind AnyFault {P = Q} Q (add_order_to_book p) _ b2 (add_allocated-IsFound p _ b2 h)
              λ _ b3 h3. h3

  -- When `addOrder` returns for a quantity that is not 0, the client map leads from the client and its order id
  -- to a live order with this client, this id and the whole of the quantity.
  pub add_order-IsFound :
      (word_below : Book → ℕ → Option ℕ) (fuel : ℕ) (b : Book)
      → weight b.order_pool < fuel
      → 0 < qty
      → Ends AnyFault
          (IsFound client oid qty)
          (add_order word_below fuel client oid ticker side price qty b)
  unfolding add_order get_new_market_order_id
  add_order-IsFound word_below fuel b enough pos =
      Ends-bind AnyFault (IsFound client oid qty)
        (find_match word_below fuel client oid ticker side price qty b.next_market_oid) _ _
        (find_match-any word_below fuel client oid ticker side price qty b.next_market_oid _ enough)
        λ left b' same. rested (left == 0) left b' refl same
    where
      rested :
          (t : Bool) (left : ℕ) (b' : Book)
          → (left == 0) ≡ t
          → left ≡ qty
          → Ends AnyFault (IsFound client oid qty) (
              (if t
                  then pure tt
                  else rest_order client oid ticker side price left b.next_market_oid)
                b')
      rested true left b' e same = absurd (ground arith)
      rested false left b' e same =
          subst
            (λ n.
              Ends AnyFault (IsFound client oid qty)
                (rest_order client oid ticker side price n b.next_market_oid b'))
            (sym same) (rest_order-IsFound b.next_market_oid b')
