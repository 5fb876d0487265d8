-- ===== src/Book/Appending.antt =====
-- The rest of `addOrder` where the price has a level: the new order goes to the end of its queue.
use hft_sys.Common.{
  ℕ, ◌≡◌, ◌<◌, inl, inr, refl, sym, ap, ◌∙◌, subst, Option, some, none, List, [], ◌∷◌, ◌++◌, ok,
  fail, update_self, update_ne, add_size, arith,
}
use hft_sys.Common.Int.{ℤ}
use hft_sys.Common.Ring.{Absent, last, prev-last}
use hft_sys.Pool.{Pool, allocate}
use hft_sys.Pool.Access.{Live}
use hft_sys.Pool.Invariant.{IsValid, allocate_lem}
use hft_sys.Exchange.{Order, OrdersAtPrice, Side, max_n_clients, max_order_ids}
use hft_sys.Book.{Book, order_at, level_at, allocate_order}
use hft_sys.Book.Access.{
  bind-ok, order_at-Live, level_at-Live, mapped, set_client_order-ok, mapped_self,
}
use hft_sys.Book.Rings.{next_order, prev_order}
use hft_sys.Book.Queue.{
  IsQueue, appended, append_order-appended, appended-IsQueue, IsQueue-sent, appended-Live,
}
use hft_sys.Book.Elsewhere.{Absent-free, IsQueue-elsewhere}
use hft_sys.Book.Levels.{price_to_index, get_next_priority, priority_behind}
use hft_sys.Book.Orders.{join_level, add_order_to_book}
use hft_sys.Book.Handlers.{rest_order}

add_order_to_book-appended :
    (b : Book) (l : ℕ) (level : OrdersAtPrice) (first : ℕ) (rest : List ℕ) (n : ℕ) (o : Order)
    → IsQueue b l level first rest
    → Live b.order_pool n o
    → Absent n (first ∷ rest)
    → b.price_levels (price_to_index o.price) ≡ some l
    → o.client_id < max_n_clients
    → o.client_order_id < max_order_ids
    → add_order_to_book (some n) b
      ≡ ok (
        tt,
        record (appended b first rest n) {
          client_orders = mapped b o.client_id o.client_order_id (some n);
        },
      )
unfolding add_order_to_book
add_order_to_book-appended b l level first rest n o queue live new at in_clients in_ids =
    bind-ok (order_at (some n)) _ b (order_at-Live live)
    ∙ bind-ok (join_level (some n) o (b.price_levels (price_to_index o.price))) _ b (
        ap (λ p. join_level (some n) o p b) at
        ∙ append_order-appended b l level first rest n o queue live new)
    ∙ set_client_order-ok o.client_id o.client_order_id (some n) (appended b first rest n)
        in_clients in_ids

order_at_lem :
    (p : Option ℕ) (i : ℕ) (o : Order) (b : Book)
    → p ≡ some i
    → Live b.order_pool i o
    → order_at p b ≡ ok (o, b)
order_at_lem p i o b at live = rw (at) (order_at-Live live)

prev_held : (b : Book) (i : ℕ) (o : Order) → Live b.order_pool i o → prev_order b i ≡ o.prev
unfolding prev_order
prev_held b i o live = let held = live.holds in rw (held) refl

pub allocate_order-ok :
    (o : Order) (b : Book) (n : ℕ) (q : Pool Order)
    → allocate o b.order_pool ≡ ok (some n, q)
    → allocate_order o b ≡ ok (some n, record b { order_pool = q })
unfolding allocate_order
allocate_order-ok o b n q e =
    ap (λ r. elim r [ fail x ↦ fail x | ok (p, pool) ↦ ok (p, record b { order_pool = pool }) ]) e

-- What the rest of `addOrder` leaves: the order of the client, at `n`, is the last one of the queue of the
-- level, with the next priority, and the client map leads to it.
pub record Appended (b : Book) (client oid : ℕ) (side : Side) (price : ℤ) (qty : ℕ) (l : ℕ)
    (level : OrdersAtPrice) (first : ℕ) (rest : List ℕ) (priority n : ℕ) (b' : Book) : Type 0 where
  pub was_free : b.order_pool.blocks n ≡ none
  pub queue : IsQueue b' l level first (rest ++ n ∷ [])
  pub order :
      (o : Order) × Live b'.order_pool n o
      × (o.client_id ≡ client)
      × (o.client_order_id ≡ oid)
      × (o.side ≡ side)
      × (o.price ≡ price)
      × (o.qty ≡ qty)
      × (o.priority ≡ add_size priority 1)
  pub listed : b'.client_orders client oid ≡ some n

module _ (client oid ticker : ℕ) (side : Side) (price : ℤ) (qty market_oid : ℕ) (b : Book) (l : ℕ)
    (level : OrdersAtPrice) (first : ℕ) (rest : List ℕ) (z : Order)
    (queue : IsQueue b l level first rest) (at : b.price_levels (price_to_index price) ≡ some l)
    (behind : Live b.order_pool (last first rest) z) where
  get_next_priority-behind : get_next_priority price b ≡ ok (add_size z.priority 1, b)
  unfolding get_next_priority
  get_next_priority-behind =
      let (of, f_live) = queue.orders.live.0 in
      ap (λ p. priority_behind p b) at
      ∙ bind-ok (level_at (some l)) _ b (level_at-Live queue.there)
      ∙ bind-ok (order_at level.order0) _ b (order_at_lem level.order0 first of b queue.head f_live)
      ∙ bind-ok (order_at of.prev) _ b (
          order_at_lem of.prev (last first rest) z b
            (sym (prev_held b first of f_live)
              ∙ prev-last (next_order b) (prev_order b) first rest first queue.orders.ring)
            behind)

  new_order : Order
  new_order = record {
    ticker_id = ticker;
    client_id = client;
    client_order_id = oid;
    market_order_id = market_oid;
    side = side;
    price = price;
    qty = qty;
    priority = add_size z.priority 1;
    prev = none;
    next = none;
  }

  pub rest_order-Appended :
      IsValid b.order_pool
      → 0 < b.order_pool.free_count
      → client < max_n_clients
      → oid < max_order_ids
      → (b' : Book) × (rest_order client oid ticker side price qty market_oid b ≡ ok (tt, b'))
        × Appended b client oid side price qty l level first rest z.priority b.order_pool.next_free
            b'
  unfolding rest_order new_order
  rest_order-Appended valid room in_clients in_ids =
      elim (allocate_lem new_order b.order_pool valid) [
        | inl (full, _) ↦ absurd (omega arith)
        | inr (q, e, got) ↦
            let n = b.order_pool.next_free in
            let b1 = record b { order_pool = q } in
            let new = Absent-free b n (first ∷ rest) got.was_free queue.orders.live in
            let kept =
              IsQueue-elsewhere b q n
                (λ i away.
                  ap (λ f. f i) got.stored
                  ∙ update_ne b.order_pool.blocks n (some new_order) i away)
                got.same_size l level first rest new queue in
            let live : Live q n new_order = record {
              in_pool = subst (λ s. n < s) (sym got.same_size) got.in_pool;
              holds = ap (λ f. f n) got.stored ∙ update_self b.order_pool.blocks n (some new_order);
            } in
            let map = mapped b1 client oid (some n) in
            (
              _,
              bind-ok (get_next_priority price) _ b get_next_priority-behind
                  ∙ bind-ok (allocate_order new_order) _ b (allocate_order-ok new_order b n q e)
                  ∙ bind-ok (add_order_to_book (some n)) _ b1 (
                      add_order_to_book-appended b1 l level first rest n new_order kept live new at
                        in_clients in_ids),
              record {
                was_free = got.was_free;
                queue =
                    IsQueue-sent (appended b1 first rest n) map _ l level first (rest ++ n ∷ [])
                      (appended-IsQueue b1 l level first rest n new_order kept live new);
                order =
                    let (_, _, there) = appended-Live b1 first rest n new_order live in
                    (_, there, refl, refl, refl, refl, refl, refl);
                listed = mapped_self b1 client oid (some n);
              },
            )
      ]
