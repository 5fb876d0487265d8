-- ===== src/Book/RoundTrip.antt =====
-- An order that is added and then cancelled.
use hft_sys.Common.{
  ℕ, ◌<◌, ◌≡◌, refl, sym, ap, subst, List, [], ◌∷◌, ◌++◌, Option, some, arith, Result, ok, fail,
  lt→ltb,
}
use hft_sys.Common.Int.{ℤ}
use hft_sys.Exchange.{Order, Side, max_n_clients, max_order_ids, qty_invalid}
use hft_sys.Exchange.Messages.{Message, response, update, ResponseType, UpdateType, MarketUpdate}
use hft_sys.Book.{Book, order_at}
use hft_sys.Book.Orders.{remove_order_from_book}
use hft_sys.Book.Handlers.{add_order, cancel_order, cancel_found}
use hft_sys.Book.Keeps.{Ends, Ends-bind}
use hft_sys.Book.Weight.{weight}
use hft_sys.Book.Resting.{AnyFault, any-Ends}
use hft_sys.Book.Entries.{read_order-Ends}
use hft_sys.Book.Found.{IsFound, Rests, add_order-IsFound}

abbrev cancelled_response : ℕ → ℕ → ℕ → ℕ → Side → ℤ → ℕ → Message
cancelled_response client oid ticker market_oid side price qty = response (record {
  type = ResponseType.cancelled;
  client_id = client;
  ticker_id = ticker;
  client_order_id = oid;
  market_order_id = market_oid;
  side = side;
  price = price;
  qty_exec = qty_invalid;
  qty_remain = qty;
})

-- The last message is that the client's order is cancelled, with the quantity `qty` left.
abbrev pub EndsWithCancelled : ℕ → ℕ → ℕ → ℕ → Unit {0} → Book → Type 0
EndsWithCancelled client oid ticker qty _ b =
    (before : List Message) × (market_oid : ℕ) × (side : Side) × (price : ℤ) × (b.sent
      ≡ before ++ cancelled_response client oid ticker market_oid side price qty ∷ [])

abbrev cancel_update : ℕ → Order → MarketUpdate
cancel_update ticker o = record {
  type = UpdateType.cancel;
  order_id = o.market_order_id;
  ticker_id = ticker;
  side = o.side;
  price = o.price;
  qty = 0;
  priority = o.priority;
}

cancel_found-Ends :
    (client oid ticker qty n : ℕ) (b : Book)
    → Rests n client oid qty b.order_pool b.client_orders
    → Ends AnyFault (EndsWithCancelled client oid ticker qty) (cancel_found client oid ticker n b)
unfolding cancel_found
cancel_found-Ends client oid ticker qty n b (x, holds, _, _, has) =
    let Q = EndsWithCancelled client oid ticker qty in
    Ends-bind AnyFault Q (order_at (some n)) _ b (read_order-Ends (some n) b)
      λ o b1 (same, (i, at, live)).
        Ends-bind AnyFault {P = λ _ _. Unit {0}} Q (remove_order_from_book (some n)) _ b1
          (any-Ends (remove_order_from_book (some n) b1))
          λ _ b2 _. (
            b2.sent ++ update (cancel_update ticker o) ∷ [],
            o.market_order_id,
            o.side,
            o.price,
            ap
                (λ q.
                  b2.sent
                  ++ update (cancel_update ticker o) ∷ []
                  ++ cancelled_response client oid ticker o.market_order_id o.side o.price q ∷ [])
                (left b n i x o qty holds at live.holds has),
          )
  where
    left :
        (b : Book) (n i : ℕ) (x o : Order) (qty : ℕ)
        → b.order_pool.blocks n ≡ some x
        → ◌≡◌ {A = Option ℕ} (some n) (some i)
        → b.order_pool.blocks i ≡ some o
        → x.qty ≡ qty
        → o.qty ≡ qty
    left b n i x o qty h e k has = grind arith

found_entry-eq :
    (client oid ticker n : ℕ) (b : Book)
    → client < max_n_clients
    → oid < max_order_ids
    → b.client_orders client oid ≡ some n
    → cancel_order client oid ticker b ≡ cancel_found client oid ticker n b
unfolding cancel_order
found_entry-eq client oid ticker n b h k e = rw (lt→ltb _ _ h, lt→ltb _ _ k, e) refl

found-cancels :
    (client oid ticker qty : ℕ) (b : Book)
    → client < max_n_clients
    → oid < max_order_ids
    → IsFound client oid qty tt b
    → Ends AnyFault (EndsWithCancelled client oid ticker qty) (cancel_order client oid ticker b)
found-cancels client oid ticker qty b h k (n, entry, rests) =
    subst (λ r. Ends AnyFault (EndsWithCancelled client oid ticker qty) r)
      (sym (found_entry-eq client oid ticker n b h k entry))
      (cancel_found-Ends client oid ticker qty n b rests)

-- When `addOrder` has returned for a client and an order id in range and a quantity that is not 0, and a
-- `cancelOrder` of the same client and id returns next, its last message is a CANCELLED response with the
-- whole of the quantity.
pub add_order-cancel_order :
    (word_below : Book → ℕ → Option ℕ) (fuel client oid ticker : ℕ) (side : Side) (price : ℤ)
    (qty : ℕ) (b : Book)
    → weight b.order_pool < fuel
    → 0 < qty
    → client < max_n_clients
    → oid < max_order_ids
    → Ends AnyFault
        (λ _ b'.
          Ends AnyFault
            (EndsWithCancelled client oid ticker qty)
            (cancel_order client oid ticker b'))
        (add_order word_below fuel client oid ticker side price qty b)
add_order-cancel_order word_below fuel client oid ticker side price qty b enough pos h k =
    implied (add_order word_below fuel client oid ticker side price qty b)
      (add_order-IsFound client oid ticker side price qty word_below fuel b enough pos)
  where
    implied :
        (r : Result (Unit {0} × Book))
        → Ends AnyFault (IsFound client oid qty) r
        → Ends AnyFault
            (λ _ b'.
              Ends AnyFault
                (EndsWithCancelled client oid ticker qty)
                (cancel_order client oid ticker b'))
            r
    implied (ok (_, b')) found = found-cancels client oid ticker qty b' h k found
    implied (fail e) found = tt
