-- ===== src/Book/Handlers.antt =====
-- order_book.cpp: `addOrder` and `cancelOrder`.
use hft_sys.Common.{ℕ, none, some, ◌==◌, ltb, if◌then◌else◌, fail, terminated, Option}
use hft_sys.Common.Int.{ℤ}
use hft_sys.Exchange.{
  Side, max_n_clients, max_order_ids, order_id_invalid, price_invalid, qty_invalid,
}
use hft_sys.Exchange.Messages.{ResponseType, UpdateType}
use hft_sys.Book.{
  Book, M, pure, ◌>>=◌, ◌>>◌, order_at, allocate_order, dispatch, publish, get_new_market_order_id,
}
use hft_sys.Book.Levels.{get_next_priority}
use hft_sys.Book.Orders.{add_order_to_book, remove_order_from_book}
use hft_sys.Book.Match.{find_match}

-- The part of `addOrder` behind `if (qtyRemains)`.
unfoldable pub rest_order : ℕ → ℕ → ℕ → Side → ℤ → ℕ → ℕ → M (Unit {0})
unfolding get_next_priority allocate_order add_order_to_book
rest_order client client_oid ticker side price remains market_oid = do
  priority ← get_next_priority price
  order ← allocate_order (record {
    ticker_id = ticker;
    client_id = client;
    client_order_id = client_oid;
    market_order_id = market_oid;
    side = side;
    price = price;
    qty = remains;
    priority = priority;
    prev = none;
    next = none;
  })
  add_order_to_book order
  publish (record {
    type = UpdateType.add;
    order_id = market_oid;
    ticker_id = ticker;
    side = side;
    price = price;
    qty = remains;
    priority = priority;
  })

-- `addOrder`; `fuel` bounds the rounds of `findMatch`.
unfoldable pub add_order : (Book → ℕ → Option ℕ) → ℕ → ℕ → ℕ → ℕ → Side → ℤ → ℕ → M (Unit {0})
unfolding get_new_market_order_id find_match rest_order
add_order word_below fuel client client_oid ticker side price qty = do
  market_oid ← get_new_market_order_id
  dispatch (record {
    type = ResponseType.accepted;
    client_id = client;
    ticker_id = ticker;
    client_order_id = client_oid;
    market_order_id = market_oid;
    side = side;
    price = price;
    qty_exec = 0;
    qty_remain = qty;
  })
  remains ← find_match word_below fuel client client_oid ticker side price qty market_oid
  if remains == 0
      then pure tt
      else rest_order client client_oid ticker side price remains market_oid

-- `cancelOrder` once the order is found.
unfoldable pub cancel_found : ℕ → ℕ → ℕ → ℕ → M (Unit {0})
unfolding order_at remove_order_from_book
cancel_found client oid ticker order = do
  o ← order_at (some order)
  remove_order_from_book (some order)
  publish (record {
    type = UpdateType.cancel;
    order_id = o.market_order_id;
    ticker_id = ticker;
    side = o.side;
    price = o.price;
    qty = 0;
    priority = o.priority;
  })
  dispatch (record {
    type = ResponseType.cancelled;
    client_id = client;
    ticker_id = ticker;
    client_order_id = oid;
    market_order_id = o.market_order_id;
    side = o.side;
    price = o.price;
    qty_exec = qty_invalid;
    qty_remain = o.qty;
  })

unfoldable pub cancel_rejected : ℕ → ℕ → ℕ → M (Unit {0})
cancel_rejected client oid ticker = dispatch (record {
  type = ResponseType.cancel_rejected;
  client_id = client;
  ticker_id = ticker;
  client_order_id = oid;
  market_order_id = order_id_invalid;
  side = Side.invalid;
  price = price_invalid;
  qty_exec = qty_invalid;
  qty_remain = qty_invalid;
})

-- `cancelOrder`. `at(orderId)` throws for an index out of range, which ends a `noexcept` function.
unfoldable pub cancel_order : ℕ → ℕ → ℕ → M (Unit {0})
unfolding cancel_found cancel_rejected
cancel_order client oid ticker b =
    if ltb client max_n_clients
    then (if ltb oid max_order_ids
        then elim (b.client_orders client oid) [
          | none ↦ cancel_rejected client oid ticker b
          | some order ↦ cancel_found client oid ticker order b
        ]
        else fail terminated)
    else cancel_rejected client oid ticker b
