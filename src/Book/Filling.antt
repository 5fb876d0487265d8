-- ===== src/Book/Filling.antt =====
-- `matchOrder` on the first order of the queue of a level.
use hft_sys.Common.{
  Result, fail, undefined, ℕ, ◌-◌, ◌≤◌, ◌<◌, ◌≡◌, min, some, none, List, [], ◌∷◌, ◌++◌, ok, Bool,
  if◌then◌else◌, ◌⊎◌, Option,
}
use hft_sys.Pool.Access.{Live, written}
use hft_sys.Exchange.{Order, Side, order_id_invalid, priority_invalid}
use hft_sys.Exchange.Messages.{Message, response, update, ResponseType, UpdateType}
use hft_sys.Book.{Book, M, publish, ◌>>◌}
use hft_sys.Book.Cancelling.{HasSide}
use hft_sys.Book.Orders.{remove_order_from_book}
use hft_sys.Book.Match.{read_moved}

-- The book where the order `o` at `n` has the quantity `left`.
abbrev pub with_left : Book → ℕ → Order → ℕ → Book
with_left b n o left = record b { order_pool = written b.order_pool n (record o { qty = left }) }

-- `told` is what the client that crosses reads as the rest of its order.
module _ (word_below : Book → ℕ → Option ℕ) (ticker client : ℕ) (side : Side)
    (client_oid market_oid qty : ℕ) (b : Book) (n : ℕ) (o : Order) (told : ℕ)
    (live : Live b.order_pool n o) where
  -- The book with what is left of the order.
  abbrev less : Book
  less = with_left b n o (o.qty - min qty o.qty)

  abbrev taker_message : Message
  taker_message = response (record {
    type = ResponseType.filled;
    client_id = client;
    ticker_id = ticker;
    client_order_id = client_oid;
    market_order_id = market_oid;
    side = side;
    price = o.price;
    qty_exec = min qty o.qty;
    qty_remain = told;
  })

  abbrev maker_message : Message
  maker_message = response (record {
    type = ResponseType.filled;
    client_id = o.client_id;
    ticker_id = ticker;
    client_order_id = o.client_order_id;
    market_order_id = o.market_order_id;
    side = o.side;
    price = o.price;
    qty_exec = min qty o.qty;
    qty_remain = o.qty - min qty o.qty;
  })

  abbrev trade_message : Message
  trade_message = update (record {
    type = UpdateType.trade;
    order_id = order_id_invalid;
    ticker_id = ticker;
    side = side;
    price = o.price;
    qty = min qty o.qty;
    priority = priority_invalid;
  })

  -- The FILLED responses to both clients, and the TRADE update.
  abbrev pub fill_messages : List Message
  fill_messages = taker_message ∷ maker_message ∷ trade_message ∷ []

  abbrev gone_update : Message
  gone_update = update (record {
    type = UpdateType.cancel;
    order_id = o.market_order_id;
    ticker_id = ticker;
    side = o.side;
    price = o.price;
    qty = min qty o.qty;
    priority = priority_invalid;
  })

  abbrev modify_update : Message
  modify_update = update (record {
    type = UpdateType.modify;
    order_id = o.market_order_id;
    ticker_id = ticker;
    side = o.side;
    price = o.price;
    qty = o.qty - min qty o.qty;
    priority = o.priority;
  })

  -- The last test of `matchOrder`, with its branches.
  abbrev ending : Bool → M (Unit {0})
  ending t =
      if t
      then publish (record {
        type = UpdateType.cancel;
        order_id = o.market_order_id;
        ticker_id = ticker;
        side = o.side;
        price = o.price;
        qty = min qty o.qty;
        priority = priority_invalid;
      })
        >> remove_order_from_book (some n)
      else publish (record {
        type = UpdateType.modify;
        order_id = o.market_order_id;
        ticker_id = ticker;
        side = o.side;
        price = o.price;
        qty = o.qty - min qty o.qty;
        priority = o.priority;
      })

  -- How `matchOrder` ends for the first order `o` of the queue `n ∷ rest` of the level `l`: if it is filled, it
  -- leaves its queue as a cancelled one does; otherwise it stays there with what is left of it.
  abbrev pub Matched : List ℕ → ℕ → List ℕ → List ℕ → Book → Type 0
  Matched before l rest after b' =
      ((o.qty ≤ qty)
        × HasSide b' o.side before l rest after
        × (b'.order_pool.blocks n ≡ none)
        × (b'.client_orders o.client_id o.client_order_id ≡ none)
        × (b'.sent ≡ b.sent ++ fill_messages ++ gone_update ∷ []))
      ⊎ ((qty < o.qty)
          × HasSide b' o.side before l (n ∷ rest) after
          × Live b'.order_pool n (record o { qty = o.qty - qty })
          × (b'.sent ≡ b.sent ++ fill_messages ++ modify_update ∷ []))

module _ (word_below : Book → ℕ → Option ℕ) (ticker client : ℕ) (side : Side)
    (client_oid market_oid qty : ℕ) (b : Book) (n : ℕ) (o : Order)
    (live : Live b.order_pool n o) where
  -- How `matchOrder` ends for what `*qtyRemains` reads after its pointer has moved.
  abbrev pub Outcome : List ℕ → ℕ → List ℕ → List ℕ → Result (Unit {0} × Book) → Type 0
  Outcome before l rest after r =
      ((read_moved word_below qty (min qty o.qty) b ≡ fail undefined) × (r ≡ fail undefined))
      ⊎ ((told : ℕ) × (read_moved word_below qty (min qty o.qty) b ≡ ok (told, b))
          × ((b' : Book) × (r ≡ ok (tt, b'))
              × Matched word_below ticker client side client_oid market_oid qty b n o told live
                  before l rest after b'))
