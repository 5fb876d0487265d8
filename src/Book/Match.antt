-- ===== src/Book/Match.antt =====
-- order_book.cpp: `matchOrder` and `findMatch`.
use hft_sys.Common.{
  ℕ, zero, suc, ◌-◌, min, Bool, Option, none, some, ◌==◌, if◌then◌else◌, ok, fail, undefined,
  out_of_fuel,
}
use hft_sys.Common.Int.{ℤ, ltb_ℤ}
use hft_sys.Exchange.{Side, is_buy, is_sell, order_id_invalid, priority_invalid}
use hft_sys.Exchange.Messages.{ResponseType, UpdateType}
use hft_sys.Book.{Book, M, pure, ◌>>=◌, ◌>>◌, order_at, level_at, set_order, dispatch, publish}
use hft_sys.Book.Orders.{remove_order_from_book}

-- The test that ends the loop of `findMatch`: the best price of the other side does not cross.
abbrev pub does_not_cross : Side → ℤ → ℤ → Bool
does_not_cross side price best = if is_buy side then ltb_ℤ price best else ltb_ℤ best price

-- `asksByPrice_` for BUY, `bidsByPrice_` for SELL.
abbrev pub other_side : Side → Book → Option ℕ
other_side side b = if is_buy side then b.asks else b.bids

-- `qtyRemains -= fillQty` in `matchOrder` moves the pointer, not the quantity that it points to. The
-- parameter is what `*qtyRemains` then reads: the word that stands `fillQty` words below the caller's
-- variable, of which the source says nothing, or `none` where no memory is there that can be read.
module _ (word_below : Book → ℕ → Option ℕ) where
  -- `*qtyRemains` after the pointer has moved down by `fill`.
  abbrev pub read_moved : ℕ → ℕ → M ℕ
  read_moved qty fill b =
      if fill == 0
      then ok (qty, b)
      else elim (word_below b fill) [ none ↦ fail undefined | some word ↦ ok (word, b) ]

  -- The caller's quantity is `qty`. A pointer to const is passed, so it stays what it is.
  unfoldable pub match_order : ℕ → ℕ → Side → ℕ → ℕ → Option ℕ → ℕ → M (Unit {0})
  unfolding order_at set_order remove_order_from_book
  match_order ticker client side client_oid new_market_oid matched qty = do
    o ← order_at matched
    let fill = min qty o.qty
    remains ← read_moved qty fill
    set_order matched (λ o. record o { qty = o.qty - fill })
    o ← order_at matched
    dispatch (record {
      type = ResponseType.filled;
      client_id = client;
      ticker_id = ticker;
      client_order_id = client_oid;
      market_order_id = new_market_oid;
      side = side;
      price = o.price;
      qty_exec = fill;
      qty_remain = remains;
    })
    dispatch (record {
      type = ResponseType.filled;
      client_id = o.client_id;
      ticker_id = ticker;
      client_order_id = o.client_order_id;
      market_order_id = o.market_order_id;
      side = o.side;
      price = o.price;
      qty_exec = fill;
      qty_remain = o.qty;
    })
    publish (record {
      type = UpdateType.trade;
      order_id = order_id_invalid;
      ticker_id = ticker;
      side = side;
      price = o.price;
      qty = fill;
      priority = priority_invalid;
    })
    if o.qty == 0
        then (do
          publish (record {
            type = UpdateType.cancel;
            order_id = o.market_order_id;
            ticker_id = ticker;
            side = o.side;
            price = o.price;
            qty = fill;
            priority = priority_invalid;
          })
          remove_order_from_book matched)
        else publish (record {
          type = UpdateType.modify;
          order_id = o.market_order_id;
          ticker_id = ticker;
          side = o.side;
          price = o.price;
          qty = o.qty;
          priority = o.priority;
        })

  -- A round of the `while` loop, of both sides, for a quantity that is not 0: `rest` is what follows.
  unfoldable pub match_best : ℕ → ℕ → ℕ → Side → ℤ → ℕ → ℕ → M ℕ → Option ℕ → M ℕ
  unfolding match_order level_at order_at
  match_best client client_oid ticker side price qty new_market_oid rest none = pure qty
  match_best client client_oid ticker side price qty new_market_oid rest (some p) = do
    level ← level_at (some p)
    first ← order_at level.order0
    if does_not_cross side price first.price
        then pure qty
        else (do match_order ticker client side client_oid new_market_oid level.order0 qty; rest)

  -- The `while` loop, on fuel.
  unfoldable pub match_loop : ℕ → ℕ → ℕ → ℕ → Side → ℤ → ℕ → ℕ → M ℕ
  unfolding match_best
  match_loop zero client client_oid ticker side price qty new_market_oid b = fail out_of_fuel
  match_loop (suc fuel) client client_oid ticker side price qty new_market_oid b =
      let rest =
        λ (b' : Book). match_loop fuel client client_oid ticker side price qty new_market_oid b' in
      if qty == 0
      then pure qty b
      else match_best client client_oid ticker side price qty new_market_oid rest
          (other_side side b) b

  -- `findMatch` returns what is left of the quantity.
  unfoldable pub find_match : ℕ → ℕ → ℕ → ℕ → Side → ℤ → ℕ → ℕ → M ℕ
  unfolding match_loop
  find_match fuel client client_oid ticker side price qty new_market_oid b =
      if is_buy side
      then match_loop fuel client client_oid ticker side price qty new_market_oid b
      else if is_sell side
      then match_loop fuel client client_oid ticker side price qty new_market_oid b
      else pure qty b
