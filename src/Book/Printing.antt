-- ===== src/Book/Printing.antt =====
-- order_book.cpp: `toString`, and the texts of orders and levels (matching_engine_order.h). Nothing
-- here changes the book, so a method is a function of it.
use hft_sys.Common.{
  ℕ, zero, suc, ◌+◌, ◌-◌, ◌%◌, ◌^◌, Option, none, some, Bool, ◌&&◌, ◌||◌, not, ◌++◌, if◌then◌else◌,
  add_size, Result, ok, fail, out_of_fuel, ◌>>=◌,
}
use hft_sys.Common.Int.{ℤ, pos, negsuc, ltb_ℤ}
use hft_sys.Text.{Text, codes, to_string, pad_text, pad_number}
use hft_sys.Exchange.{Order, OrdersAtPrice, Side, is_buy, is_sell, order_id_invalid, price_invalid}
use hft_sys.Exchange.Printing.{
  ticker_id_to_str, client_id_to_str, order_id_to_str, qty_to_str, priority_to_str, price_to_str,
  side_to_str,
}
use hft_sys.Book.{Book, order_at, level_at, same_pointer}

-- `*p`
unfoldable pub order_of : Option ℕ → Book → Result Order
unfolding order_at
order_of p b = order_at p b >>= λ r. ok r.0

unfoldable pub level_of : Option ℕ → Book → Result OrdersAtPrice
unfolding level_at
level_of p b = level_at p b >>= λ r. ok r.0

-- `p ? p->marketOrderId_ : OrderID_INVALID`
unfoldable pub market_id_of : Option ℕ → Book → Result ℕ
unfolding order_of
market_id_of none b = ok order_id_invalid
market_id_of (some p) b = order_of (some p) b >>= λ o. ok o.market_order_id

-- `p ? p->price_ : Price_INVALID`
unfoldable pub price_of : Option ℕ → Book → Result ℤ
unfolding level_of
price_of none b = ok price_invalid
price_of (some p) b = level_of (some p) b >>= λ l. ok l.price

-- `Order::to_string`
unfoldable pub order_to_str : Order → Book → Result Text
unfolding market_id_of ticker_id_to_str client_id_to_str order_id_to_str side_to_str price_to_str
    qty_to_str priority_to_str
order_to_str o b = do
  prev ← market_id_of o.prev b
  next ← market_id_of o.next b
  ok (
      codes "<Order>[ticker: "
      ++ ticker_id_to_str o.ticker_id
      ++ codes ", client: "
      ++ client_id_to_str o.client_id
      ++ codes ", oid_client: "
      ++ order_id_to_str o.client_order_id
      ++ codes ", oid_market: "
      ++ order_id_to_str o.market_order_id
      ++ codes ", side_: "
      ++ side_to_str o.side
      ++ codes ", price_: "
      ++ price_to_str o.price
      ++ codes ", qty_: "
      ++ qty_to_str o.qty
      ++ codes ", priority_: "
      ++ priority_to_str o.priority
      ++ codes ", prev_: "
      ++ order_id_to_str prev
      ++ codes ", next_: "
      ++ order_id_to_str next
      ++ codes "]")

-- `order0_ ? order0_->to_string() : "NULL"`
unfoldable pub first_order_to_str : Option ℕ → Book → Result Text
unfolding order_of order_to_str
first_order_to_str none b = ok (codes "NULL")
first_order_to_str (some p) b = order_of (some p) b >>= λ o. order_to_str o b

-- `OrdersAtPrice::toString`
unfoldable pub level_to_str : OrdersAtPrice → Book → Result Text
unfolding price_of first_order_to_str side_to_str price_to_str
level_to_str l b = do
  order0 ← first_order_to_str l.order0 b
  prev ← price_of l.prev b
  next ← price_of l.next b
  ok (
      codes "<OrdersAtPrice>[side_: "
      ++ side_to_str l.side
      ++ codes ", price_: "
      ++ price_to_str l.price
      ++ codes ", order0_: "
      ++ order0
      ++ codes ", prev_: "
      ++ price_to_str prev
      ++ codes ", next_: "
      ++ price_to_str next
      ++ codes "]")

-- The first loop of `printer`, over the ring of orders from `p`: the sum of the quantities, a `Qty`, and
-- the number of the orders.
unfoldable pub sum_orders : ℕ → Option ℕ → Option ℕ → ℕ → ℕ → Book → Result (ℕ × ℕ)
unfolding order_of
sum_orders zero first p total count b = fail out_of_fuel
sum_orders (suc fuel) first p total count b = do
  o ← order_of p b
  let rest = sum_orders fuel first o.next ((total + o.qty) % 2 ^ 32) (add_size count 1) b
  if same_pointer o.next first then ok ((total + o.qty) % 2 ^ 32, add_size count 1) else rest

-- The second loop of `printer`: a line for each order.
unfoldable pub list_orders : ℕ → Option ℕ → Option ℕ → Text → Book → Result Text
unfolding order_of market_id_of order_id_to_str qty_to_str
list_orders zero first p out b = fail out_of_fuel
list_orders (suc fuel) first p out b = do
  o ← order_of p b
  prev ← market_id_of o.prev b
  next ← market_id_of o.next b
  let line =
      codes "\t\t\t{ oid:"
      ++ order_id_to_str o.market_order_id
      ++ codes ", q:"
      ++ qty_to_str o.qty
      ++ codes ", p:"
      ++ order_id_to_str prev
      ++ codes ", n:"
      ++ order_id_to_str next
      ++ codes " }\n"
  let rest = list_orders fuel first o.next (out ++ line) b
  if same_pointer o.next first then ok (out ++ line) else rest

-- What `printer` writes for a level.
unfoldable pub print_level : Bool → OrdersAtPrice → Book → Result Text
unfolding sum_orders list_orders level_of price_to_str qty_to_str pad_text pad_number
print_level is_detailed l b = do
  totals ← sum_orders b.order_pool.size l.order0 l.order0 0 0 b
  prev ← level_of l.prev b
  next ← level_of l.next b
  let line =
      codes " { p:"
      ++ pad_text 3 (price_to_str l.price)
      ++ codes " [-]:"
      ++ pad_text 3 (price_to_str prev.price)
      ++ codes " [+]:"
      ++ pad_text 3 (price_to_str next.price)
      ++ codes " } "
      ++ pad_text 5 (qty_to_str totals.0)
      ++ codes " @ "
      ++ pad_text 3 (price_to_str l.price)
      ++ codes " ("
      ++ pad_number 4 (to_string totals.1)
      ++ codes ")\n"
  let all = list_orders b.order_pool.size l.order0 l.order0 line b
  if is_detailed then all else ok line

-- `isSorted` of `printer`
abbrev pub is_sorted : Side → ℤ → ℤ → Bool
is_sorted side last price = (is_sell side && ltb_ℤ last price) || (is_buy side && ltb_ℤ price last)

-- How `toString` ends: with its text, or by throwing a `std::runtime_error`.
pub data Printed : Type 0 where
  text : Text → Printed
  thrown : Text → Printed

-- The text of the exception.
unfoldable pub not_sorted : ℤ → OrdersAtPrice → Book → Result Printed
unfolding level_to_str price_to_str
not_sorted last l b = level_to_str l b >>= λ level. ok (
    thrown (
      codes "Bid/ask price levels not sorted correctly: "
      ++ price_to_str last
      ++ codes " levels:"
      ++ level))

-- The loop over the levels of a side, from `p`, where `first` is the best level and `last` the price of
-- the level before.
unfoldable pub print_levels :
    ℕ → Side → Text → Bool → Bool → Option ℕ → Option ℕ → ℤ → ℕ → Text → Book → Result Printed
print_levels fuel side name is_detailed has_check first none last count out b = ok (text out)
print_levels zero side name is_detailed has_check first (some p) last count out b = fail out_of_fuel
print_levels (suc fuel) side name is_detailed has_check first (some p) last count out b = do
  l ← level_of (some p) b
  printed ← print_level is_detailed l b
  let line = name ++ codes "[" ++ to_string count ++ codes "] => " ++ printed
  let rest =
      print_levels fuel side name is_detailed has_check first
        (if same_pointer l.next first then none else l.next) (if has_check then l.price else last)
        (add_size count 1) (out ++ line) b
  if has_check && not (is_sorted side last l.price) then not_sorted last l b else rest

-- `std::numeric_limits<Price>::min()` and `max()`
abbrev pub least_price : ℤ
least_price = negsuc (2 ^ 63 - 1)

abbrev pub greatest_price : ℤ
greatest_price = pos (2 ^ 63 - 1)

-- The blocks of `toString` for the asks and for the bids.
unfoldable pub print_side :
    Side → Text → Text → ℤ → Bool → Bool → Option ℕ → Text → Book → Result Printed
print_side side name empty start is_detailed has_check none out b = ok (text (out ++ empty))
print_side side name empty start is_detailed has_check (some p) out b =
    print_levels b.level_pool.size side name is_detailed has_check (some p) (some p) start 0 out b

-- The rest of `toString` behind the asks.
unfoldable pub print_bids : Bool → Bool → Book → Printed → Result Printed
print_bids is_detailed has_check b (thrown e) = ok (thrown e)
print_bids is_detailed has_check b (text out) =
    print_side Side.buy (codes "BIDS") (codes "\n                  [NO BIDS ON BOOK]\n")
      greatest_price is_detailed has_check b.bids (out ++ codes "\n                          X\n\n")
      b

-- `toString`
unfoldable pub book_to_string : Bool → Bool → Book → Result Printed
book_to_string is_detailed has_check b =
    print_side Side.sell (codes "ASKS") (codes "\n                  [NO ASKS ON BOOK]\n")
      least_price is_detailed has_check b.asks
      (codes "\n----- ORDER BOOK FOR TICKER: "
        ++ ticker_id_to_str b.assigned_ticker
        ++ codes " -----\n")
      b
    >>= print_bids is_detailed has_check b
