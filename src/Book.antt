-- ===== src/Book.antt =====
-- core/matching_engine/order_book.h: the state of an `OrderBook`, and the steps on it from which its
-- methods are built. Book/Levels, Book/Orders, Book/Match and Book/Handlers have the methods.
pub mod Levels
pub mod Orders
pub mod Match
pub mod Handlers
pub mod Access
pub mod Rings
pub mod Queue
pub mod Elsewhere
pub mod ElsewhereLevels
pub mod Appending
pub mod Unlinking
pub mod Removing
pub mod LevelRings
pub mod Seeking
pub mod Contents
pub mod Inserting
pub mod Placing
pub mod PriceLevels
pub mod Adding
pub mod Ordered
pub mod Delisting
pub mod LevelRemoval
pub mod Heads
pub mod Emptying
pub mod Cancelling
pub mod Filling
pub mod Opening
pub mod Newcomer
pub mod Keeps
pub mod Links
pub mod Weight
pub mod Rounds
pub mod Resting
pub mod Keyed
pub mod Cancel
pub mod Entries
pub mod Entering
pub mod History
pub mod Found
pub mod RoundTrip
pub mod Exhausted
pub mod Indices
pub mod Printing
pub mod Sorted
pub mod Printable
pub mod Teardown
use hft_sys.Common.{
  ℕ, ◌≡◌, Bool, true, false, Option, none, some, List, [], ◌∷◌, ◌++◌, ◌&&◌, ltb, ◌==◌,
  if◌then◌else◌, add_size, update, Result, ok, fail, terminated, undefined,
}
use hft_sys.Pool
use hft_sys.Pool.{Pool}
use hft_sys.Exchange.{
  Order, OrdersAtPrice, Side, is_buy, max_n_clients, max_order_ids, max_price_levels,
}
use hft_sys.Exchange.Messages.{
  Message, response, update as market_update, ClientResponse, MarketUpdate,
}

-- `sent` holds the messages that the book has handed to `ome_`, oldest first.
pub record Book : Type 0 where
  pub assigned_ticker : ℕ
  pub client_orders : ℕ → ℕ → Option ℕ
  pub bids : Option ℕ
  pub asks : Option ℕ
  pub price_levels : ℕ → Option ℕ
  pub level_pool : Pool OrdersAtPrice
  pub order_pool : Pool Order
  pub next_market_oid : ℕ
  pub sent : List Message

-- The book of a ticker, with pools of the given sizes (`MAX_PRICE_LEVELS`, `MAX_ORDER_IDS`).
unfoldable pub new_book : ℕ → ℕ → ℕ → Book
unfolding Pool.new
new_book ticker levels orders = record {
  assigned_ticker = ticker;
  client_orders = λ _ _. none;
  bids = none;
  asks = none;
  price_levels = λ _. none;
  level_pool = Pool.new levels;
  order_pool = Pool.new orders;
  next_market_oid = 1;
  sent = [];
}

abbrev pub M : Type 0 → Type 0
M A = Book → Result (A × Book)

abbrev pub pure : {A : Type 0} → A → M A
pure a b = ok (a, b)

-- The next step, on the book that the first one leaves.
infixl 5 ◌>>=◌ ◌>>◌
abbrev pub ◌>>=◌ : {V W : Type 0} → M V → (V → M W) → M W
◌>>=◌ step next book = elim (step book) [ fail e ↦ fail e | ok (value, after) ↦ next value after ]

abbrev pub ◌>>◌ : {W : Type 0} → M (Unit {0}) → M W → M W
step >> next = step >>= (λ _. next)

abbrev pub fault : {A : Type 0} → M A
fault b = fail undefined

-- `ome_.dispatchClientResponse(r)`
abbrev pub dispatch : ClientResponse → M (Unit {0})
dispatch r b = ok (tt, record b { sent = b.sent ++ response r ∷ [] })

-- `ome_.publishMarketUpdate(u)`
abbrev pub publish : MarketUpdate → M (Unit {0})
publish u b = ok (tt, record b { sent = b.sent ++ market_update u ∷ [] })

-- `*p` for a pointer to an order or to a level.
unfoldable pub order_at : Option ℕ → M Order
order_at none b = fail undefined
order_at (some p) b = elim (Pool.get p b.order_pool) [ fail e ↦ fail e | ok o ↦ ok (o, b) ]

unfoldable pub level_at : Option ℕ → M OrdersAtPrice
level_at none b = fail undefined
level_at (some p) b = elim (Pool.get p b.level_pool) [ fail e ↦ fail e | ok l ↦ ok (l, b) ]

put_order : ℕ → Order → M (Unit {0})
put_order p o b = elim (Pool.put p o b.order_pool) [
  | fail e ↦ fail e
  | ok q ↦ ok (tt, record b { order_pool = q })
]

put_level : ℕ → OrdersAtPrice → M (Unit {0})
put_level p l b = elim (Pool.put p l b.level_pool) [
  | fail e ↦ fail e
  | ok q ↦ ok (tt, record b { level_pool = q })
]

-- `p->field = value`
unfoldable pub set_order : Option ℕ → (Order → Order) → M (Unit {0})
unfolding put_order
set_order none f = fault
set_order (some p) f = do o ← order_at (some p); put_order p (f o)

unfoldable pub set_level : Option ℕ → (OrdersAtPrice → OrdersAtPrice) → M (Unit {0})
unfolding put_level
set_level none f = fault
set_level (some p) f = do l ← level_at (some p); put_level p (f l)

-- `pool.allocate(...)` and `pool.deallocate(p)` on the two pools.
unfoldable pub allocate_order : Order → M (Option ℕ)
allocate_order o b = elim (Pool.allocate o b.order_pool) [
  | fail e ↦ fail e
  | ok (p, q) ↦ ok (p, record b { order_pool = q })
]

unfoldable pub allocate_level : OrdersAtPrice → M (Option ℕ)
allocate_level l b = elim (Pool.allocate l b.level_pool) [
  | fail e ↦ fail e
  | ok (p, q) ↦ ok (p, record b { level_pool = q })
]

unfoldable pub deallocate_order : Option ℕ → M (Unit {0})
deallocate_order none b = fail terminated
deallocate_order (some p) b = elim (Pool.deallocate p b.order_pool) [
  | fail e ↦ fail e
  | ok q ↦ ok (tt, record b { order_pool = q })
]

unfoldable pub deallocate_level : Option ℕ → M (Unit {0})
deallocate_level none b = fail terminated
deallocate_level (some p) b = elim (Pool.deallocate p b.level_pool) [
  | fail e ↦ fail e
  | ok q ↦ ok (tt, record b { level_pool = q })
]

-- `==` on pointers.
abbrev pub same_pointer : Option ℕ → Option ℕ → Bool
same_pointer none none = true
same_pointer (some p) (some q) = p == q
same_pointer _ _ = false

-- The reference `bestOrdersByPrice`: bids for BUY, asks for any other side.
abbrev pub best_of : Side → Book → Option ℕ
best_of side b = if is_buy side then b.bids else b.asks

abbrev pub set_best : Side → Option ℕ → M (Unit {0})
set_best side p b = ok (tt, if is_buy side then record b { bids = p } else record b { asks = p })

-- `mapPriceToPriceLevel_[i] = p`; every index that is used is below `MAX_PRICE_LEVELS`.
abbrev pub set_price_level : ℕ → Option ℕ → M (Unit {0})
set_price_level i p b = ok (tt, record b { price_levels = update b.price_levels i p })

-- `mapClientIdToOrder_[client][oid] = p`, with no check of the indices.
unfoldable pub set_client_order : ℕ → ℕ → Option ℕ → M (Unit {0})
set_client_order client oid p b =
    if ltb client max_n_clients && ltb oid max_order_ids
    then ok (
      tt,
      record b {
        client_orders = update b.client_orders client (update (b.client_orders client) oid p);
      },
    )
    else fail undefined

-- `getNewMarketOrderId`
unfoldable pub get_new_market_order_id : M ℕ
get_new_market_order_id b =
    ok (b.next_market_oid, record b { next_market_oid = add_size b.next_market_oid 1 })
