-- ===== src/Exchange.antt =====
-- core/exchange: types.h, matching_engine_order.h, and the messages (Exchange/Messages).
pub mod Messages
pub mod Printing
pub mod Distinct
use hft_sys.Common.{ℕ, ◌-◌, ◌*◌, ◌^◌, Option, Bool, true, false}
use hft_sys.Common.Int.{ℤ, pos}

-- `OME_SIZE` of the production build.
abbrev pub ome_size : ℕ
ome_size = 256

abbrev pub max_tickers : ℕ
max_tickers = 8

abbrev pub max_client_updates : ℕ
max_client_updates = ome_size * 1024

abbrev pub max_market_updates : ℕ
max_market_updates = ome_size * 1024

abbrev pub max_n_clients : ℕ
max_n_clients = ome_size

abbrev pub max_order_ids : ℕ
max_order_ids = 1024 * 1024

abbrev pub max_price_levels : ℕ
max_price_levels = ome_size

abbrev pub max_pending_order_requests : ℕ
max_pending_order_requests = 1024

-- `INVALID_ID<T>` at `uint64_t`, `uint32_t` and `int64_t`.
abbrev pub order_id_invalid : ℕ
order_id_invalid = 2 ^ 64 - 1

abbrev pub ticker_id_invalid : ℕ
ticker_id_invalid = 2 ^ 32 - 1

abbrev pub client_id_invalid : ℕ
client_id_invalid = 2 ^ 32 - 1

abbrev pub price_invalid : ℤ
price_invalid = pos (2 ^ 63 - 1)

abbrev pub qty_invalid : ℕ
qty_invalid = 2 ^ 32 - 1

abbrev pub priority_invalid : ℕ
priority_invalid = 2 ^ 64 - 1

-- `Side`: 0, 1 and -1 of an `int8_t`; a request off the network may carry any other byte.
pub data Side : Type 0 where
  invalid buy sell : Side
  other : ℕ → Side

abbrev pub is_buy : Side → Bool
is_buy buy = true
is_buy _ = false

abbrev pub is_sell : Side → Bool
is_sell sell = true
is_sell _ = false

-- `Order`; `prev` and `next` are pointers into the order pool.
pub record Order : Type 0 where
  pub ticker_id : ℕ
  pub client_id : ℕ
  pub client_order_id : ℕ
  pub market_order_id : ℕ
  pub side : Side
  pub price : ℤ
  pub qty : ℕ
  pub priority : ℕ
  pub prev : Option ℕ
  pub next : Option ℕ

-- `OrdersAtPrice`; `order0` points into the order pool, `prev` and `next` into the level pool.
pub record OrdersAtPrice : Type 0 where
  pub side : Side
  pub price : ℤ
  pub order0 : Option ℕ
  pub prev : Option ℕ
  pub next : Option ℕ
