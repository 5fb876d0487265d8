-- ===== src/Book/Newcomer.antt =====
-- The rest of `addOrder` at a price without a level, from the priority to the client map.
use hft_sys.Common.{ℕ, ◌≡◌, some, none, List}
use hft_sys.Common.Int.{ℤ}
use hft_sys.Pool.{Pool}
use hft_sys.Pool.Access.{Live}
use hft_sys.Exchange.{Order, Side}
use hft_sys.Book.{Book}
use hft_sys.Book.Opening.{Opened}

-- What the rest of `addOrder` leaves: the order at `n`, with the first priority, alone on the new level `k`, and
-- in the client map.
pub record Newcomer (client oid : ℕ) (side : Side) (price : ℤ) (qty : ℕ) (b : Book)
    (levels : List ℕ) (k n : ℕ) (b' : Book) : Type 0 where
  pub opened : Opened b side price levels k n b'
  pub order :
      (o : Order) × Live b'.order_pool n o
      × (o.client_id ≡ client)
      × (o.client_order_id ≡ oid)
      × (o.side ≡ side)
      × (o.price ≡ price)
      × (o.qty ≡ qty)
      × (o.priority ≡ 1)
  pub listed : b'.client_orders client oid ≡ some n

module _ (client oid ticker : ℕ) (side : Side) (price : ℤ) (qty market_oid : ℕ) (b : Book)
    (levels : List ℕ) where
  abbrev first_order : Order
  first_order = record {
    ticker_id = ticker;
    client_id = client;
    client_order_id = oid;
    market_order_id = market_oid;
    side = side;
    price = price;
    qty = qty;
    priority = 1;
    prev = none;
    next = none;
  }
