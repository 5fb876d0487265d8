-- ===== src/Tests/Rings.antt =====
-- Books with two orders at a price, and with two levels of asks.
use hft_sys.Common.{ℕ, ◌≡◌, ◌↔◌, refl, Option, some, none, [], ◌∷◌, map, ok, update, arith}
use hft_sys.Common.Int.{pos}
use hft_sys.Exchange.{Order, OrdersAtPrice, buy, sell}
use hft_sys.Pool.Count.{total}
use hft_sys.Pool.Access.{Live}
use hft_sys.Pool.Invariant.{IsValid}
use hft_sys.Book.{Book}
use hft_sys.Book.Rings.{next_order, prev_order, next_level, prev_level}
use hft_sys.Book.Queue.{IsQueue, HasQueue, IsQueue-sent}
use hft_sys.Book.Seeking.{level_price}
use hft_sys.Book.Inserting.{HasLevels}
use hft_sys.Book.Levels.{price_to_index, add_price_level}
use hft_sys.Book.Handlers.{rest_order, cancel_order}
use hft_sys.Book.Appending.{Appended, rest_order-Appended}
use hft_sys.Book.Cancelling.{HasSide, cancel_update, cancelled_response, cancel_order-Removed}
use hft_sys.Book.Newcomer.{Newcomer}
use hft_sys.Book.Ordered.{IsOrdered, IsWorstOfMany, add_price_level-IsOrdered}

abbrev bid_at : ℕ → ℕ → ℕ → Option ℕ → Option ℕ → Order
bid_at client oid priority prev next = record {
  ticker_id = 0;
  client_id = client;
  client_order_id = oid;
  market_order_id = oid;
  side = buy;
  price = pos 40;
  qty = 6;
  priority = priority;
  prev = prev;
  next = next;
}

abbrev bid_level : OrdersAtPrice
bid_level = record { side = buy; price = pos 40; order0 = some 0; prev = some 0; next = some 0 }

-- Bids of two clients at 40, in the blocks 0 and 1 of four.
abbrev two_bids : Book
two_bids = record {
  assigned_ticker = 0;
  client_orders = λ _ _. none;
  bids = some 0;
  asks = none;
  price_levels = update (λ _. none) 40 (some 0);
  level_pool = record {
    blocks = update (λ _. none) 0 (some bid_level);
    size = 4;
    next_free = 1;
    free_count = 3;
    last_freed = 0;
  };
  order_pool = record {
    blocks =
        update (update (λ _. none) 0 (some (bid_at 1 7 1 (some 1) (some 1)))) 1
          (some (bid_at 2 8 2 (some 0) (some 0)));
    size = 4;
    next_free = 2;
    free_count = 2;
    last_freed = 0;
  };
  next_market_oid = 9;
  sent = [];
}

first_bid : Live two_bids.order_pool 0 (bid_at 1 7 1 (some 1) (some 1))
first_bid = record { in_pool = omega arith; holds = refl }

second_bid : Live two_bids.order_pool 1 (bid_at 2 8 2 (some 0) (some 0))
second_bid = record { in_pool = omega arith; holds = refl }

two_bids-IsQueue : IsQueue two_bids 0 bid_level 0 (1 ∷ [])
unfolding next_order prev_order
two_bids-IsQueue = record {
  there = record { in_pool = omega arith; holds = refl };
  head = refl;
  orders = record {
    live = ((_, first_bid), ((_, second_bid), tt));
    distinct = (((omega arith), tt), (tt, tt));
    ring = (refl, refl, (refl, refl));
  };
}

two_bids-IsValid : IsValid two_bids.order_pool
unfolding total
two_bids-IsValid = record {
  small = omega arith;
  counted = refl;
  next_in = λ _. omega arith;
  next_is_free = λ _. refl;
}

rest_order-Appended_example :
    (b' : Book) × (rest_order 3 9 0 buy (pos 40) 5 9 two_bids ≡ ok (tt, b'))
    × Appended two_bids 3 9 buy (pos 40) 5 0 bid_level 0 (1 ∷ []) 2 2 b'
unfolding price_to_index
rest_order-Appended_example =
    rest_order-Appended 3 9 0 buy (pos 40) 5 9 two_bids 0 bid_level 0 (1 ∷ [])
      (bid_at 2 8 2 (some 0) (some 0)) two_bids-IsQueue refl second_bid two_bids-IsValid
      (omega arith) (omega arith) (omega arith)

-- The same book, where the client map leads to the first bid.
abbrev listed_bids : Book
listed_bids = record two_bids {
  client_orders = update (λ _ _. none) 1 (update (λ _. none) 7 (some 0));
}

listed_bids-HasQueue : HasQueue listed_bids 0 (0 ∷ 1 ∷ [])
listed_bids-HasQueue =
    (bid_level, IsQueue-sent two_bids _ two_bids.sent 0 bid_level 0 (1 ∷ []) two_bids-IsQueue)

listed_bids-HasLevels : HasLevels listed_bids buy (0 ∷ [])
unfolding next_level prev_level
listed_bids-HasLevels = (
  refl,
  record {
    live = ((_, record { in_pool = omega arith; holds = refl }), tt);
    distinct = (tt, tt);
    ring = (refl, refl);
  },
)

cancel_order-Removed_example :
    (b' : Book) × (cancel_order 1 7 0 listed_bids ≡ ok (tt, b'))
    × HasSide b' buy [] 0 (1 ∷ []) []
    × (b'.order_pool.blocks 0 ≡ none)
    × (b'.client_orders 1 7 ≡ none)
    × (b'.sent
        ≡ cancel_update 0 (bid_at 1 7 1 (some 1) (some 1))
          ∷ cancelled_response 0 (bid_at 1 7 1 (some 1) (some 1))
          ∷ [])
unfolding price_to_index
cancel_order-Removed_example =
    cancel_order-Removed listed_bids 0 0 0 (bid_at 1 7 1 (some 1) (some 1))
      (record { in_pool = omega arith; holds = refl }) refl (omega arith) (omega arith) [] [] []
      (1 ∷ []) refl listed_bids-HasQueue listed_bids-HasLevels

abbrev ask_level : ℕ → Option ℕ → Option ℕ → OrdersAtPrice
ask_level price prev next = record {
  side = sell;
  price = pos price;
  order0 = none;
  prev = prev;
  next = next;
}

-- Levels of asks at 10 and 20, and one at 30 that is not in the ring yet.
abbrev two_asks : Book
two_asks = record two_bids {
  bids = none;
  asks = some 0;
  level_pool = record {
    blocks =
        update
          (update (update (λ _. none) 0 (some (ask_level 10 (some 1) (some 1)))) 1
            (some (ask_level 20 (some 0) (some 0))))
          2 (some (ask_level 30 none none));
    size = 4;
    next_free = 3;
    free_count = 1;
    last_freed = 0;
  };
}

two_asks-HasLevels : HasLevels two_asks sell (0 ∷ 1 ∷ [])
unfolding next_level prev_level
two_asks-HasLevels = (
  refl,
  record {
    live = (
      (_, record { in_pool = omega arith; holds = refl }),
      ((_, record { in_pool = omega arith; holds = refl }), tt),
    );
    distinct = (((omega arith), tt), (tt, tt));
    ring = (refl, refl, (refl, refl));
  },
)

add_price_level-IsOrdered_example :
    (b' : Book) × (add_price_level (some 2) two_asks ≡ ok (tt, b'))
    × HasLevels b' sell (0 ∷ 2 ∷ 1 ∷ [])
    × (IsOrdered sell (map (level_price b') (0 ∷ 2 ∷ 1 ∷ []))
        ↔ (¬ IsWorstOfMany (level_price two_asks) sell 2 (0 ∷ 1 ∷ [])))
unfolding level_price
add_price_level-IsOrdered_example =
    add_price_level-IsOrdered two_asks 2 (ask_level 30 none none) (0 ∷ 1 ∷ []) two_asks-HasLevels
      (record { in_pool = omega arith; holds = refl }) (omega arith, (omega arith, tt)) tt
      ((λ e. cc), ((λ e. cc), tt)) (omega arith, tt)
