-- ===== src/Tests/Books.antt =====
-- Scenarios on a small order book.
use hft_sys.Common.{
  none, some, update, sym, subst, ℕ, zero, suc, ◌≡◌, ◌<◌, refl, List, [], ◌∷◌, Option, Result, ok,
  fail, arith,
}
use hft_sys.Common.Int.{ℤ, pos}
use hft_sys.Book.Keyed.{Keyed}
use hft_sys.Book.Cancel.{cancel_order-rejected}
use hft_sys.Exchange.{Order, buy, sell}
use hft_sys.Pool
use hft_sys.Pool.Count.{total}
use hft_sys.Book.{Book, M, pure, ◌>>=◌, ◌>>◌, new_book, level_at}
use hft_sys.Book.Match.{find_match}
use hft_sys.Book.Handlers.{add_order, cancel_order, cancel_rejected}
use hft_sys.Book.Keeps.{Ends}
use hft_sys.Book.Weight.{NotFuel, weight}
use hft_sys.Book.Rounds.{find_match-quantity}
use hft_sys.Book.Resting.{AnyFault, EndsWithAdd, add_order-adds}

abbrev silent : Book → ℕ → Option ℕ
silent b n = some 77

abbrev small_book : Book
small_book = new_book 0 4 4

-- The prices of `n` levels from a level on.
prices : ℕ → Option ℕ → M (List ℤ)
unfolding level_at
prices zero p = pure []
prices (suc n) p = do l ← level_at p; ps ← prices n l.next; pure (l.price ∷ ps)

three_asks : M (List ℤ)
unfolding prices add_order
three_asks = do
  add_order silent 9 1 0 0 sell (pos 10) 5
  add_order silent 9 1 1 0 sell (pos 20) 5
  add_order silent 9 1 2 0 sell (pos 30) 5
  λ b. prices 3 b.asks b

value : {A : Type 0} → Result (A × Book) → Result A
value (ok (a, b)) = ok a
value (fail e) = fail e

-- Asks at 10, 20 and 30, each worse than those before it: the third level stands before the second.
three_asks_run : value (three_asks small_book) ≡ ok (pos 10 ∷ pos 30 ∷ pos 20 ∷ [])
unfolding value three_asks new_book Pool.allocate Pool.update_next_free_index Pool.search Pool.get
    Pool.put
three_asks_run = refl

-- An ask of 5 at 10.
one_ask : M (Unit {0})
unfolding add_order
one_ask = add_order silent 9 1 0 0 sell (pos 10) 5

after : Result (Unit {0} × Book) → Book
after (ok (_, b)) = b
after (fail _) = small_book

abbrev ask_book : Book
ask_book = after (one_ask small_book)

-- Bids of 5 meet the ask, which leaves the book; all of the 5 are still said to be left over.
bid_run : value (find_match silent 9 2 0 0 buy (pos 10) 5 7 ask_book) ≡ ok 5
unfolding value after one_ask new_book find_match Pool.allocate Pool.update_next_free_index
    Pool.search Pool.get Pool.put Pool.deallocate
bid_run = refl

-- The one live order has a weight of 6.
ask_book-weight : weight ask_book.order_pool < 9
unfolding total after one_ask new_book Pool.allocate Pool.update_next_free_index Pool.search
    Pool.get Pool.put
ask_book-weight = omega arith

find_match-quantity_example :
    Ends NotFuel (λ r _. r ≡ 5) (find_match silent 9 2 0 0 buy (pos 10) 5 7 ask_book)
find_match-quantity_example =
    find_match-quantity silent 2 0 0 buy (pos 10) 5 7 9 ask_book ask_book-weight

add_order-adds_example :
    Ends AnyFault
      (λ _ b'. EndsWithAdd ask_book.next_market_oid 0 buy (pos 10) 5 b')
      (add_order silent 9 2 0 0 buy (pos 10) 5 ask_book)
add_order-adds_example =
    add_order-adds silent 9 2 0 0 buy (pos 10) 5 ask_book ask_book-weight (omega arith)

-- The order of the ask in the pool.
abbrev the_ask : Order
the_ask = record {
  ticker_id = 0;
  client_id = 1;
  client_order_id = 0;
  market_order_id = 1;
  side = sell;
  price = pos 10;
  qty = 5;
  priority = 1;
  prev = some 0;
  next = some 0;
}

ask_book_holds : ask_book.order_pool.blocks 0 ≡ some the_ask
unfolding after one_ask new_book Pool.allocate Pool.update_next_free_index Pool.search Pool.get
    Pool.put
ask_book_holds = refl

ask_book_map : ask_book.client_orders ≡ update (λ _ _. none) 1 (update (λ _. none) 0 (some 0))
unfolding after one_ask new_book Pool.allocate Pool.update_next_free_index Pool.search Pool.get
    Pool.put
ask_book_map = refl

only_entry :
    (client oid p : ℕ)
    → update (λ _ _. none) 1 (update (λ _. none) 0 (some 0)) client oid ≡ some p
    → (client ≡ 1) × (oid ≡ 0) × (p ≡ 0)
only_entry client oid p e = ground arith

ask_book-Keyed : Keyed ask_book.order_pool ask_book.client_orders
ask_book-Keyed client oid p e =
    let (e1, e2, e3) =
      only_entry client oid p (subst (λ f. f client oid ≡ some p) ask_book_map e) in
    (
      the_ask,
      subst (λ i. ask_book.order_pool.blocks i ≡ some the_ask) (sym e3) ask_book_holds,
      sym e1,
      sym e2,
    )

cancel_order-rejected_example :
    Ends NotFuel
      (λ _ b'.
        Keyed b'.order_pool b'.client_orders × (cancel_order 1 0 0 b' ≡ cancel_rejected 1 0 0 b'))
      (cancel_order 1 0 0 ask_book)
cancel_order-rejected_example = cancel_order-rejected 1 0 0 ask_book (omega arith) ask_book-Keyed
