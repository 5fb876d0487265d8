-- ===== src/Tests/Histories.antt =====
-- A book with an order that is added and cancelled.
use hft_sys.Common.{some, ℕ, ◌≡◌, ◌<◌, refl, Result, ok, fail, undefined, arith, Option}
use hft_sys.Common.Int.{pos, negsuc}
use hft_sys.Exchange.{buy, max_price_levels}
use hft_sys.Book.Levels.{price_to_index}
use hft_sys.Book.Exhausted.{add_order-undefined}
use hft_sys.Book.Indices.{residue, price_to_index-residue}
use hft_sys.Pool
use hft_sys.Pool.Count.{total}
use hft_sys.Book.{Book, new_book}
use hft_sys.Book.Handlers.{add_order, cancel_order}
use hft_sys.Book.Keeps.{Ends}
use hft_sys.Book.Weight.{weight}
use hft_sys.Book.Resting.{AnyFault}
use hft_sys.Book.Keyed.{Keyed}
use hft_sys.Book.History.{made, added, Reached-Keyed}
use hft_sys.Book.RoundTrip.{EndsWithCancelled, add_order-cancel_order}

abbrev unread : Book → ℕ → Option ℕ
unread b n = some 7

abbrev four_blocks : Book
four_blocks = new_book 3 4 4

returned_book : Result (Unit {0} × Book) → Book
returned_book (ok (_, b)) = b
returned_book (fail _) = four_blocks

abbrev bid_book : Book
bid_book = returned_book (add_order unread 9 2 5 3 buy (pos 40) 6 four_blocks)

bid_runs : add_order unread 9 2 5 3 buy (pos 40) 6 four_blocks ≡ ok (tt, bid_book)
unfolding returned_book add_order new_book Pool.allocate Pool.update_next_free_index Pool.search
    Pool.get Pool.put
bid_runs = refl

Reached-Keyed_example : Keyed bid_book.order_pool bid_book.client_orders
Reached-Keyed_example = Reached-Keyed (added unread 9 2 5 3 buy (pos 40) 6 (made 3 4 4) bid_runs)

four_blocks-weight : weight four_blocks.order_pool < 9
unfolding total new_book
four_blocks-weight = omega arith

add_order-cancel_order_example :
    Ends AnyFault
      (λ _ b'. Ends AnyFault (EndsWithCancelled 2 5 3 6) (cancel_order 2 5 3 b'))
      (add_order unread 9 2 5 3 buy (pos 40) 6 four_blocks)
add_order-cancel_order_example =
    add_order-cancel_order unread 9 2 5 3 buy (pos 40) 6 four_blocks four_blocks-weight
      (omega arith) (omega arith) (omega arith)

-- A book whose pool of orders has no block.
abbrev no_blocks : Book
no_blocks = new_book 3 4 0

add_order-undefined_example : add_order unread 2 2 5 3 buy (pos 40) 6 no_blocks ≡ fail undefined
unfolding new_book
add_order-undefined_example =
    add_order-undefined unread 2 5 3 buy (pos 40) 6 1 no_blocks (omega arith) refl refl

-- The index of the price -1.
price_to_index-residue_example :
    (price_to_index (negsuc 0) < max_price_levels)
    × (price_to_index (negsuc 0) ≡ residue max_price_levels (negsuc 0))
price_to_index-residue_example = price_to_index-residue (negsuc 0)
