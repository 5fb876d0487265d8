-- ===== src/Tests/Prints.antt =====
-- Printing and destroying small order books.
use hft_sys.Common.{ℕ, ◌≡◌, refl, some, true, Result, ok, fail, terminated, arith, inl, inr, Option}
use hft_sys.Common.Int.{pos}
use hft_sys.Exchange.{sell}
use hft_sys.Pool
use hft_sys.Book.{Book, M, ◌>>◌, new_book, level_at, order_at}
use hft_sys.Book.Handlers.{add_order}
use hft_sys.Book.Printing.{book_to_string, order_of, level_of, market_id_of}
use hft_sys.Book.Sorted.{SidesSorted, ring_prices}
use hft_sys.Book.Printable.{IsPrintable, PrintsOrder, Tells, book_to_string-Tells}
use hft_sys.Book.Teardown.{destroy_book, Destroyed, destroy_book-SidesSorted}

abbrev silent : Book → ℕ → Option ℕ
silent b n = some 77

abbrev small_book : Book
small_book = new_book 0 4 4

-- An ask of 5 at 10.
one_ask : M (Unit {0})
unfolding add_order
one_ask = add_order silent 9 1 0 0 sell (pos 10) 5

after : Result (Unit {0} × Book) → Book
after (ok (_, b)) = b
after (fail _) = small_book

abbrev ask_book : Book
ask_book = after (one_ask small_book)

ask_book-IsPrintable : IsPrintable ask_book
unfolding after one_ask new_book Pool.allocate Pool.update_next_free_index Pool.search Pool.get
    Pool.put level_of order_of market_id_of level_at order_at
ask_book-IsPrintable =
    let order0 : PrintsOrder (some 0) ask_book = (_, refl, (_, refl), (_, refl)) in
    record {
      asks_close = (_, refl, ((order0, inl refl), order0, (_, refl), (_, refl)), tt);
      bids_close = tt;
    }

book_to_string-Tells_example : Tells (SidesSorted ask_book) (book_to_string true true ask_book)
book_to_string-Tells_example = book_to_string-Tells true ask_book ask_book-IsPrintable

-- Asks at 10, 20 and 30, which the book links as 10, 30, 20.
three_asks : M (Unit {0})
unfolding add_order
three_asks =
    add_order silent 9 1 0 0 sell (pos 10) 5
    >> add_order silent 9 1 1 0 sell (pos 20) 5
    >> add_order silent 9 1 2 0 sell (pos 30) 5

abbrev crossed_book : Book
crossed_book = after (three_asks small_book)

crossed_book-IsPrintable : IsPrintable crossed_book
unfolding after three_asks new_book Pool.allocate Pool.update_next_free_index Pool.search Pool.get
    Pool.put level_of order_of market_id_of level_at order_at
crossed_book-IsPrintable =
    let order0 : PrintsOrder (some 0) crossed_book = (_, refl, (_, refl), (_, refl)) in
    let order1 : PrintsOrder (some 1) crossed_book = (_, refl, (_, refl), (_, refl)) in
    let order2 : PrintsOrder (some 2) crossed_book = (_, refl, (_, refl), (_, refl)) in
    record {
      asks_close = (
        _,
        refl,
        ((order0, inl refl), order0, (_, refl), (_, refl)),
        (
          _,
          refl,
          ((order2, inl refl), order2, (_, refl), (_, refl)),
          (_, refl, ((order1, inl refl), order1, (_, refl), (_, refl)), tt),
        ),
      );
      bids_close = tt;
    }

destroy_book-SidesSorted_example : Destroyed crossed_book (destroy_book crossed_book)
destroy_book-SidesSorted_example = destroy_book-SidesSorted crossed_book crossed_book-IsPrintable

crossed_book-not_sorted : ¬ SidesSorted crossed_book
unfolding after three_asks new_book Pool.allocate Pool.update_next_free_index Pool.search Pool.get
    Pool.put level_of level_at ring_prices
crossed_book-not_sorted s = omega (arith, s.0.1.1.0)

-- Its destructor terminates the program.
crossed_book_run : destroy_book crossed_book ≡ fail terminated
crossed_book_run = elim (destroy_book-SidesSorted crossed_book crossed_book-IsPrintable) [
  | inl (s, _) ↦ absurd (crossed_book-not_sorted s)
  | inr (_, e) ↦ e
]
