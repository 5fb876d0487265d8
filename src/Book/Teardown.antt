-- ===== src/Book/Teardown.antt =====
-- `~OrderBook`, which logs the book it destroys: a destructor lets no exception out, so that one from
-- `toString` terminates the program.
use hft_sys.Common.{
  refl, ℕ, ◌≡◌, none, true, false, Result, ok, fail, ◌⊎◌, inl, inr, terminated, ◌>>=◌,
}
use hft_sys.Book.{Book}
use hft_sys.Book.Printing.{Printed, text, thrown, book_to_string}
use hft_sys.Book.Sorted.{SidesSorted}
use hft_sys.Book.Printable.{IsPrintable, book_to_string-Tells}

-- `mapPriceToPriceLevel_` and the pools are left as they are.
unfoldable cleared : Book → Book
cleared b = record b { bids = none; asks = none; client_orders = λ _ _. none }

unfoldable logged : Book → Printed → Result Book
unfolding cleared
logged b (text _) = ok (cleared b)
logged b (thrown _) = fail terminated

-- `~OrderBook`
unfoldable pub destroy_book : Book → Result Book
unfolding logged
destroy_book b = book_to_string false true b >>= logged b

-- How a destructor of `b` ends: with sides and a client map that lead nowhere, if both sides are in order, and
-- otherwise with the program. The index of the prices stays as it was.
abbrev pub Destroyed : Book → Result Book → Type 0
Destroyed b r =
    (SidesSorted b
      × ((b' : Book) × (r ≡ ok b')
          × (b'.bids ≡ none)
          × (b'.asks ≡ none)
          × ((client oid : ℕ) → b'.client_orders client oid ≡ none)
          × (b'.price_levels ≡ b.price_levels)))
    ⊎ (¬ SidesSorted b × (r ≡ fail terminated))

-- The destructor of a book whose rings close and whose links lead to live orders and levels. If along the ring the
-- asks rise from above the least 64-bit price and the bids fall from below the greatest one, from the best level
-- on, it leaves a book whose sides and client map lead nowhere, and whose index of the prices still leads to the
-- levels that it led to; otherwise it terminates the program.
pub destroy_book-SidesSorted : (b : Book) → IsPrintable b → Destroyed b (destroy_book b)
unfolding destroy_book logged cleared
destroy_book-SidesSorted b h = elim (book_to_string-Tells false b h) [
  | inl (s, (t, e)) ↦ inl (s, (cleared b, rw (e) refl, refl, refl, (λ client oid. refl), refl))
  | inr (s, (t, e)) ↦ inr (s, rw (e) refl)
]
