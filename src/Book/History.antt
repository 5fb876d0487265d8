-- ===== src/Book/History.antt =====
-- Books as the engine leaves them: any row of `addOrder` and `cancelOrder` from an empty book.
use hft_sys.Common.{Fault, ℕ, ◌≡◌, subst, Result, ok, dec_lt, le→ltb, arith, Option}
use hft_sys.Common.Int.{ℤ}
use hft_sys.Exchange.{Side, max_n_clients}
use hft_sys.Book.{Book, new_book}
use hft_sys.Book.Handlers.{add_order, cancel_order, cancel_rejected}
use hft_sys.Book.Keeps.{Ends}
use hft_sys.Book.Weight.{NotFuel}
use hft_sys.Book.Resting.{AnyFault}
use hft_sys.Book.Keyed.{Keyed}
use hft_sys.Book.Cancel.{cancel_order-rejected}
use hft_sys.Book.Entering.{KeepsKeys-add_order}

-- The books that are reached by calls that return, from a book with pools of any sizes.
pub data Reached : Book → Type 0 where
  made : (ticker levels orders : ℕ) → Reached (new_book ticker levels orders)
  added :
      {b b' : Book} (word_below : Book → ℕ → Option ℕ) (fuel client oid ticker : ℕ) (side : Side)
      (price : ℤ) (qty : ℕ)
      → Reached b
      → add_order word_below fuel client oid ticker side price qty b ≡ ok (tt, b')
      → Reached b'
  cancelled :
      {b b' : Book} (client oid ticker : ℕ)
      → Reached b
      → cancel_order client oid ticker b ≡ ok (tt, b')
      → Reached b'

-- What holds of the end of a run that returns.
returned :
    (F : Fault → Type 0) (P : Unit {0} → Book → Type 0) {r : Result (Unit {0} × Book)} {b' : Book}
    → Ends F P r
    → r ≡ ok (tt, b')
    → P tt b'
returned F P h e = subst (λ r. Ends F P r) e h

cancelled-Keyed :
    (client oid ticker : ℕ) (b b' : Book)
    → Keyed b.order_pool b.client_orders
    → cancel_order client oid ticker b ≡ ok (tt, b')
    → Keyed b'.order_pool b'.client_orders
unfolding cancel_order cancel_rejected
cancelled-Keyed client oid ticker b b' keyed e = elim (dec_lt client max_n_clients) [
  | yes in_range ↦
      (returned NotFuel
        (λ _ c.
          Keyed c.order_pool c.client_orders
          × (cancel_order client oid ticker c ≡ cancel_rejected client oid ticker c))
        (cancel_order-rejected client oid ticker b in_range keyed) e).0
  | no out ↦
      returned NotFuel (λ _ c. Keyed c.order_pool c.client_orders)
        {r = cancel_order client oid ticker b}
        (rw (le→ltb client max_n_clients (omega arith)) keyed) e
]

-- In every book that is reached, an entry of the client map leads to a live order of that client and id.
pub Reached-Keyed : {b : Book} → Reached b → Keyed b.order_pool b.client_orders
unfolding new_book
Reached-Keyed (made ticker levels orders) = λ client oid p e. absurd cc
Reached-Keyed (added {b} word_below fuel client oid ticker side price qty r e) =
    returned AnyFault (λ _ c. Keyed c.order_pool c.client_orders)
      (KeepsKeys-add_order client oid ticker side price qty word_below fuel b (Reached-Keyed r)) e
Reached-Keyed (cancelled {b} {b'} client oid ticker r e) =
    cancelled-Keyed client oid ticker b b' (Reached-Keyed r) e
