-- ===== src/Book/Resting.antt =====
-- What `addOrder` leaves in the book when it returns.
use hft_sys.Common.{
  ℕ, ◌<◌, ◌≡◌, refl, sym, subst, true, false, arith, Fault, Result, ok, fail, ◌==◌, if◌then◌else◌,
  List, [], ◌∷◌, ◌++◌, Option,
}
use hft_sys.Common.Int.{ℤ}
use hft_sys.Exchange.{Side}
use hft_sys.Exchange.Messages.{update, UpdateType, Message}
use hft_sys.Book.{Book, pure, allocate_order, get_new_market_order_id}
use hft_sys.Book.Levels.{get_next_priority}
use hft_sys.Book.Orders.{add_order_to_book}
use hft_sys.Book.Match.{find_match}
use hft_sys.Book.Handlers.{rest_order, add_order}
use hft_sys.Book.Keeps.{Ends, Ends-bind}
use hft_sys.Book.Weight.{NotFuel, weight}
use hft_sys.Book.Rounds.{find_match-quantity}

-- Every fault is allowed: the postcondition is about runs that return.
abbrev pub AnyFault : Fault → Type 0
AnyFault _ = Unit

pub any-Ends : {A : Type 0} (r : Result (A × Book)) → Ends AnyFault (λ _ _. Unit {0}) r
any-Ends (ok (_, _)) = tt
any-Ends (fail _) = tt

pub weaker :
    {A : Type 0} (P : A → Book → Type 0) (r : Result (A × Book))
    → Ends NotFuel P r
    → Ends AnyFault P r
weaker P (ok (_, _)) h = h
weaker P (fail _) h = tt

pub find_match-any :
    (word_below : Book → ℕ → Option ℕ) (fuel client oid ticker : ℕ) (side : Side) (price : ℤ)
    (qty market_oid : ℕ) (b : Book)
    → weight b.order_pool < fuel
    → Ends AnyFault
        (λ r _. r ≡ qty)
        (find_match word_below fuel client oid ticker side price qty market_oid b)
find_match-any word_below fuel client oid ticker side price qty market_oid b enough =
    weaker (λ r _. r ≡ qty)
      (find_match word_below fuel client oid ticker side price qty market_oid b)
      (find_match-quantity word_below client oid ticker side price qty market_oid fuel b enough)

-- The last message of the book is that the order `oid` was added with the quantity.
abbrev pub EndsWithAdd : ℕ → ℕ → Side → ℤ → ℕ → Book → Type 0
EndsWithAdd oid ticker side price qty b =
    (before : List Message) × (priority : ℕ) × (b.sent
      ≡ before
        ++ update (record {
          type = UpdateType.add;
          order_id = oid;
          ticker_id = ticker;
          side = side;
          price = price;
          qty = qty;
          priority = priority;
        })
          ∷ [])

rest_order-Ends :
    (client oid ticker : ℕ) (side : Side) (price : ℤ) (qty market_oid : ℕ) (b : Book)
    → Ends AnyFault
        (λ _ b'. EndsWithAdd market_oid ticker side price qty b')
        (rest_order client oid ticker side price qty market_oid b)
unfolding rest_order
rest_order-Ends client oid ticker side price qty market_oid b =
    let Q = λ (_ : Unit {0}) (b' : Book). EndsWithAdd market_oid ticker side price qty b' in
    Ends-bind AnyFault {P = λ _ _. Unit {0}} Q (get_next_priority price) _ b
      (any-Ends (get_next_priority price b))
      λ priority b1 _.
        Ends-bind AnyFault {P = λ _ _. Unit {0}} Q (allocate_order _) _ b1
          (any-Ends (allocate_order _ b1))
          λ order b2 _.
            Ends-bind AnyFault {P = λ _ _. Unit {0}} Q (add_order_to_book order) _ b2
              (any-Ends (add_order_to_book order b2)) λ _ b3 _. (b3.sent, priority, refl)

-- When `addOrder` returns for an order whose quantity is not 0, its last message is that the whole of
-- the quantity has been added to the book under the new market order id, whatever part of it was
-- filled on the way.
pub add_order-adds :
    (word_below : Book → ℕ → Option ℕ) (fuel client oid ticker : ℕ) (side : Side) (price : ℤ)
    (qty : ℕ) (b : Book)
    → weight b.order_pool < fuel
    → 0 < qty
    → Ends AnyFault
        (λ _ b'. EndsWithAdd b.next_market_oid ticker side price qty b')
        (add_order word_below fuel client oid ticker side price qty b)
unfolding add_order get_new_market_order_id
add_order-adds word_below fuel client oid ticker side price qty b enough pos =
    let Q = λ (_ : Unit {0}) (b' : Book). EndsWithAdd b.next_market_oid ticker side price qty b' in
    Ends-bind AnyFault Q
      (find_match word_below fuel client oid ticker side price qty b.next_market_oid) _ _
      (find_match-any word_below fuel client oid ticker side price qty b.next_market_oid _ enough)
      λ remains b' same. go (remains == 0) remains b' refl same
  where
    go :
        (t : _) (remains : ℕ) (b' : Book)
        → (remains == 0) ≡ t
        → remains ≡ qty
        → Ends AnyFault
            (λ _ b'. EndsWithAdd b.next_market_oid ticker side price qty b')
            ((if t
                then pure tt
                else rest_order client oid ticker side price remains b.next_market_oid)
              b')
    go true remains b' e same = absurd (ground arith)
    go false remains b' e same =
        subst
          (λ r.
            Ends AnyFault (λ _ c. EndsWithAdd b.next_market_oid ticker side price qty c)
              (rest_order client oid ticker side price r b.next_market_oid b'))
          (sym same) (rest_order-Ends client oid ticker side price qty b.next_market_oid b')
