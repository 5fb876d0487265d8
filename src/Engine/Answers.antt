-- ===== src/Engine/Answers.antt =====
-- `handleClientRequest`: what becomes of a request, and what it leaves alone.
use hft_sys.Common.{
  ℕ, ◌<◌, ◌≡◌, ◌≢◌, refl, sym, ap, subst, ◌∙◌, ◌⊎◌, inl, inr, Option, none, some, Bool, true, false,
  List, [], ◌∷◌, ◌++◌, ltb, Result, ok, fail, undefined, terminated, if◌then◌else◌, update,
  update_ne, update_self,
}
use hft_sys.Exchange.{max_tickers}
use hft_sys.Exchange.Messages.{
  RequestType, new, cancel, ClientRequest, ClientResponse, ResponseType, Message, response,
  update as market_update,
}
use hft_sys.Book.{Book, M, order_at}
use hft_sys.Book.Orders.{remove_order_from_book}
use hft_sys.Book.Handlers.{add_order, cancel_order, cancel_found, cancel_rejected}
use hft_sys.Book.Keeps.{Ends, Ends-bind}
use hft_sys.Book.Weight.{weight}
use hft_sys.Book.Resting.{AnyFault, any-Ends, EndsWithAdd, add_order-adds}
use hft_sys.Engine.{
  Engine, dispatch_client_response, publish_market_update, deliver, on_book, handle_client_request,
}

-- The last message of the book answers a cancellation of the client's order `oid`.
abbrev pub EndsWithAnswer : ℕ → ℕ → ℕ → Book → Type 0
EndsWithAnswer client oid ticker b =
    (before : List Message) × (r : ClientResponse) × (b.sent ≡ before ++ response r ∷ [])
    × ((r.type ≡ ResponseType.cancelled) ⊎ (r.type ≡ ResponseType.cancel_rejected))
    × (r.client_id ≡ client)
    × (r.client_order_id ≡ oid)
    × (r.ticker_id ≡ ticker)

cancel_found-Ends :
    (client oid ticker n : ℕ) (b : Book)
    → Ends AnyFault
        (λ _ b'. EndsWithAnswer client oid ticker b')
        (cancel_found client oid ticker n b)
unfolding cancel_found
cancel_found-Ends client oid ticker n b =
    let Q = λ (_ : Unit {0}) (b' : Book). EndsWithAnswer client oid ticker b' in
    Ends-bind AnyFault {P = λ _ _. Unit {0}} Q (order_at (some n)) _ b
      (any-Ends (order_at (some n) b))
      λ o b1 _.
        Ends-bind AnyFault {P = λ _ _. Unit {0}} Q (remove_order_from_book (some n)) _ b1
          (any-Ends (remove_order_from_book (some n) b1))
          λ _ b2 _. (_, _, refl, inl refl, refl, refl, refl)

cancel_order-Ends :
    (client oid ticker : ℕ) (b : Book)
    → Ends AnyFault (λ _ b'. EndsWithAnswer client oid ticker b') (cancel_order client oid ticker b)
unfolding cancel_order cancel_rejected
cancel_order-Ends client oid ticker b = go (ltb client _) (ltb oid _) (b.client_orders client oid)
  where
    rejected :
        Ends AnyFault
          (λ _ b'. EndsWithAnswer client oid ticker b')
          (cancel_rejected client oid ticker b)
    rejected = (_, _, refl, inr refl, refl, refl, refl)

    go :
        (in_clients in_ids : Bool) (found : Option ℕ)
        → Ends AnyFault
            (λ _ b'. EndsWithAnswer client oid ticker b')
            (if in_clients
              then (if in_ids
                  then elim found [
                    | none ↦ cancel_rejected client oid ticker b
                    | some order ↦ cancel_found client oid ticker order b
                  ]
                  else fail terminated)
              else cancel_rejected client oid ticker b)
    go false in_ids found = rejected
    go true false found = tt
    go true true none = rejected
    go true true (some n) = cancel_found-Ends client oid ticker n b

-- From `e` to `e'` the book of the ticker has become one of which `P` holds; the other books and the queue of
-- requests are the same.
pub record Confined (ticker : ℕ) (P : Book → Type 0) (e e' : Engine) : Type 0 where
  pub own_book : P (e'.books ticker)
  pub other_books : (t : ℕ) → t ≢ ticker → e'.books t ≡ e.books t
  pub same_requests : e'.rx_requests ≡ e.rx_requests

-- A run that returns stays confined.
abbrev pub Returns : (Engine → Type 0) → Result Engine → Type 0
Returns P (ok e') = P e'
Returns P (fail _) = Unit

deliver-books : (ms : List Message) (e : Engine) → (deliver ms e).books ≡ e.books
unfolding deliver dispatch_client_response publish_market_update
deliver-books [] e = refl
deliver-books (response r ∷ ms) e = deliver-books ms (dispatch_client_response r e)
deliver-books (market_update u ∷ ms) e = deliver-books ms (publish_market_update u e)

deliver-requests : (ms : List Message) (e : Engine) → (deliver ms e).rx_requests ≡ e.rx_requests
unfolding deliver dispatch_client_response publish_market_update
deliver-requests [] e = refl
deliver-requests (response r ∷ ms) e = deliver-requests ms (dispatch_client_response r e)
deliver-requests (market_update u ∷ ms) e = deliver-requests ms (publish_market_update u e)

on_book-Confined :
    (ticker : ℕ) (P : Book → Type 0) (method : M (Unit {0})) (e : Engine)
    → Ends AnyFault (λ _ b. P b) (method (record (e.books ticker) { sent = [] }))
    → Returns (Confined ticker P e) (on_book ticker method e)
unfolding on_book
on_book-Confined ticker P method e =
    go (ltb ticker max_tickers) (method (record (e.books ticker) { sent = [] }))
  where
    go :
        (in_range : Bool) (r : Result (Unit {0} × Book))
        → Ends AnyFault (λ _ b. P b) r
        → Returns (Confined ticker P e) (
            if in_range
            then elim r [
              | fail f ↦ fail f
              | ok (_, b) ↦ ok (deliver b.sent (record e { books = update e.books ticker b }))
            ]
            else fail undefined)
    go false r h = tt
    go true (fail f) h = tt
    go true (ok (_, b)) h =
        let changed : Engine = record e { books = update e.books ticker b } in
        let same : (t : ℕ) → (deliver b.sent changed).books t ≡ update e.books ticker b t =
          λ t. ap (λ books. books t) (deliver-books b.sent changed) in
        record {
          own_book = subst P (sym (same ticker ∙ update_self e.books ticker b)) h;
          other_books = λ t ne. same t ∙ update_ne e.books ticker b t ne;
          same_requests = deliver-requests b.sent changed;
        }

-- What a request that is handled has done to the engine, by its type.
abbrev pub Answered : RequestType → ClientRequest → Engine → Engine → Type 0
Answered new r e e' =
    Confined r.ticker_id
      (EndsWithAdd (e.books r.ticker_id).next_market_oid r.ticker_id r.side r.price r.qty) e e'
Answered cancel r e e' =
    Confined r.ticker_id (EndsWithAnswer r.client_id r.order_id r.ticker_id) e e'
Answered RequestType.invalid r e e' = e' ≡ e
Answered (RequestType.other _) r e e' = e' ≡ e

-- A request, if it is NEW for a quantity that is not 0, with enough rounds for `findMatch` in the book of its ticker,
-- that the engine has handled: after NEW the last message of this book is the ADD of the whole quantity under the next
-- market order id, and after CANCEL it is a CANCELLED or CANCEL_REJECTED response about the order; the other
-- books and the queue of requests are as they were. A request of any other type changes nothing.
pub handle_client_request-Answered :
    (word_below : Book → ℕ → Option ℕ) (fuel : ℕ) (r : ClientRequest) (e : Engine)
    → weight (e.books r.ticker_id).order_pool < fuel
    → (r.type ≡ new → 0 < r.qty)
    → Returns (Answered r.type r e) (handle_client_request word_below fuel r e)
unfolding handle_client_request
handle_client_request-Answered word_below fuel r e enough pos = go (r.type) refl
  where
    go :
        (t : RequestType)
        → r.type ≡ t
        → Returns (Answered t r e) (elim t [
          | new ↦
              on_book r.ticker_id
                (add_order word_below fuel r.client_id r.order_id r.ticker_id r.side r.price r.qty)
                e
          | cancel ↦ on_book r.ticker_id (cancel_order r.client_id r.order_id r.ticker_id) e
          | _ ↦ ok e
        ])
    go new e_new =
        on_book-Confined r.ticker_id _
          (add_order word_below fuel r.client_id r.order_id r.ticker_id r.side r.price r.qty) e
          (add_order-adds word_below fuel r.client_id r.order_id r.ticker_id r.side r.price r.qty
            (record (e.books r.ticker_id) { sent = [] }) enough (pos e_new))
    go cancel e_cancel =
        on_book-Confined r.ticker_id _ (cancel_order r.client_id r.order_id r.ticker_id) e (
          cancel_order-Ends r.client_id r.order_id r.ticker_id
            (record (e.books r.ticker_id) { sent = [] }))
    go RequestType.invalid e_invalid = refl
    go (RequestType.other _) e_other = refl
