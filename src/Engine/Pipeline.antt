-- ===== src/Engine/Pipeline.antt =====
-- From the gateway's sequencer to the books: the queue of requests between them.
use hft_sys.Common.{
  ℕ, zero, suc, ◌≤◌, ◌≡◌, refl, sym, ap, subst, ◌∙◌, List, [], ◌∷◌, ◌++◌, length, take, drop, arith,
  some, Result, ok, fail, ◌>>=◌, ltb, update, undefined, if◌then◌else◌, Bool, true, false, Option,
}
use hft_sys.Exchange.{max_tickers}
use hft_sys.Exchange.Messages.{
  RequestType, new, cancel, ClientRequest, Message, response, update as market_update,
}
use hft_sys.LfQueue.{Queue, pop}
use hft_sys.LfQueue.Refine.{IsValid, contents, pop-some}
use hft_sys.LfQueue.Fifo.{length-contents}
use hft_sys.Sequencer.{Sequencer, sequence_and_publish}
use hft_sys.Sequencer.Sorting.{StdSort}
use hft_sys.Sequencer.Publish.{requests, free_slots, sequence_and_publish_lem}
use hft_sys.Book.{Book, M}
use hft_sys.Book.Handlers.{add_order, cancel_order}
use hft_sys.Engine.{
  Engine, dispatch_client_response, publish_market_update, deliver, on_book, handle_client_request,
  engine_round,
}

abbrev pub with_requests : Queue ClientRequest → Engine → Engine
with_requests q e = record e { rx_requests = q }

abbrev swapped : Queue ClientRequest → Result Engine → Result Engine
swapped q (ok e) = ok (with_requests q e)
swapped q (fail f) = fail f

deliver-swap :
    (ms : List Message) (q : Queue ClientRequest) (e : Engine)
    → deliver ms (with_requests q e) ≡ with_requests q (deliver ms e)
unfolding deliver dispatch_client_response publish_market_update
deliver-swap [] q e = refl
deliver-swap (response r ∷ ms) q e = deliver-swap ms q (dispatch_client_response r e)
deliver-swap (market_update u ∷ ms) q e = deliver-swap ms q (publish_market_update u e)

on_book-swap :
    (ticker : ℕ) (method : M (Unit {0})) (q : Queue ClientRequest) (e : Engine)
    → on_book ticker method (with_requests q e) ≡ swapped q (on_book ticker method e)
unfolding on_book
on_book-swap ticker method q e =
    decided (ltb ticker max_tickers) (method (record (e.books ticker) { sent = [] }))
  where
    decided :
        (t : Bool) (r : Result (Unit {0} × Book))
        → (if t
            then elim r [
              | fail f ↦ fail f
              | ok (_, b) ↦
                  ok
                    (deliver b.sent (record e { rx_requests = q; books = update e.books ticker b }))
            ]
            else fail undefined)
          ≡ swapped q (
              if t
              then elim r [
                | fail f ↦ fail f
                | ok (_, b) ↦ ok (deliver b.sent (record e { books = update e.books ticker b }))
              ]
              else fail undefined)
    decided false r = refl
    decided true (fail f) = refl
    decided true (ok (_, b)) =
        ap ok (deliver-swap b.sent q (record e { books = update e.books ticker b }))

module _ (word_below : Book → ℕ → Option ℕ) (fuel : ℕ) where
  handle-swap :
      (r : ClientRequest) (q : Queue ClientRequest) (e : Engine)
      → handle_client_request word_below fuel r (with_requests q e)
        ≡ swapped q (handle_client_request word_below fuel r e)
  unfolding handle_client_request
  handle-swap r q e = by_type r.type
    where
      by_type :
          (t : RequestType)
          → handle_client_request word_below fuel (record r { type = t }) (with_requests q e)
            ≡ swapped q (handle_client_request word_below fuel (record r { type = t }) e)
      by_type new =
          on_book-swap r.ticker_id
            (add_order word_below fuel r.client_id r.order_id r.ticker_id r.side r.price r.qty) q e
      by_type cancel =
          on_book-swap r.ticker_id (cancel_order r.client_id r.order_id r.ticker_id) q e
      by_type RequestType.invalid = refl
      by_type (RequestType.other _) = refl

  -- Rounds of the engine's loop.
  pub engine_rounds : ℕ → Engine → Result Engine
  engine_rounds zero e = ok e
  engine_rounds (suc n) e = engine_round word_below fuel e >>= engine_rounds n

  -- Requests handled one after the other.
  pub handle_all : List ClientRequest → Engine → Result Engine
  handle_all [] e = ok e
  handle_all (r ∷ rs) e = handle_client_request word_below fuel r e >>= handle_all rs

-- The first run ends like the second, but for the queue of requests, which it has emptied.
abbrev pub Follows : Result Engine → Result Engine → Type 0
Follows (ok e) (ok e') =
    (q : Queue ClientRequest) × IsValid q × (contents q ≡ []) × (e ≡ with_requests q e')
Follows (fail f) (fail g) = f ≡ g
Follows _ _ = ⊥

abbrev first_of : ClientRequest → List ClientRequest → ClientRequest
first_of x [] = x
first_of x (r ∷ rs) = r

take-all : (n : ℕ) (xs : List ClientRequest) → length xs ≤ n → take n xs ≡ xs
take-all zero [] h = refl
take-all (suc n) [] h = refl
take-all zero (x ∷ xs) h = absurd (omega arith)
take-all (suc n) (x ∷ xs) h = ap (λ ys. x ∷ ys) (take-all n xs (omega arith))

Follows-swap :
    (f : Engine → Result Engine) (g : Engine → Result Engine) (q : Queue ClientRequest)
    (r : Result Engine)
    → ((e : Engine) → Follows (f (with_requests q e)) (g e))
    → Follows (swapped q r >>= f) (r >>= g)
Follows-swap f g q (ok e) h = h e
Follows-swap f g q (fail x) h = refl

module _ (word_below : Book → ℕ → Option ℕ) (fuel : ℕ) where
  popped_round :
      (e : Engine) {r : ClientRequest} {q : Queue ClientRequest}
      → pop e.rx_requests ≡ ok (some r, q)
      → engine_round word_below fuel e ≡ handle_client_request word_below fuel r (with_requests q e)
  unfolding engine_round
  popped_round e h = rw (h, engine_round) refl

  -- As many rounds of the engine as there are requests handle them in the order of the queue.
  engine_rounds-Follows :
      (rs : List ClientRequest) (q : Queue ClientRequest) (e : Engine)
      → IsValid q
      → contents q ≡ rs
      → Follows
          (engine_rounds word_below fuel (length rs) (with_requests q e))
          (handle_all word_below fuel rs e)
  unfolding engine_rounds handle_all
  engine_rounds-Follows [] q e val same = (q, val, same, refl)
  engine_rounds-Follows (r ∷ rs) q e val same =
      let (q', p) = pop-some q val (omega (arith, length-contents q, ap length same)) in
      let cut = sym p.contents_lem ∙ same in
      let first : p.head ≡ r = ap (λ xs. first_of r xs) cut in
      let round =
        popped_round (with_requests q e) p.run
        ∙ (ap (λ x. handle_client_request word_below fuel x (with_requests q' e)) first
            ∙ handle-swap word_below fuel r q' e) in
      subst
        (λ m.
          Follows (m >>= engine_rounds word_below fuel (length rs))
            (handle_client_request word_below fuel r e >>= handle_all word_below fuel rs))
        (sym round)
        (Follows-swap (engine_rounds word_below fuel (length rs)) (handle_all word_below fuel rs) q'
          (handle_client_request word_below fuel r e)
          λ e'. engine_rounds-Follows rs q' e' p.valid (ap (λ xs. drop 1 xs) cut))

  -- A round of the sequencer into an empty queue with room for all that is pending, and then as many rounds of
  -- the engine: the engine ends as if it had handled the pending requests one after the other in the order of the
  -- sort, with the same fault if there is one, and with an empty queue.
  pub sequenced-Follows :
      (std : StdSort) (s : Sequencer) (q : Queue ClientRequest) (e : Engine)
      → IsValid q
      → contents q ≡ []
      → length (requests (std.sort s.pending)) ≤ q.capacity
      → Follows
          (engine_rounds word_below fuel
            (length (requests (std.sort s.pending)))
            (with_requests (sequence_and_publish std.sort s q).1 e))
          (handle_all word_below fuel (requests (std.sort s.pending)) e)
  sequenced-Follows std s q e val empty room =
      let done = sequence_and_publish_lem std s q val in
      let rs = requests (std.sort s.pending) in
      engine_rounds-Follows rs (sequence_and_publish std.sort s q).1 e done.1 (
        done.2
        ∙ (ap (λ xs. xs ++ take (free_slots q) rs) empty
            ∙ take-all (free_slots q) rs (omega (arith, length-contents q, ap length empty))))
