-- ===== src/Book/Cancel.antt =====
-- `cancelOrder` on a book whose client map and order pool agree.
use hft_sys.Common.{
  ℕ, ◌≡◌, ◌<◌, refl, sym, subst, inl, inr, true, false, some, none, Result, ok, fail, terminated,
  ltb, lt→ltb, Bool-cases, Option-cases,
}
use hft_sys.Exchange.{max_n_clients, max_order_ids}
use hft_sys.Book.{Book}
use hft_sys.Book.Handlers.{cancel_found, cancel_rejected, cancel_order}
use hft_sys.Book.Keeps.{Ends, Ends-of_fail, Turns, bind_turn, Keeps-order_at}
use hft_sys.Book.Weight.{NotFuel, not_fuel}
use hft_sys.Book.Keyed.{Keyed, Entry, Gone, remove_order_from_book-Gone}

cancel_found-Gone :
    (client oid ticker i : ℕ)
    → Turns NotFuel (Entry client oid i) (Gone client oid) (cancel_found client oid ticker i)
unfolding cancel_found
cancel_found-Gone client oid ticker i =
    bind_turn (Keeps-order_at NotFuel not_fuel (Entry client oid i) (some i)) λ o.
      bind_turn (remove_order_from_book-Gone client oid i) λ _. record { apply = λ b gone. gone }

rejected-eq :
    (client oid ticker : ℕ) (b : Book)
    → client < max_n_clients
    → ltb oid max_order_ids ≡ true
    → b.client_orders client oid ≡ none
    → cancel_order client oid ticker b ≡ cancel_rejected client oid ticker b
unfolding cancel_order
rejected-eq client oid ticker b in_range small none_there =
    rw (lt→ltb _ _ in_range, small, none_there) refl

found-eq :
    (client oid ticker i : ℕ) (b : Book)
    → client < max_n_clients
    → ltb oid max_order_ids ≡ true
    → b.client_orders client oid ≡ some i
    → cancel_order client oid ticker b ≡ cancel_found client oid ticker i b
unfolding cancel_order
found-eq client oid ticker i b in_range small there = rw (lt→ltb _ _ in_range, small, there) refl

beyond-eq :
    (client oid ticker : ℕ) (b : Book)
    → client < max_n_clients
    → ltb oid max_order_ids ≡ false
    → cancel_order client oid ticker b ≡ fail terminated
unfolding cancel_order
beyond-eq client oid ticker b in_range large = rw (lt→ltb _ _ in_range, large) refl

weaken :
    (P Q : Unit {0} → Book → Type 0) (r : Result (Unit {0} × Book))
    → ((u : Unit {0}) (b : Book) → P u b → Q u b)
    → Ends NotFuel P r
    → Ends NotFuel Q r
weaken P Q (ok (u, b)) k h = k u b h
weaken P Q (fail e) k h = h

-- `cancelOrder` for a client in range, on a book whose map leads to live orders of the right client and
-- id: when it returns, the book is such a book again, and the same cancellation is then rejected.
pub cancel_order-rejected :
    (client oid ticker : ℕ) (b : Book)
    → client < max_n_clients
    → Keyed b.order_pool b.client_orders
    → Ends NotFuel
        (λ _ b'.
          Keyed b'.order_pool b'.client_orders
          × (cancel_order client oid ticker b' ≡ cancel_rejected client oid ticker b'))
        (cancel_order client oid ticker b)
unfolding cancel_rejected
cancel_order-rejected client oid ticker b in_range keyed =
    let post = λ (_ : Unit {0}) (b' : Book).
      Keyed b'.order_pool b'.client_orders
      × (cancel_order client oid ticker b' ≡ cancel_rejected client oid ticker b') in
    elim (Bool-cases (ltb oid max_order_ids)) [
      | inr large ↦
          Ends-of_fail NotFuel post (cancel_order client oid ticker b) terminated
            (beyond-eq client oid ticker b in_range large) not_fuel.may_terminate
      | inl small ↦ elim (Option-cases (b.client_orders client oid)) [
        | inl gone ↦
            subst (λ r. Ends NotFuel post r)
              (sym (rejected-eq client oid ticker b in_range small gone))
              (keyed, rejected-eq client oid ticker _ in_range small gone)
        | inr (i, there) ↦
            subst (λ r. Ends NotFuel post r)
              (sym (found-eq client oid ticker i b in_range small there))
              (weaken (λ _ c. Gone client oid c.order_pool c.client_orders) post
                (cancel_found client oid ticker i b)
                (λ _ c (k, gone). (k, rejected-eq client oid ticker c in_range small gone))
                ((cancel_found-Gone client oid ticker i).apply b (keyed, there)))
      ]
    ]
