-- ===== src/Book/Weight.antt =====
-- The measure that every round of `findMatch` lowers: over the live orders, one more than the open
-- quantity.
use hft_sys.Common.{
  ℕ, suc, ◌+◌, ◌≤◌, ◌<◌, ◌≡◌, ◌≢◌, ap, inl, inr, Option, none, some, arith, Fault, undefined,
  terminated, out_of_fuel,
}
use hft_sys.Pool.{Pool}
use hft_sys.Pool.Access.{Live, written, freed, deallocate-Live, deallocate-cases}
use hft_sys.Pool.Count.{total, total-update}
use hft_sys.Exchange.{Order}
use hft_sys.Book.{deallocate_order, set_client_order, same_pointer}
use hft_sys.Book.Access.{set_client_order-cases}
use hft_sys.Book.Orders.{remove_order_from_book}
use hft_sys.Book.Keeps.{
  Ends-of_fail, Ends-of_ok, Faults, Property, Turns, bind_turn, IsLinkFree, Keeps-order_at,
  Keeps-get_level_for_price, branch,
}
use hft_sys.Book.Links.{Keeps-unlink_order, Keeps-remove_price_level}

abbrev pub order_weight : Option Order → ℕ
order_weight none = 0
order_weight (some o) = suc o.qty

abbrev pub weight : Pool Order → ℕ
weight q = total order_weight q.size q.blocks

-- A run that fails does not fail because the model's bound on rounds is too small.
abbrev pub NotFuel : Fault → Type 0
NotFuel e = e ≢ out_of_fuel

pub not_fuel : Faults NotFuel
not_fuel = record { may_be_undefined = λ h. cc; may_terminate = λ h. cc }

abbrev pub AtMost : ℕ → Property
AtMost n q c = weight q ≤ n

abbrev pub Below : ℕ → Property
Below n q c = weight q < n

pub weight-written :
    (q : Pool Order) (p : ℕ) (o o' : Order)
    → Live q p o
    → weight (written q p o') + o.qty ≡ weight q + o'.qty
weight-written q p o o' l =
    let sums = total-update order_weight q.size q.blocks p (some o') l.in_pool in
    let here : order_weight (q.blocks p) ≡ suc o.qty = ap order_weight l.holds in
    omega (arith, sums, here)

weight-freed : (q : Pool Order) (p : ℕ) (o : Order) → Live q p o → weight (freed q p) < weight q
weight-freed q p o l =
    let sums = total-update order_weight q.size q.blocks p none l.in_pool in
    let here : order_weight (q.blocks p) ≡ suc o.qty = ap order_weight l.holds in
    omega (arith, sums, here)

AtMost-IsLinkFree : (n : ℕ) → IsLinkFree (AtMost n)
AtMost-IsLinkFree n q c p o o' in_pool holds same h =
    let same_qty = same.qty in
    let sums = weight-written q p o o' (record { in_pool = in_pool; holds = holds }) in
    omega (arith, sums, same_qty)

drop-deallocate_order :
    (n : ℕ) (p : Option ℕ) → Turns NotFuel (AtMost n) (Below n) (deallocate_order p)
unfolding deallocate_order
drop-deallocate_order n none = record { apply = λ b h. not_fuel.may_terminate }
drop-deallocate_order n (some p) = record {
  apply = λ b h. elim (deallocate-cases b.order_pool p) [
    | inl e ↦
        Ends-of_fail NotFuel (λ _ b'. weight b'.order_pool < n) (deallocate_order (some p) b)
          terminated (ground (arith, e)) not_fuel.may_terminate
    | inr (o, l) ↦
        let less = weight-freed b.order_pool p o l in
        Ends-of_ok NotFuel (λ _ b'. weight b'.order_pool < n) (deallocate_order (some p) b)
          {b = record b { order_pool = freed b.order_pool p }} (ground (arith, deallocate-Live l))
          (omega (arith, less))
  ];
}

set_client_order-AtMost :
    (n client oid : ℕ) (p : Option ℕ)
    → Turns NotFuel (AtMost n) (AtMost n) (set_client_order client oid p)
unfolding set_client_order
set_client_order-AtMost n client oid p = record {
  apply = λ b h. elim (set_client_order-cases client oid p b) [
    | inl e ↦
        Ends-of_fail NotFuel (λ _ b'. weight b'.order_pool ≤ n) (set_client_order client oid p b)
          undefined e not_fuel.may_be_undefined
    | inr e ↦
        Ends-of_ok NotFuel (λ _ b'. weight b'.order_pool ≤ n) (set_client_order client oid p b) e h
  ];
}

-- `removeOrderFromBook` takes an order out of the pool.
pub drop-remove_order_from_book :
    (n : ℕ) (p : Option ℕ) → Turns NotFuel (AtMost n) (Below n) (remove_order_from_book p)
unfolding remove_order_from_book
drop-remove_order_from_book n p =
    let J = AtMost n in
    bind_turn (Keeps-order_at NotFuel not_fuel J p) λ o.
      bind_turn (Keeps-get_level_for_price NotFuel not_fuel J o.price) λ level.
        bind_turn
          (branch NotFuel not_fuel J (same_pointer o.prev p)
            (Keeps-remove_price_level NotFuel not_fuel J o.side o.price)
            (Keeps-unlink_order NotFuel not_fuel J (AtMost-IsLinkFree n) p level))
          λ _. bind_turn (Keeps-order_at NotFuel not_fuel J p) λ o'.
            bind_turn (set_client_order-AtMost n o'.client_id o'.client_order_id none)
              λ _. drop-deallocate_order n p
