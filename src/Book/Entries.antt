-- ===== src/Book/Entries.antt =====
-- The client map under `findMatch`: what it holds stays true.
use hft_sys.Common.{
  ◌∙◌, ℕ, zero, suc, ◌≡◌, refl, sym, subst, inl, inr, Option, none, some, min, Result, ok, fail,
  if◌then◌else◌, Bool-cases, ◌==◌,
}
use hft_sys.Common.Int.{ℤ}
use hft_sys.Exchange.Messages.{MarketUpdate}
use hft_sys.Exchange.{Order, Side, is_buy, is_sell}
use hft_sys.Book.{
  Book, M, ◌>>◌, order_at, set_order, set_client_order, publish, deallocate_order, same_pointer,
}
use hft_sys.Book.Access.{set_order-cases}
use hft_sys.Book.Orders.{remove_order_from_book}
use hft_sys.Book.Match.{
  read_moved, match_order, match_best, match_loop, find_match, does_not_cross, other_side,
}
use hft_sys.Book.Keeps.{
  Ends, Ends-bind, Faults, bind_turn, Keeps, branch, pure-Keeps, Keeps-order_at, Keeps-level_at,
  Keeps-get_level_for_price, Keeps-publish,
}
use hft_sys.Book.Links.{Keeps-unlink_order, Keeps-remove_price_level}
use hft_sys.Book.Weight.{NotFuel}
use hft_sys.Book.Rounds.{Points, filled, order_at-Ends, read_moved-Ends}
use hft_sys.Book.Resting.{AnyFault, weaker}
use hft_sys.Book.Keyed.{Keyed, Keyed-written, Keyed-IsLinkFree, drop_order-Ends, AfterDrop}

pub any_fault : Faults AnyFault
any_fault = record { may_be_undefined = tt; may_terminate = tt }

abbrev pub KeepsKeys : {A : Type 0} → M A → Type 0
KeepsKeys m = Keeps AnyFault any_fault Keyed m

-- What holds of a run that does not use up its fuel holds whatever it does.
weakened :
    {A : Type 0} (P Q : A → Book → Type 0) (r : Result (A × Book))
    → ((a : A) (b : Book) → P a b → Q a b)
    → Ends NotFuel P r
    → Ends AnyFault Q r
weakened P Q (ok (a, b)) k h = k a b h
weakened P Q (fail e) k h = tt

-- An order that is read is alive, and the book stays as it is.
pub read_order-Ends :
    (p : Option ℕ) (b : Book) → Ends AnyFault (λ o b'. (b' ≡ b) × Points b p o) (order_at p b)
read_order-Ends p b =
    weakened (λ o b'. (b' ≡ b) × Points b p o) (λ o b'. (b' ≡ b) × Points b p o) (order_at p b)
      (λ o c h. h) (order_at-Ends p b)

abbrev pub KeyedBook : Unit {0} → Book → Type 0
KeyedBook _ b = Keyed b.order_pool b.client_orders

drop-Keyed :
    (p : Option ℕ) (o : Order) (b : Book)
    → Points b p o
    → Keyed b.order_pool b.client_orders
    → Ends AnyFault KeyedBook
        ((set_client_order o.client_id o.client_order_id none >> deallocate_order p) b)
drop-Keyed p o b live keyed =
    weakened (AfterDrop o) KeyedBook
      ((set_client_order o.client_id o.client_order_id none >> deallocate_order p) b)
      (λ _ c gone. gone.0) (drop_order-Ends p o b live keyed)

KeepsKeys-remove_order_from_book : (p : Option ℕ) → KeepsKeys (remove_order_from_book p)
unfolding remove_order_from_book
KeepsKeys-remove_order_from_book p = bind_turn (Keeps-order_at AnyFault any_fault Keyed p) λ o.
    bind_turn (Keeps-get_level_for_price AnyFault any_fault Keyed o.price) λ level.
      bind_turn
        (branch AnyFault any_fault Keyed (same_pointer o.prev p)
          (Keeps-remove_price_level AnyFault any_fault Keyed o.side o.price)
          (Keeps-unlink_order AnyFault any_fault Keyed Keyed-IsLinkFree p level))
        λ _. record {
          apply = λ b keyed.
              Ends-bind AnyFault KeyedBook (order_at p) _ b (read_order-Ends p b)
                λ o' b' (same, live).
                  drop-Keyed p o' b' (subst (λ c. Points c p o') (sym same) live)
                    (subst (λ c. Keyed c.order_pool c.client_orders) (sym same) keyed);
        }

KeepsKeys-set_order :
    (p : Option ℕ) (f : Order → Order)
    → ((o : Order) → ((f o).client_id ≡ o.client_id) × ((f o).client_order_id ≡ o.client_order_id))
    → KeepsKeys (set_order p f)
KeepsKeys-set_order p f same = record {
  apply = λ b keyed. elim (set_order-cases p f b) [
    | inl e ↦ rw e tt
    | inr (i, o, _, l, e) ↦
        rw e
          (Keyed-written b.order_pool b.client_orders i o (f o) l.holds (same o).0 (same o).1 keyed)
  ];
}

-- The end of `matchOrder`.
settle-Keyed :
    (p : Option ℕ) (left : ℕ) (u v : MarketUpdate)
    → KeepsKeys (if left == 0 then publish u >> remove_order_from_book p else publish v)
settle-Keyed p left u v =
    branch AnyFault any_fault Keyed (left == 0)
      (bind_turn (Keeps-publish AnyFault any_fault Keyed u) λ _. KeepsKeys-remove_order_from_book p)
      (Keeps-publish AnyFault any_fault Keyed v)

module _ (word_below : Book → ℕ → Option ℕ) (client oid ticker : ℕ) (side : Side) (price : ℤ)
    (qty market_oid : ℕ) where
  KeepsKeys-match_order :
      (p : Option ℕ) → KeepsKeys (match_order word_below ticker client side oid market_oid p qty)
  unfolding match_order
  KeepsKeys-match_order p = record {
    apply = λ b keyed.
        Ends-bind AnyFault KeyedBook (order_at p) _ b (read_order-Ends p b) λ o b1 (same1, _).
          Ends-bind AnyFault KeyedBook (read_moved word_below qty (min qty o.qty)) _ b1
            (weaker (λ _ b'. b' ≡ b1) (read_moved word_below qty (min qty o.qty) b1)
              (read_moved-Ends word_below qty (min qty o.qty) b1))
            λ _ b0 same0.
              Ends-bind AnyFault KeyedBook (set_order p (λ x. filled (min qty o.qty) x)) _ b0
                ((KeepsKeys-set_order p (λ x. filled (min qty o.qty) x) (λ x. (refl, refl))).apply
                  b0 (subst (λ c. Keyed c.order_pool c.client_orders) (sym (same0 ∙ same1)) keyed))
                λ _ b2 keyed2.
                  Ends-bind AnyFault KeyedBook (order_at p) _ b2 (read_order-Ends p b2)
                    λ o' b3 (same3, _).
                      (settle-Keyed p o'.qty _ _).apply _
                        (subst (λ c. Keyed c.order_pool c.client_orders) (sym same3) keyed2);
  }

  KeepsKeys-match_best :
      (rest : M ℕ) (p : Option ℕ)
      → KeepsKeys rest
      → KeepsKeys (match_best word_below client oid ticker side price qty market_oid rest p)
  unfolding match_best
  KeepsKeys-match_best rest none h = pure-Keeps AnyFault any_fault Keyed qty
  KeepsKeys-match_best rest (some p) h =
      bind_turn (Keeps-level_at AnyFault any_fault Keyed (some p)) λ level.
        bind_turn (Keeps-order_at AnyFault any_fault Keyed level.order0) λ first.
          branch AnyFault any_fault Keyed (does_not_cross side price first.price)
            (pure-Keeps AnyFault any_fault Keyed qty)
            (bind_turn (KeepsKeys-match_order level.order0) λ _. h)

  KeepsKeys-match_loop :
      (fuel : ℕ)
      → KeepsKeys (match_loop word_below fuel client oid ticker side price qty market_oid)
  unfolding match_loop
  KeepsKeys-match_loop zero = record { apply = λ b keyed. tt }
  KeepsKeys-match_loop (suc fuel) = record {
    apply = λ b keyed. elim (Bool-cases (qty == 0)) [
      | inl e ↦ rw (e) keyed
      | inr e ↦
          rw (e)
            ((KeepsKeys-match_best _ (other_side side b) (KeepsKeys-match_loop fuel)).apply b keyed)
    ];
  }

  pub KeepsKeys-find_match :
      (fuel : ℕ)
      → KeepsKeys (find_match word_below fuel client oid ticker side price qty market_oid)
  unfolding find_match
  KeepsKeys-find_match fuel = record {
    apply = λ b keyed. elim (Bool-cases (is_buy side)) [
      | inl e ↦ rw (e) ((KeepsKeys-match_loop fuel).apply b keyed)
      | inr e ↦ elim (Bool-cases (is_sell side)) [
        | inl e' ↦ rw (e, e') ((KeepsKeys-match_loop fuel).apply b keyed)
        | inr e' ↦ rw (e, e') keyed
      ]
    ];
  }
