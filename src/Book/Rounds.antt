-- ===== src/Book/Rounds.antt =====
-- The rounds of `findMatch`: each one lowers the weight of the order pool, so the loop ends.
use hft_sys.Common.{
  ℕ, zero, suc, ◌+◌, ◌-◌, ◌≤◌, ◌<◌, ◌≡◌, refl, sym, ap, ◌∙◌, subst, inl, inr, Bool, true, false,
  Option, none, some, arith, min, undefined, if◌then◌else◌, Bool-cases, ◌==◌, Result, ok, fail,
  update_self, ◌≢◌, [], ◌∷◌, ◌++◌,
}
use hft_sys.Common.Int.{ℤ}
use hft_sys.Pool.Access.{Live, get-cases, get-Live}
use hft_sys.Exchange.{Order, Side, is_buy, is_sell}
use hft_sys.Book.{Book, M, pure, order_at, level_at, set_order, publish, ◌>>◌}
use hft_sys.Exchange.Messages.{MarketUpdate, update}
use hft_sys.Book.Access.{order_at-cases, set_order-Live}
use hft_sys.Book.Orders.{remove_order_from_book}
use hft_sys.Book.Match.{
  read_moved, match_order, match_best, match_loop, find_match, does_not_cross, other_side,
}
use hft_sys.Book.Keeps.{Ends, Ends-of_fail, Ends-of_ok, Ends-bind}
use hft_sys.Book.Weight.{NotFuel, not_fuel, weight, weight-written, drop-remove_order_from_book}

-- `p` points to the live order `o` of the book.
abbrev pub Points : Book → Option ℕ → Order → Type 0
Points b p o = (i : ℕ) × (p ≡ some i) × Live b.order_pool i o

pub order_at-Ends :
    (p : Option ℕ) (b : Book) → Ends NotFuel (λ o b'. (b' ≡ b) × Points b p o) (order_at p b)
order_at-Ends p b = elim (order_at-cases p b) [
  | inl e ↦ Ends-of_fail NotFuel _ (order_at p b) undefined e not_fuel.may_be_undefined
  | inr (i, o, s, l, e) ↦ Ends-of_ok NotFuel _ (order_at p b) {a = o} {b = b} e (refl, (i, s, l))
]

-- What is left of an order after a fill of at most the open quantity.
abbrev pub filled : ℕ → Order → Order
filled n o = record o { qty = o.qty - n }

-- The order is filled in place: it loses the filled quantity, and so does the pool.
abbrev Filled : Option ℕ → Order → ℕ → Book → Book → Type 0
Filled p o n b b' = Points b' p (filled n o) × (weight b'.order_pool + n ≡ weight b.order_pool)

set_order-Ends :
    (p : Option ℕ) (o : Order) (n : ℕ) (b : Book)
    → n ≤ o.qty
    → Points b p o
    → Ends NotFuel (λ _ b'. Filled p o n b b') (set_order p (λ x. filled n x) b)
set_order-Ends p o n b fits (i, s, l) =
    subst (λ p. Ends NotFuel (λ _ b'. Filled p o n b b') (set_order p (λ x. filled n x) b)) (sym s)
      (Ends-of_ok NotFuel (λ _ b'. Filled (some i) o n b b')
        (set_order (some i) (λ x. filled n x) b) (set_order-Live (λ x. filled n x) l)
        (
          (
            i,
            refl,
            record {
              in_pool = l.in_pool;
              holds = update_self b.order_pool.blocks i (some (filled n o));
            },
          ),
          omega (arith, weight-written b.order_pool i o (filled n o) l),
        ))

-- Two reads of a pointer agree.
pub same_order : (b : Book) (p : Option ℕ) {o o' : Order} → Points b p o → Points b p o' → o ≡ o'
same_order b p (i, s, l) (i', s', l') = grind arith

-- The read through the moved pointer changes nothing, where it does not fail.
pub read_moved-Ends :
    (word_below : Book → ℕ → Option ℕ) (qty fill : ℕ) (b : Book)
    → Ends NotFuel (λ _ b'. b' ≡ b) (read_moved word_below qty fill b)
read_moved-Ends word_below qty fill b = elim (Bool-cases (fill == 0)) [
  | inl e ↦ rw (e) refl
  | inr e ↦ rw (e) (read (word_below b fill))
]
  where
    read :
        (w : Option ℕ)
        → Ends NotFuel
            (λ _ b'. b' ≡ b)
            (elim w as (λ _. Result (ℕ × Book)) [
              | none ↦ fail undefined
              | some word ↦ ok (word, b)
            ])
    read none = not_fuel.may_be_undefined
    read (some word) = refl

left_over : (qty had left : ℕ) → 0 < qty → had - min qty had ≡ left → left ≢ 0 → 0 < min qty had
left_over qty had left pos e h = omega arith

-- The end of `matchOrder`: an order with nothing left is taken out of the book.
settle-Ends :
    (p : Option ℕ) (left n w : ℕ) (u v : MarketUpdate) (b : Book)
    → weight b.order_pool + n ≡ w
    → (left ≢ 0 → 0 < n)
    → Ends NotFuel
        (λ _ b'. weight b'.order_pool < w)
        ((if left == 0 then publish u >> remove_order_from_book p else publish v) b)
settle-Ends p left n w u v b e some_left = go (left == 0) refl
  where
    go :
        (t : Bool)
        → (left == 0) ≡ t
        → Ends NotFuel
            (λ _ b'. weight b'.order_pool < w)
            ((if t then publish u >> remove_order_from_book p else publish v) b)
    go true h =
        (drop-remove_order_from_book w p).apply (record b { sent = b.sent ++ update u ∷ [] })
          (omega (arith, e))
    go false h = omega (arith, e, some_left (ground arith))

-- `matchOrder` for a quantity that is not 0 makes the pool lighter.
match_order-Ends :
    (word_below : Book → ℕ → Option ℕ) (ticker client : ℕ) (side : Side) (oid market_oid : ℕ)
    (p : Option ℕ) (qty : ℕ) (b : Book)
    → 0 < qty
    → Ends NotFuel
        (λ _ b'. weight b'.order_pool < weight b.order_pool)
        (match_order word_below ticker client side oid market_oid p qty b)
unfolding match_order
match_order-Ends word_below ticker client side oid market_oid p qty b pos =
    let less = λ (x : Unit {0}) (b' : Book). weight b'.order_pool < weight b.order_pool in
    Ends-bind NotFuel less (order_at p) _ b (order_at-Ends p b) λ o b1 (same1, live1).
      let n = min qty o.qty in
      Ends-bind NotFuel less (read_moved word_below qty n) _ b1
        (read_moved-Ends word_below qty n b1)
        λ _ b0 same0.
          Ends-bind NotFuel less (set_order p (λ x. filled n x)) _ b0
            (set_order-Ends p o n b0 (omega arith)
              (subst (λ b'. Points b' p o) (sym (same0 ∙ same1)) live1))
            λ _ b2 done.
              Ends-bind NotFuel less (order_at p) _ b2 (order_at-Ends p b2) λ o' b3 (same3, live3).
                settle-Ends p o'.qty n (weight b.order_pool) _ _ _
                  (omega (
                    arith,
                    done.1,
                    ap (λ c. weight c.order_pool) same0,
                    ap (λ c. weight c.order_pool) same1,
                    ap (λ c. weight c.order_pool) same3,
                  ))
                  (λ h.
                    left_over qty o.qty o'.qty pos (ap (λ x. x.qty) (same_order b2 p done.0 live3))
                      h)

level_at-Ends : (p : Option ℕ) (b : Book) → Ends NotFuel (λ _ b'. b' ≡ b) (level_at p b)
unfolding level_at
level_at-Ends none b = not_fuel.may_be_undefined
level_at-Ends (some p) b = elim (get-cases b.level_pool p) [
  | inl e ↦
      Ends-of_fail NotFuel (λ _ b'. b' ≡ b) (level_at (some p) b) undefined (ground (arith, e))
        not_fuel.may_be_undefined
  | inr (l, live) ↦
      Ends-of_ok NotFuel (λ _ b'. b' ≡ b) (level_at (some p) b) {a = l} {b = b}
        (ground (arith, get-Live live)) refl
]

module _ (word_below : Book → ℕ → Option ℕ) (client oid ticker : ℕ) (side : Side) (price : ℤ)
    (qty market_oid : ℕ) where
  abbrev Unchanged : Result (ℕ × Book) → Type 0
  Unchanged r = Ends NotFuel (λ r _. r ≡ qty) r

  match_best-Ends :
      (rest : M ℕ) (p : Option ℕ) (b : Book)
      → 0 < qty
      → ((b' : Book) → weight b'.order_pool < weight b.order_pool → Unchanged (rest b'))
      → Unchanged (match_best word_below client oid ticker side price qty market_oid rest p b)
  unfolding match_best
  match_best-Ends rest none b pos h = refl
  match_best-Ends rest (some p) b pos h =
      Ends-bind NotFuel (λ r _. r ≡ qty) (level_at (some p)) _ b (level_at-Ends (some p) b)
        λ level b1 same1.
          Ends-bind NotFuel (λ r _. r ≡ qty) (order_at level.order0) _ b1
            (order_at-Ends level.order0 b1)
            λ first b2 (same2, _).
              crosses (does_not_cross side price first.price) level.order0 b2
                (ap (λ c. weight c.order_pool) same2 ∙ ap (λ c. weight c.order_pool) same1)
    where
      crosses :
          (t : Bool) (o : Option ℕ) (c : Book)
          → weight c.order_pool ≡ weight b.order_pool
          → Unchanged (
              (if t
                  then pure qty
                  else match_order word_below ticker client side oid market_oid o qty >> rest)
                c)
      crosses true o c e = refl
      crosses false o c e =
          Ends-bind NotFuel (λ r _. r ≡ qty)
            (match_order word_below ticker client side oid market_oid o qty) _ c
            (match_order-Ends word_below ticker client side oid market_oid o qty c pos)
            λ _ c' less. h c' (omega (arith, less, e))

  -- The loop ends after at most as many rounds as the pool has weight, and gives back the quantity
  -- that it was given.
  match_loop-Ends :
      (fuel : ℕ) (b : Book)
      → weight b.order_pool < fuel
      → Unchanged (match_loop word_below fuel client oid ticker side price qty market_oid b)
  unfolding match_loop
  match_loop-Ends zero b enough = absurd (omega arith)
  match_loop-Ends (suc fuel) b enough = elim (Bool-cases (qty == 0)) [
    | inl e ↦ rw (e) refl
    | inr e ↦ rw (e) (
        match_best-Ends _ (other_side side b) b (ground arith)
          λ b' less. match_loop-Ends fuel b' (omega arith))
  ]

  -- The loop of `findMatch` ends, whatever it meets: rounds as many as the weight of the order pool
  -- are enough. When `findMatch` returns, the quantity that it returns as left over is the whole
  -- quantity that was asked for, no matter what it has filled.
  pub find_match-quantity :
      (fuel : ℕ) (b : Book)
      → weight b.order_pool < fuel
      → Unchanged (find_match word_below fuel client oid ticker side price qty market_oid b)
  unfolding find_match
  find_match-quantity fuel b enough = elim (Bool-cases (is_buy side)) [
    | inl e ↦ rw (e) (match_loop-Ends fuel b enough)
    | inr e ↦ elim (Bool-cases (is_sell side)) [
      | inl e' ↦ rw (e, e') (match_loop-Ends fuel b enough)
      | inr e' ↦ rw (e, e') refl
    ]
  ]
