-- ===== src/Book/Keeps.antt =====
-- A calculus for invariants of a book: which methods keep a property of the order pool and of the
-- client map, whatever they do to the links between orders and levels.
use native.Mathlib.Omega.{arith}
use hft_sys.Common.{
  ℕ, ◌<◌, ◌≡◌, Bool, true, false, Option, none, some, inl, inr, Result, ok, fail, Fault, undefined,
  terminated, update, sym, subst, if◌then◌else◌,
}
use hft_sys.Pool.{Pool, allocate}
use hft_sys.Common.Int.{ℤ}
use hft_sys.Exchange.{Order, OrdersAtPrice, Side}
use hft_sys.Exchange.Messages.{ClientResponse, MarketUpdate}
use hft_sys.Book.{
  Book, M, pure, ◌>>=◌, order_at, level_at, set_order, set_level, put_level, allocate_level,
  deallocate_level, set_best, set_price_level, dispatch, publish,
}
use hft_sys.Book.Levels.{get_best, get_level_for_price}
use hft_sys.Pool.Access.{
  written, freed, get-Live, put-Live, get-cases, deallocate-Live, deallocate-cases,
}
use hft_sys.Book.Access.{set_order-cases}

-- A run that returns meets the postcondition, and one that fails does so by an allowed fault.
abbrev pub Ends : {A : Type 0} → (Fault → Type 0) → (A → Book → Type 0) → Result (A × Book) → Type 0
Ends F P (ok (a, b)) = P a b
Ends F P (fail e) = F e

pub Ends-of_fail :
    {A : Type 0} (F : Fault → Type 0) (P : A → Book → Type 0) (r : Result (A × Book)) (e : Fault)
    → r ≡ fail e
    → F e
    → Ends F P r
Ends-of_fail F P r e i h = subst (λ r. Ends F P r) (sym i) h

pub Ends-of_ok :
    {A : Type 0} (F : Fault → Type 0) (P : A → Book → Type 0) (r : Result (A × Book)) {a : A}
    {b : Book}
    → r ≡ ok (a, b)
    → P a b
    → Ends F P r
Ends-of_ok F P r i h = subst (λ r. Ends F P r) (sym i) h

pub Ends-bind :
    {A B : Type 0} (F : Fault → Type 0) {P : A → Book → Type 0} (Q : B → Book → Type 0) (m : M A)
    (f : A → M B) (b : Book)
    → Ends F P (m b)
    → ((a : A) (b' : Book) → P a b' → Ends F Q (f a b'))
    → Ends F Q ((m >>= f) b)
Ends-bind F {P} Q m f b h k = go (m b) h
  where
    go :
        (r : Result (_ × Book))
        → Ends F P r
        → Ends F Q (elim r [ fail e ↦ fail e | ok (a, b') ↦ f a b' ])
    go (ok (a, b')) h = k a b' h
    go (fail e) h = h

-- A property of the orders alive and of the client map.
abbrev pub Property : Type 1
Property = Pool Order → (ℕ → ℕ → Option ℕ) → Type 0

-- The faults that are allowed: all but running out of fuel, in any case.
pub record Faults (F : Fault → Type 0) : Type 0 where
  pub may_be_undefined : F undefined
  pub may_terminate : F terminated

-- From `J` the method leads to `K`.
pub record Turns (F : Fault → Type 0) (J K : Property) {A : Type 0} (m : M A) : Type 0 where
  pub apply :
      (b : Book)
      → J b.order_pool b.client_orders
      → Ends F (λ _ b'. K b'.order_pool b'.client_orders) (m b)

pub bind_turn :
    {F : Fault → Type 0} {J K L : Property} {A B : Type 0} {m : M A} {f : A → M B}
    → Turns F J K m
    → ((a : A) → Turns F K L (f a))
    → Turns F J L (m >>= f)
bind_turn {F} {L} {m} {f} k l = record {
  apply = λ b j.
      Ends-bind F (λ _ c. L c.order_pool c.client_orders) m f b (k.apply b j)
        (λ a b' j'. (l a).apply b' j');
}

module _ (F : Fault → Type 0) (allowed : Faults F) (J : Property) where
  abbrev pub Keeps : {A : Type 0} → M A → Type 0
  Keeps m = Turns F J J m

  pub bind :
      {A B : Type 0} {m : M A} {f : A → M B} → Keeps m → ((a : A) → Keeps (f a)) → Keeps (m >>= f)
  bind k l = bind_turn k l

  pub branch : {A : Type 0} {m n : M A} (t : Bool) → Keeps m → Keeps n → Keeps (if t then m else n)
  branch true k l = k
  branch false k l = l

  pub pure-Keeps : {A : Type 0} (a : A) → Keeps (pure a)
  pure-Keeps a = record { apply = λ b j. j }

  pub Keeps-order_at : (p : Option ℕ) → Keeps (order_at p)
  unfolding order_at
  Keeps-order_at none = record { apply = λ b j. allowed.may_be_undefined }
  Keeps-order_at (some p) = record {
    apply = λ b j. elim (get-cases b.order_pool p) [
      | inl e ↦
          Ends-of_fail F (λ _ b'. J b'.order_pool b'.client_orders) (order_at (some p) b) undefined
            (ground (arith, e)) allowed.may_be_undefined
      | inr (o, l) ↦
          Ends-of_ok F (λ _ b'. J b'.order_pool b'.client_orders) (order_at (some p) b) {a = o}
            {b = b} (ground (arith, get-Live l)) j
    ];
  }

  pub Keeps-level_at : (p : Option ℕ) → Keeps (level_at p)
  unfolding level_at
  Keeps-level_at none = record { apply = λ b j. allowed.may_be_undefined }
  Keeps-level_at (some p) = record {
    apply = λ b j. elim (get-cases b.level_pool p) [
      | inl e ↦
          Ends-of_fail F (λ _ b'. J b'.order_pool b'.client_orders) (level_at (some p) b) undefined
            (ground (arith, e)) allowed.may_be_undefined
      | inr (o, l) ↦
          Ends-of_ok F (λ _ b'. J b'.order_pool b'.client_orders) (level_at (some p) b) {a = o}
            {b = b} (ground (arith, get-Live l)) j
    ];
  }

  pub Keeps-set_level : (p : Option ℕ) (f : OrdersAtPrice → OrdersAtPrice) → Keeps (set_level p f)
  unfolding set_level level_at put_level
  Keeps-set_level none f = record { apply = λ b j. allowed.may_be_undefined }
  Keeps-set_level (some p) f = record {
    apply = λ b j. elim (get-cases b.level_pool p) [
      | inl e ↦
          Ends-of_fail F (λ _ b'. J b'.order_pool b'.client_orders) (set_level (some p) f b)
            undefined (ground (arith, e)) allowed.may_be_undefined
      | inr (o, l) ↦
          Ends-of_ok F (λ _ b'. J b'.order_pool b'.client_orders) (set_level (some p) f b)
            {b = record b { level_pool = written b.level_pool p (f o) }}
            (ground (arith, get-Live l, put-Live (f o) l)) j
    ];
  }

  pub Keeps-allocate_level : ((e : Fault) → F e) → (l : OrdersAtPrice) → Keeps (allocate_level l)
  unfolding allocate_level
  Keeps-allocate_level any l = record { apply = λ b j. go b (allocate l b.level_pool) j }
    where
      go :
          (b : Book) (r : Result (Option ℕ × Pool OrdersAtPrice))
          → J b.order_pool b.client_orders
          → Ends F
              (λ _ b'. J b'.order_pool b'.client_orders)
              (elim r [ fail e ↦ fail e | ok (p, q) ↦ ok (p, record b { level_pool = q }) ])
      go b (ok (p, q)) j = j
      go b (fail e) j = any e

  pub Keeps-deallocate_level : (p : Option ℕ) → Keeps (deallocate_level p)
  unfolding deallocate_level
  Keeps-deallocate_level none = record { apply = λ b j. allowed.may_terminate }
  Keeps-deallocate_level (some p) = record {
    apply = λ b j. elim (deallocate-cases b.level_pool p) [
      | inl e ↦
          Ends-of_fail F (λ _ b'. J b'.order_pool b'.client_orders) (deallocate_level (some p) b)
            terminated (ground (arith, e)) allowed.may_terminate
      | inr (o, l) ↦
          Ends-of_ok F (λ _ b'. J b'.order_pool b'.client_orders) (deallocate_level (some p) b)
            {b = record b { level_pool = freed b.level_pool p }} (ground (arith, deallocate-Live l))
            j
    ];
  }

  pub Keeps-set_best : (side : Side) (p : Option ℕ) → Keeps (set_best side p)
  Keeps-set_best side p = record { apply = λ b j. ground arith }

  pub Keeps-get_best : (side : Side) → Keeps (get_best side)
  Keeps-get_best side = record { apply = λ b j. j }

  pub Keeps-set_price_level : (i : ℕ) (p : Option ℕ) → Keeps (set_price_level i p)
  Keeps-set_price_level i p = record { apply = λ b j. j }

  pub Keeps-get_level_for_price : (price : ℤ) → Keeps (get_level_for_price price)
  unfolding get_level_for_price
  Keeps-get_level_for_price price = record { apply = λ b j. j }

  pub Keeps-dispatch : (r : ClientResponse) → Keeps (dispatch r)
  Keeps-dispatch r = record { apply = λ b j. j }

  pub Keeps-publish : (u : MarketUpdate) → Keeps (publish u)
  Keeps-publish u = record { apply = λ b j. j }

-- What the links of an order do not touch.
pub record SameData (o o' : Order) : Type 0 where
  pub client : o'.client_id ≡ o.client_id
  pub oid : o'.client_order_id ≡ o.client_order_id
  pub qty : o'.qty ≡ o.qty

-- `J` does not depend on the links.
abbrev pub IsLinkFree : Property → Type 0
IsLinkFree J =
    (q : Pool Order) (c : ℕ → ℕ → Option ℕ) (p : ℕ) (o o' : Order)
    → p < q.size
    → q.blocks p ≡ some o
    → SameData o o'
    → J q c
    → J (record q { blocks = update q.blocks p (some o') }) c

module _ (F : Fault → Type 0) (allowed : Faults F) (J : Property) (free : IsLinkFree J) where
  pub Keeps-set_order :
      (p : Option ℕ) (f : Order → Order)
      → ((o : Order) → SameData o (f o))
      → Keeps F allowed J (set_order p f)
  Keeps-set_order p f same = record {
    apply = λ b j. elim (set_order-cases p f b) [
      | inl e ↦ rw e allowed.may_be_undefined
      | inr (i, o, _, l, e) ↦
          rw e (free b.order_pool b.client_orders i o (f o) l.in_pool l.holds (same o) j)
    ];
  }
