-- ===== src/Book/Keyed.antt =====
-- The client map and the order pool: what the map holds for a client and an order id is that client's
-- order of that id, and it is alive.
use hft_sys.Common.{
  ℕ, ◌≡◌, ◌≢◌, refl, sym, ap, ◌∙◌, subst, inl, inr, Option, none, some, arith, undefined,
  terminated, update, update_ne, update_self, ℕ_discrete,
}
use hft_sys.Pool.{Pool}
use hft_sys.Pool.Access.{freed, deallocate-Live, deallocate-cases}
use hft_sys.Exchange.{Order}
use hft_sys.Book.{Book, order_at, set_client_order, deallocate_order, same_pointer, ◌>>◌}
use hft_sys.Book.Access.{set_client_order-cases, mapped}
use hft_sys.Book.Orders.{remove_order_from_book}
use hft_sys.Book.Keeps.{
  Ends, Ends-of_fail, Ends-of_ok, Ends-bind, Property, Turns, bind_turn, IsLinkFree, Keeps-order_at,
  Keeps-get_level_for_price, branch,
}
use hft_sys.Book.Links.{Keeps-unlink_order, Keeps-remove_price_level}
use hft_sys.Book.Weight.{NotFuel, not_fuel}
use hft_sys.Book.Rounds.{Points, order_at-Ends}

-- The block `p` holds the client's order of the id.
abbrev pub HasKey : Pool Order → ℕ → ℕ → ℕ → Type 0
HasKey q p client oid =
    (o : Order) × (q.blocks p ≡ some o) × (o.client_id ≡ client) × (o.client_order_id ≡ oid)

abbrev pub Keyed : Property
Keyed q c = (client oid p : ℕ) → c client oid ≡ some p → HasKey q p client oid

-- An order that is replaced by one of the same key.
pub HasKey-written :
    (q : Pool Order) (p : ℕ) (o o' : Order) (client oid p' : ℕ)
    → q.blocks p ≡ some o
    → o'.client_id ≡ o.client_id
    → o'.client_order_id ≡ o.client_order_id
    → HasKey q p' client oid
    → HasKey (record q { blocks = update q.blocks p (some o') }) p' client oid
HasKey-written q p o o' client oid p' holds same_client same_oid (x, h, k1, k2) =
    elim (ℕ_discrete p' p) [
      | yes here ↦
          let eq : x ≡ o = grind arith in
          (
            o',
            subst (λ i. update q.blocks p (some o') i ≡ some o') (sym here)
                (update_self q.blocks p (some o')),
            same_client ∙ ap (λ y. y.client_id) (sym eq) ∙ k1,
            same_oid ∙ ap (λ y. y.client_order_id) (sym eq) ∙ k2,
          )
      | no away ↦ (x, update_ne q.blocks p (some o') p' away ∙ h, k1, k2)
    ]

pub Keyed-written :
    (q : Pool Order) (c : ℕ → ℕ → Option ℕ) (p : ℕ) (o o' : Order)
    → q.blocks p ≡ some o
    → o'.client_id ≡ o.client_id
    → o'.client_order_id ≡ o.client_order_id
    → Keyed q c
    → Keyed (record q { blocks = update q.blocks p (some o') }) c
Keyed-written q c p o o' holds same_client same_oid keyed client oid p' e =
    HasKey-written q p o o' client oid p' holds same_client same_oid (keyed client oid p' e)

pub Keyed-IsLinkFree : IsLinkFree Keyed
Keyed-IsLinkFree q c p o o' in_pool holds same keyed =
    Keyed-written q c p o o' holds same.client same.oid keyed

-- An entry that is still there after another was taken out.
mapped-entry :
    (f : ℕ → ℕ → Option ℕ) (c d client oid p : ℕ)
    → update f c (update (f c) d none) client oid ≡ some p
    → (f client oid ≡ some p) × ((client ≡ c) → oid ≢ d)
mapped-entry f c d client oid p e = elim (ℕ_discrete client c) [
  | yes same ↦ elim (ℕ_discrete oid d) [ yes same' ↦ grind arith | no other ↦ grind arith ]
  | no other ↦ grind arith
]

-- The key of a block that is freed is taken out of the map first.
freed-Keyed :
    (b : Book) (p : ℕ) (o : Order)
    → b.order_pool.blocks p ≡ some o
    → Keyed b.order_pool b.client_orders
    → Keyed (freed b.order_pool p) (mapped b o.client_id o.client_order_id none)
freed-Keyed b p o holds keyed client oid p' e =
    let (there, apart) =
      mapped-entry b.client_orders o.client_id o.client_order_id client oid p' e in
    let (x, h, k1, k2) = keyed client oid p' there in
    let away : p' ≢ p = λ same.
      let eq : x ≡ o = grind arith in
      apart (sym k1 ∙ ap (λ y. y.client_id) eq) (sym k2 ∙ ap (λ y. y.client_order_id) eq) in
    (x, update_ne b.order_pool.blocks p none p' away ∙ h, k1, k2)

-- The map has an entry for the client and the id, or has none.
abbrev pub Entry : ℕ → ℕ → ℕ → Property
Entry client oid p q c = Keyed q c × (c client oid ≡ some p)

abbrev pub Gone : ℕ → ℕ → Property
Gone client oid q c = Keyed q c × (c client oid ≡ none)

Entry-IsLinkFree : (client oid i : ℕ) → IsLinkFree (Entry client oid i)
Entry-IsLinkFree client oid i q c p o o' in_pool holds same (keyed, e) =
    (Keyed-IsLinkFree q c p o o' in_pool holds same keyed, e)

unmapped-entry : (f : ℕ → ℕ → Option ℕ) (c d : ℕ) → update f c (update (f c) d none) c d ≡ none
unmapped-entry f c d = ground arith

abbrev pub AfterDrop : Order → Unit {0} → Book → Type 0
AfterDrop o _ b = Gone o.client_id o.client_order_id b.order_pool b.client_orders

-- The book without the map's entry for the order.
abbrev unmapped : Book → Order → Book
unmapped b o = record b { client_orders = mapped b o.client_id o.client_order_id none }

set_client_order-Ends :
    (o : Order) (b : Book)
    → Ends NotFuel
        (λ _ b'. b' ≡ unmapped b o)
        (set_client_order o.client_id o.client_order_id none b)
set_client_order-Ends o b = elim (set_client_order-cases o.client_id o.client_order_id none b) [
  | inl e ↦
      Ends-of_fail NotFuel (λ _ b'. b' ≡ unmapped b o)
        (set_client_order o.client_id o.client_order_id none b) undefined e
        not_fuel.may_be_undefined
  | inr e ↦
      Ends-of_ok NotFuel (λ _ b'. b' ≡ unmapped b o)
        (set_client_order o.client_id o.client_order_id none b) {b = unmapped b o} e refl
]

deallocate_order-Ends :
    (i : ℕ) (o : Order) (b : Book)
    → b.order_pool.blocks i ≡ some o
    → Keyed b.order_pool b.client_orders
    → Ends NotFuel (AfterDrop o) (deallocate_order (some i) (unmapped b o))
unfolding deallocate_order
deallocate_order-Ends i o b holds keyed = elim (deallocate-cases b.order_pool i) [
  | inl e ↦
      Ends-of_fail NotFuel (AfterDrop o) (deallocate_order (some i) (unmapped b o)) terminated
        (ground (arith, e)) not_fuel.may_terminate
  | inr (_, l) ↦
      Ends-of_ok NotFuel (AfterDrop o) (deallocate_order (some i) (unmapped b o))
        {b = record (unmapped b o) { order_pool = freed b.order_pool i }}
        (ground (arith, deallocate-Live l))
        (
          freed-Keyed b i o holds keyed,
          unmapped-entry b.client_orders o.client_id o.client_order_id,
        )
]

pub drop_order-Ends :
    (p : Option ℕ) (o : Order) (b : Book)
    → Points b p o
    → Keyed b.order_pool b.client_orders
    → Ends NotFuel
        (AfterDrop o)
        ((set_client_order o.client_id o.client_order_id none >> deallocate_order p) b)
drop_order-Ends p o b (i, s, l) keyed =
    Ends-bind NotFuel (AfterDrop o) (set_client_order o.client_id o.client_order_id none) _ b
      (set_client_order-Ends o b)
      λ _ b' e.
        subst (λ c. Ends NotFuel (AfterDrop o) (deallocate_order p c)) (sym e)
          (subst (λ q. Ends NotFuel (AfterDrop o) (deallocate_order q (unmapped b o))) (sym s)
            (deallocate_order-Ends i o b l.holds keyed))

-- The order that an entry leads to has the entry's key.
same_key :
    (b : Book) (o : Order) (client oid i : ℕ)
    → Points b (some i) o
    → HasKey b.order_pool i client oid
    → (o.client_id ≡ client) × (o.client_order_id ≡ oid)
same_key b o client oid i (i', s, l) (x, holds, k1, k2) =
    let held = l.holds in
    let eq : o ≡ x = grind arith in
    (ap (λ y. y.client_id) eq ∙ k1, ap (λ y. y.client_order_id) eq ∙ k2)

drop_entry-Ends :
    (o : Order) (b : Book) (client oid i : ℕ)
    → Points b (some i) o
    → Entry client oid i b.order_pool b.client_orders
    → Ends NotFuel
        (λ _ b'. Gone client oid b'.order_pool b'.client_orders)
        ((set_client_order o.client_id o.client_order_id none >> deallocate_order (some i)) b)
drop_entry-Ends o b client oid i live (keyed, entry) =
    let (e1, e2) = same_key b o client oid i live (keyed client oid i entry) in
    let m = set_client_order o.client_id o.client_order_id none >> deallocate_order (some i) in
    subst (λ k. Ends NotFuel (λ _ b'. Gone client k b'.order_pool b'.client_orders) (m b)) e2
      (subst
        (λ k. Ends NotFuel (λ _ b'. Gone k o.client_order_id b'.order_pool b'.client_orders) (m b))
        e1 (drop_order-Ends (some i) o b live keyed))

-- The order that the map has for a client and an id is removed, and its entry with it.
pub remove_order_from_book-Gone :
    (client oid i : ℕ)
    → Turns NotFuel (Entry client oid i) (Gone client oid) (remove_order_from_book (some i))
unfolding remove_order_from_book
remove_order_from_book-Gone client oid i =
    let J = Entry client oid i in
    let p : Option ℕ = some i in
    bind_turn (Keeps-order_at NotFuel not_fuel J p) λ o.
      bind_turn (Keeps-get_level_for_price NotFuel not_fuel J o.price) λ level.
        bind_turn
          (branch NotFuel not_fuel J (same_pointer o.prev p)
            (Keeps-remove_price_level NotFuel not_fuel J o.side o.price)
            (Keeps-unlink_order NotFuel not_fuel J (Entry-IsLinkFree client oid i) p level))
          λ _. record {
            apply = λ b (keyed, entry).
                Ends-bind NotFuel (λ _ b'. Gone client oid b'.order_pool b'.client_orders)
                  (order_at p) _ b (order_at-Ends p b)
                  λ o' b' (same, live).
                    drop_entry-Ends o' b' client oid i (subst (λ c. Points c p o') (sym same) live)
                      (subst (λ c. Entry client oid i c.order_pool c.client_orders) (sym same)
                        (keyed, entry));
          }
