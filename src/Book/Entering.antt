-- ===== src/Book/Entering.antt =====
-- The client map under `addOrder`: what it holds stays true.
use hft_sys.Common.{
  ℕ, ◌≡◌, refl, sym, ◌∙◌, subst, inl, inr, Option, none, some, arith, undefined, update, update_ne,
  ◌⊎◌, ℕ_discrete, Result, ok, fail, ◌==◌, add_size,
}
use hft_sys.Common.Int.{ℤ}
use hft_sys.Pool.{Pool, allocate}
use hft_sys.Pool.Access.{Allocates, allocate-Allocates}
use hft_sys.Exchange.{Order, Side}
use hft_sys.Book.{Book, ◌>>◌, order_at, set_client_order, allocate_order, get_new_market_order_id}
use hft_sys.Book.Access.{set_client_order-cases}
use hft_sys.Book.Levels.{get_next_priority, get_level_for_price, priority_behind}
use hft_sys.Book.Orders.{add_order_to_book, join_level}
use hft_sys.Book.Match.{find_match}
use hft_sys.Book.Handlers.{rest_order, add_order}
use hft_sys.Book.Keeps.{
  Ends, Ends-of_fail, Ends-of_ok, Ends-bind, Property, bind_turn, branch, pure-Keeps, IsLinkFree,
  Keeps-order_at, Keeps-level_at, Keeps-get_level_for_price, Keeps-publish,
}
use hft_sys.Book.Links.{Keeps-join_level}
use hft_sys.Book.Resting.{AnyFault}
use hft_sys.Book.Keyed.{HasKey, HasKey-written, Keyed, Keyed-IsLinkFree}
use hft_sys.Book.Entries.{any_fault, KeepsKeys, KeyedBook, read_order-Ends, KeepsKeys-find_match}

-- A free block is in no entry.
allocated-Keyed :
    (q : Pool Order) (c : ℕ → ℕ → Option ℕ) (n : ℕ) (o : Order)
    → q.blocks n ≡ none
    → Keyed q c
    → Keyed (record q { blocks = update q.blocks n (some o) }) c
allocated-Keyed q c n o free keyed client oid p e =
    let (x, h, k1, k2) = keyed client oid p e in
    (x, update_ne q.blocks n (some o) p (λ same. cc) ∙ h, k1, k2)

KeepsKeys-allocate_order : (o : Order) → KeepsKeys (allocate_order o)
unfolding allocate_order
KeepsKeys-allocate_order o = record {
  apply = λ b keyed. taken b (allocate o b.order_pool) (allocate-Allocates o b.order_pool) keyed;
}
  where
    taken :
        (b : Book) (r : Result (Option ℕ × Pool Order))
        → Allocates o b.order_pool r
        → Keyed b.order_pool b.client_orders
        → Ends AnyFault
            (λ _ b'. Keyed b'.order_pool b'.client_orders)
            (elim r [ fail e ↦ fail e | ok (p, q) ↦ ok (p, record b { order_pool = q }) ])
    taken b (ok (none, q)) h keyed = subst (λ q. Keyed q b.client_orders) (sym h) keyed
    taken b (ok (some n, q)) (free, same) keyed =
        subst (λ blocks. Keyed (record q { blocks = blocks }) b.client_orders) (sym same)
          (allocated-Keyed b.order_pool b.client_orders n o free keyed)
    taken b (fail e) h keyed = tt

-- The map keeps its keys, and the block `n` the key of an order that is to go into it.
abbrev Expects : ℕ → ℕ → ℕ → Property
Expects n client oid q c = Keyed q c × HasKey q n client oid

Expects-IsLinkFree : (n client oid : ℕ) → IsLinkFree (Expects n client oid)
Expects-IsLinkFree n client oid q c p o o' in_pool holds same (keyed, has) = (
  Keyed-IsLinkFree q c p o o' in_pool holds same keyed,
  HasKey-written q p o o' client oid n holds same.client same.oid has,
)

-- Where an entry comes from.
entry-cases :
    (f : ℕ → ℕ → Option ℕ) (client oid n client' oid' p : ℕ)
    → update f client (update (f client) oid (some n)) client' oid' ≡ some p
    → ((client ≡ client') × (oid ≡ oid') × (n ≡ p)) ⊎ (f client' oid' ≡ some p)
entry-cases f client oid n client' oid' p e = elim (ℕ_discrete client' client) [
  | yes same ↦ elim (ℕ_discrete oid' oid) [
    | yes same' ↦ inl (sym same, sym same', grind arith)
    | no other ↦ inr (grind arith)
  ]
  | no other ↦ inr (grind arith)
]

-- An entry for a block that holds its key.
entered-Keyed :
    (q : Pool Order) (c : ℕ → ℕ → Option ℕ) (n client oid : ℕ)
    → Expects n client oid q c
    → Keyed q (update c client (update (c client) oid (some n)))
entered-Keyed q c n client oid (keyed, has) client' oid' p e =
    elim (entry-cases c client oid n client' oid' p e) [
      | inr there ↦ keyed client' oid' p there
      | inl (e1, e2, e3) ↦
          subst (λ k. HasKey q p k oid') e1
            (subst (λ k. HasKey q p client k) e2 (subst (λ k. HasKey q k client oid) e3 has))
    ]

enter_order-Keyed :
    (n client oid : ℕ) (b : Book)
    → Expects n client oid b.order_pool b.client_orders
    → Ends AnyFault KeyedBook (set_client_order client oid (some n) b)
enter_order-Keyed n client oid b h = elim (set_client_order-cases client oid (some n) b) [
  | inl e ↦ Ends-of_fail AnyFault KeyedBook (set_client_order client oid (some n) b) undefined e tt
  | inr e ↦
      Ends-of_ok AnyFault KeyedBook (set_client_order client oid (some n) b) e
        (entered-Keyed b.order_pool b.client_orders n client oid h)
]

-- A live order goes into the book under its own key.
place-Keyed :
    (n : ℕ) (o : Order) (found : Option ℕ) (b : Book)
    → Expects n o.client_id o.client_order_id b.order_pool b.client_orders
    → Ends AnyFault KeyedBook
        ((join_level (some n) o found >> set_client_order o.client_id o.client_order_id (some n)) b)
place-Keyed n o found b h =
    let J = Expects n o.client_id o.client_order_id in
    Ends-bind AnyFault KeyedBook (join_level (some n) o found) _ b
      ((Keeps-join_level AnyFault any_fault (λ _. tt) J
          (Expects-IsLinkFree n o.client_id o.client_order_id) (some n) o found).apply
        b h)
      λ _ b' h'. enter_order-Keyed n o.client_id o.client_order_id b' h'

KeepsKeys-add_order_to_book : (p : Option ℕ) → KeepsKeys (add_order_to_book p)
unfolding add_order_to_book get_level_for_price
KeepsKeys-add_order_to_book none = record { apply = λ b keyed. tt }
KeepsKeys-add_order_to_book (some p) = record {
  apply = λ b keyed.
      Ends-bind AnyFault KeyedBook (order_at (some p)) _ b (read_order-Ends (some p) b)
        λ o b1 (same, (n, at, live)). place-Keyed p o (b1.price_levels _) b1 (
          subst (λ c. Expects p o.client_id o.client_order_id c.order_pool c.client_orders)
            (sym same) (keyed, (o, here b.order_pool n o live.holds at, refl, refl)));
}
  where
    here :
        (q : Pool Order) (n : ℕ) (o : Order)
        → q.blocks n ≡ some o
        → ◌≡◌ {A = Option ℕ} (some p) (some n)
        → q.blocks p ≡ some o
    here q n o h e = grind arith

KeepsKeys-priority_behind : (found : Option ℕ) → KeepsKeys (priority_behind found)
unfolding priority_behind
KeepsKeys-priority_behind none = pure-Keeps AnyFault any_fault Keyed 1
KeepsKeys-priority_behind (some p) =
    bind_turn (Keeps-level_at AnyFault any_fault Keyed (some p)) λ level.
      bind_turn (Keeps-order_at AnyFault any_fault Keyed level.order0) λ first.
        bind_turn (Keeps-order_at AnyFault any_fault Keyed first.prev)
          λ last. pure-Keeps AnyFault any_fault Keyed (add_size last.priority 1)

KeepsKeys-get_next_priority : (price : ℤ) → KeepsKeys (get_next_priority price)
unfolding get_next_priority
KeepsKeys-get_next_priority price =
    bind_turn (Keeps-get_level_for_price AnyFault any_fault Keyed price) KeepsKeys-priority_behind

module _ (client oid ticker : ℕ) (side : Side) (price : ℤ) (qty : ℕ) where
  KeepsKeys-rest_order :
      (left market_oid : ℕ) → KeepsKeys (rest_order client oid ticker side price left market_oid)
  unfolding rest_order
  KeepsKeys-rest_order left market_oid = bind_turn (KeepsKeys-get_next_priority price) λ priority.
      bind_turn (KeepsKeys-allocate_order _) λ order.
        bind_turn (KeepsKeys-add_order_to_book order) λ _. Keeps-publish AnyFault any_fault Keyed _

  -- When `addOrder` returns, each entry of the client map leads to a live order of that client and id, if it
  -- was so before.
  pub KeepsKeys-add_order :
      (word_below : Book → ℕ → Option ℕ) (fuel : ℕ) (b : Book)
      → Keyed b.order_pool b.client_orders
      → Ends AnyFault
          (λ _ b'. Keyed b'.order_pool b'.client_orders)
          (add_order word_below fuel client oid ticker side price qty b)
  unfolding add_order get_new_market_order_id
  KeepsKeys-add_order word_below fuel b keyed =
      Ends-bind AnyFault KeyedBook
        (find_match word_below fuel client oid ticker side price qty b.next_market_oid) _ _
        ((KeepsKeys-find_match word_below client oid ticker side price qty b.next_market_oid
            fuel).apply
          _ keyed)
        λ left b' keyed'.
          (branch AnyFault any_fault Keyed (left == 0) (pure-Keeps AnyFault any_fault Keyed tt)
              (KeepsKeys-rest_order left b.next_market_oid)).apply
            b' keyed'
