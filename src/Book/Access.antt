-- ===== src/Book/Access.antt =====
-- What a read and a write through an order pointer do to a book.
use hft_sys.Common.{
  ℕ, ◌<◌, update_self, ◌∙◌, lt→ltb, ◌≡◌, ◌⊎◌, inl, inr, Option, none, some, ok, fail, undefined,
  Fault, refl, arith, ap, Bool-cases, ltb, ◌&&◌, update,
}
use hft_sys.Pool.Access.{Live, written, get-Live, put-Live, get-cases, freed, deallocate-Live}
use hft_sys.Exchange.{Order, OrdersAtPrice, max_n_clients, max_order_ids}
use hft_sys.Book.{
  Book, M, ◌>>=◌, order_at, set_order, put_order, level_at, set_level, put_level, set_client_order,
  deallocate_order,
}

pub order_at-Live :
    {b : Book} {p : ℕ} {o : Order} → Live b.order_pool p o → order_at (some p) b ≡ ok (o, b)
unfolding order_at
order_at-Live l = ground (arith, get-Live l)

pub order_at-cases :
    (p : Option ℕ) (b : Book)
    → (order_at p b ≡ fail undefined)
      ⊎ ((i : ℕ) × (o : Order) × (p ≡ some i) × Live b.order_pool i o × (order_at p b ≡ ok (o, b)))
unfolding order_at
order_at-cases none b = inl refl
order_at-cases (some i) b = elim (get-cases b.order_pool i) [
  | inl e ↦ inl (ground (arith, e))
  | inr (o, l) ↦ inr (i, o, refl, l, ground (arith, get-Live l))
]

pub set_order-Live :
    {b : Book} {p : ℕ} {o : Order} (f : Order → Order)
    → Live b.order_pool p o
    → set_order (some p) f b ≡ ok (tt, record b { order_pool = written b.order_pool p (f o) })
unfolding set_order order_at put_order
set_order-Live {o} f l = ground (arith, get-Live l, put-Live (f o) l)

pub set_order-cases :
    (p : Option ℕ) (f : Order → Order) (b : Book)
    → (set_order p f b ≡ fail undefined)
      ⊎ ((i : ℕ) × (o : Order) × (p ≡ some i)
          × Live b.order_pool i o
          × (set_order p f b ≡ ok (tt, record b { order_pool = written b.order_pool i (f o) })))
unfolding set_order order_at put_order
set_order-cases none f b = inl refl
set_order-cases (some i) f b = elim (get-cases b.order_pool i) [
  | inl e ↦ inl (ground (arith, e))
  | inr (o, l) ↦ inr (i, o, refl, l, ground (arith, get-Live l, put-Live (f o) l))
]

pub bind-ok :
    {A B : Type 0} (m : M A) (f : A → M B) (b : Book) {a : A} {b' : Book}
    → m b ≡ ok (a, b')
    → (m >>= f) b ≡ f a b'
bind-ok m f b e = ap (λ r. elim r [ fail x ↦ fail x | ok (a, c) ↦ f a c ]) e

pub bind-fail :
    {A B : Type 0} (m : M A) (f : A → M B) (b : Book) {x : Fault}
    → m b ≡ fail x
    → (m >>= f) b ≡ fail x
bind-fail m f b e = ap (λ r. elim r [ fail x ↦ fail x | ok (a, c) ↦ f a c ]) e

pub level_at-Live :
    {b : Book} {p : ℕ} {l : OrdersAtPrice} → Live b.level_pool p l → level_at (some p) b ≡ ok (l, b)
unfolding level_at
level_at-Live l = ground (arith, get-Live l)

pub set_level-Live :
    {b : Book} {p : ℕ} {l : OrdersAtPrice} (f : OrdersAtPrice → OrdersAtPrice)
    → Live b.level_pool p l
    → set_level (some p) f b ≡ ok (tt, record b { level_pool = written b.level_pool p (f l) })
unfolding set_level level_at put_level
set_level-Live {l} f live = ground (arith, get-Live live, put-Live (f l) live)

-- `mapClientIdToOrder_` after a write.
abbrev pub mapped : Book → ℕ → ℕ → Option ℕ → ℕ → ℕ → Option ℕ
mapped b client oid p = update b.client_orders client (update (b.client_orders client) oid p)

pub set_client_order-cases :
    (client oid : ℕ) (p : Option ℕ) (b : Book)
    → (set_client_order client oid p b ≡ fail undefined)
      ⊎ (set_client_order client oid p b
          ≡ ok (tt, record b { client_orders = mapped b client oid p }))
unfolding set_client_order
set_client_order-cases client oid p b =
    elim (Bool-cases (ltb client max_n_clients && ltb oid max_order_ids)) [
      | inl e ↦ inr (rw (e) refl)
      | inr e ↦ inl (rw (e) refl)
    ]

pub set_client_order-ok :
    (client oid : ℕ) (p : Option ℕ) (b : Book)
    → client < max_n_clients
    → oid < max_order_ids
    → set_client_order client oid p b ≡ ok (tt, record b { client_orders = mapped b client oid p })
unfolding set_client_order
set_client_order-ok client oid p b h k = rw (lt→ltb _ _ h, lt→ltb _ _ k) refl

pub deallocate_order-ok :
    (b : Book) (i : ℕ) (o : Order)
    → Live b.order_pool i o
    → deallocate_order (some i) b ≡ ok (tt, record b { order_pool = freed b.order_pool i })
unfolding deallocate_order
deallocate_order-ok b i o live =
    ap (λ r. elim r [ fail e ↦ fail e | ok q ↦ ok (tt, record b { order_pool = q }) ])
      (deallocate-Live live)

pub mapped_self : (b : Book) (client oid : ℕ) (p : Option ℕ) → mapped b client oid p client oid ≡ p
mapped_self b client oid p =
    ap (λ f. f oid) (update_self b.client_orders client (update (b.client_orders client) oid p))
    ∙ update_self (b.client_orders client) oid p
