-- ===== src/Book/Queue.antt =====
-- The queue of a price level: its ring of orders as a list, the order at the head of the level first.
-- `addOrderToBook` puts an order behind the last one.
use hft_sys.Common.{
  ℕ, ◌≡◌, ◌≢◌, refl, sym, ap, ◌∙◌, Option, some, List, [], ◌∷◌, ◌++◌, All, All-append, ok, update,
  update_ne,
}
use hft_sys.Common.Ring.{Link, Chain, Absent, Distinct, last, prev-last, Absent-append, Chain-agree}
use hft_sys.Common.Ring.Splice.{Chain-snoc}
use hft_sys.Pool.Access.{Live}
use hft_sys.Pool.Linked.{Live-linked}
use hft_sys.Exchange.{Order, OrdersAtPrice}
use hft_sys.Exchange.Messages.{Message}
use hft_sys.Book.{Book, order_at, set_order, level_at}
use hft_sys.Book.Access.{bind-ok, level_at-Live}
use hft_sys.Book.Rings.{
  with_orders, with_orders_self, next_order, prev_order, read_order, write_order_next,
  write_order_prev, link_order,
}
use hft_sys.Book.Orders.{append_order}

abbrev pub IsOrder : Book → ℕ → Type 0
IsOrder b i = (o : Order) × Live b.order_pool i o

-- The links of the orders run through `first ∷ rest`, live ones of the book, and close.
pub record OrderRing (b : Book) (first : ℕ) (rest : List ℕ) : Type 0 where
  pub live : All (IsOrder b) (first ∷ rest)
  pub distinct : Distinct (first ∷ rest)
  pub ring : Chain (next_order b) (prev_order b) first rest first

-- The level at `l` leads to the queue `first ∷ rest`.
pub record IsQueue (b : Book) (l : ℕ) (level : OrdersAtPrice) (first : ℕ) (rest : List ℕ)
    : Type 0 where
  pub there : Live b.level_pool l level
  pub head : level.order0 ≡ some first
  pub orders : OrderRing b first rest

-- The level at `l` leads to a queue of these orders.
abbrev pub HasQueue : Book → ℕ → List ℕ → Type 0
HasQueue b l [] = ⊥
HasQueue b l (first ∷ rest) = (level : OrdersAtPrice) × IsQueue b l level first rest

-- The links of a live order in a book whose links were replaced.
links_there :
    (b : Book) (next prev : Link) (i : ℕ)
    → IsOrder b i
    → (next_order (with_orders b next prev) i ≡ next i)
      × (prev_order (with_orders b next prev) i ≡ prev i)
unfolding next_order prev_order
links_there b next prev i (o, l) =
    let held = (Live-linked link_order b.order_pool next prev i o l).holds in
    (rw (held) refl, rw (held) refl)

linked_orders :
    (b : Book) (next prev : Link) (xs : List ℕ)
    → All (IsOrder b) xs
    → All (IsOrder (with_orders b next prev)) xs
linked_orders b next prev [] h = tt
linked_orders b next prev (x ∷ xs) ((o, l), rest) =
    ((_, Live-linked link_order b.order_pool next prev x o l), linked_orders b next prev xs rest)

-- A ring of the links that a book is given.
pub OrderRing-linked :
    (b : Book) (next prev : Link) (first : ℕ) (rest : List ℕ)
    → All (IsOrder b) (first ∷ rest)
    → Distinct (first ∷ rest)
    → Chain next prev first rest first
    → OrderRing (with_orders b next prev) first rest
OrderRing-linked b next prev first rest live distinct ring = record {
  live = linked_orders b next prev (first ∷ rest) live;
  distinct = distinct;
  ring =
      Chain-agree (IsOrder b) next prev _ _ (links_there b next prev) first rest first live live.0
        ring;
}

-- The links after `n` is put before `first`, behind `z`.
abbrev pub appended_next : Link → ℕ → ℕ → ℕ → Link
appended_next next first z n = update (update next n (some first)) z (some n)

abbrev pub appended_prev : Link → ℕ → ℕ → ℕ → Link
appended_prev prev first z n = update (update prev n (some z)) first (some n)

module _ (b : Book) (next prev : Link) (l : ℕ) (level : OrdersAtPrice) (first z n : ℕ)
    (of oz on : Order) (there : Live b.level_pool l level) (head : level.order0 ≡ some first)
    (f_live : Live b.order_pool first of) (z_live : Live b.order_pool z oz)
    (n_live : Live b.order_pool n on) (behind : prev first ≡ some z) (new : n ≢ first) where
  append_order-links :
      append_order (some n) (some l) (with_orders b next prev)
      ≡ ok (
        tt,
        with_orders b
            (update (update next n level.order0) z (some n))
            (update (update prev n (prev first)) first (some n)),
      )
  unfolding append_order
  append_order-links =
      let prev1 = update prev n (prev first) in
      let next1 = update next n level.order0 in
      let still : prev1 first ≡ some z =
        update_ne prev n (prev first) first (λ e. new (sym e)) ∙ behind in
      bind-ok (level_at (some l)) _ (with_orders b next prev) (level_at-Live there)
      ∙ bind-ok (order_at level.order0) _ _
          (read_order b next prev level.order0 first of head f_live)
      ∙ bind-ok (set_order (some n) _) _ _
          (write_order_prev b next prev (some n) n on refl n_live (prev first))
      ∙ bind-ok (set_order (some n) _) _ _
          (write_order_next b next prev1 (some n) n on refl n_live level.order0)
      ∙ bind-ok (order_at level.order0) _ _
          (read_order b next1 prev1 level.order0 first of head f_live)
      ∙ bind-ok (set_order (prev1 first) _) _ _
          (write_order_next b next1 prev1 (prev1 first) z oz still z_live (some n))
      ∙ write_order_prev b (update next1 z (some n)) prev1 level.order0 first of head f_live
          (some n)

  pub append_order-linked :
      append_order (some n) (some l) (with_orders b next prev)
      ≡ ok (tt, with_orders b (appended_next next first z n) (appended_prev prev first z n))
  append_order-linked =
      append_order-links
      ∙ ap
          (λ p. ok (
            tt,
            with_orders b (update (update next n p) z (some n))
                (update (update prev n (prev first)) first (some n)),
          ))
          head
      ∙ ap
          (λ p. ok (
            tt,
            with_orders b (appended_next next first z n) (update (update prev n p) first (some n)),
          ))
          behind

-- The book with `n` put behind the orders `first ∷ rest`.
abbrev pub appended : Book → ℕ → List ℕ → ℕ → Book
appended b first rest n =
    with_orders b (appended_next (next_order b) first (last first rest) n)
      (appended_prev (prev_order b) first (last first rest) n)

pub last-IsOrder :
    (b : Book) (a : ℕ) (xs : List ℕ) → All (IsOrder b) (a ∷ xs) → IsOrder b (last a xs)
last-IsOrder b a [] h = h.0
last-IsOrder b a (x ∷ xs) h = last-IsOrder b x xs h.1

Distinct-snoc : (xs : List ℕ) (n : ℕ) → Distinct xs → Absent n xs → Distinct (xs ++ n ∷ [])
Distinct-snoc [] n d h = (tt, tt)
Distinct-snoc (x ∷ xs) n d h =
    (Absent-append x xs (n ∷ []) d.0 ((λ e. h.0 (sym e)), tt), Distinct-snoc xs n d.1 h.1)

module _ (b : Book) (l : ℕ) (level : OrdersAtPrice) (first : ℕ) (rest : List ℕ) (n : ℕ) (on : Order)
    (queue : IsQueue b l level first rest) (live : Live b.order_pool n on)
    (new : Absent n (first ∷ rest)) where
  pub append_order-appended : append_order (some n) (some l) b ≡ ok (tt, appended b first rest n)
  append_order-appended =
      let (oz, z_live) = last-IsOrder b first rest queue.orders.live in
      ap (λ c. append_order (some n) (some l) c) (sym (with_orders_self b))
      ∙ append_order-linked b (next_order b) (prev_order b) l level first (last first rest) n
          queue.orders.live.0.0 oz on queue.there queue.head queue.orders.live.0.1 z_live live
          (prev-last (next_order b) (prev_order b) first rest first queue.orders.ring) new.0

  pub appended-IsQueue : IsQueue (appended b first rest n) l level first (rest ++ n ∷ [])
  appended-IsQueue = record {
    there = queue.there;
    head = queue.head;
    orders =
        OrderRing-linked b _ _ first (rest ++ n ∷ [])
          (All-append (IsOrder b) (first ∷ rest) (n ∷ []) queue.orders.live ((on, live), tt))
          (Distinct-snoc (first ∷ rest) n queue.orders.distinct new)
          (Chain-snoc (next_order b) (prev_order b) first rest first n queue.orders.distinct new
            queue.orders.distinct.0 new.0 queue.orders.ring);
  }

-- A queue does not depend on the client map, nor on what was sent.
pub IsQueue-sent :
    (b : Book) (map : ℕ → ℕ → Option ℕ) (sent : List Message) (l : ℕ) (level : OrdersAtPrice)
    (first : ℕ) (rest : List ℕ)
    → IsQueue b l level first rest
    → IsQueue (record b { client_orders = map; sent = sent }) l level first rest
unfolding next_order prev_order
IsQueue-sent b map sent l level first rest q = record {
  there = q.there;
  head = q.head;
  orders = record { live = q.orders.live; distinct = q.orders.distinct; ring = q.orders.ring };
}

-- The order that was put at the end, but for its links.
pub appended-Live :
    (b : Book) (first : ℕ) (rest : List ℕ) (n : ℕ) (o : Order)
    → Live b.order_pool n o
    → (n' p' : Option ℕ) × Live (appended b first rest n).order_pool n (link_order o n' p')
appended-Live b first rest n o live = (_, _, Live-linked link_order b.order_pool _ _ n o live)
