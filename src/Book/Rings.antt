-- ===== src/Book/Rings.antt =====
-- The links of the orders, and those of the levels, as functions: what the methods read and write through a
-- pointer to a node that is alive.
use hft_sys.Common.{ℕ, ◌≡◌, refl, ap, ◌∙◌, Option, some, none, ok, update}
use hft_sys.Common.Ring.{Link}
use hft_sys.Pool.Access.{Live}
use hft_sys.Pool.Linked.{
  linked, Live-linked, written_links, written_next, written_prev, linked_self,
}
use hft_sys.Exchange.{Order, OrdersAtPrice}
use hft_sys.Book.{Book, order_at, level_at, set_order, set_level}
use hft_sys.Book.Access.{order_at-Live, set_order-Live, level_at-Live, set_level-Live}

abbrev pub link_order : Order → Option ℕ → Option ℕ → Order
link_order o n p = record o { next = n; prev = p }

abbrev pub link_level : OrdersAtPrice → Option ℕ → Option ℕ → OrdersAtPrice
link_level l n p = record l { next = n; prev = p }

-- The book with the links of its orders, or of its levels, replaced.
abbrev pub with_orders : Book → Link → Link → Book
with_orders b next prev = record b { order_pool = linked link_order b.order_pool next prev }

abbrev pub with_levels : Book → Link → Link → Book
with_levels b next prev = record b { level_pool = linked link_level b.level_pool next prev }

module _ (b : Book) (next prev : Link) (p : Option ℕ) (i : ℕ) (o : Order) (at : p ≡ some i)
    (live : Live b.order_pool i o) where
  pub read_order :
      order_at p (with_orders b next prev)
      ≡ ok (link_order o (next i) (prev i), with_orders b next prev)
  read_order = rw (at) (order_at-Live (Live-linked link_order b.order_pool next prev i o live))

  pub write_order_next :
      (v : Option ℕ)
      → set_order p (λ o. record o { next = v }) (with_orders b next prev)
        ≡ ok (tt, with_orders b (update next i v) prev)
  write_order_next v = rw (at) (
      set_order-Live _ (Live-linked link_order b.order_pool next prev i o live)
      ∙ ap (λ q. ok (tt, record b { order_pool = q }))
          (written_next link_order b.order_pool next prev i o v live))

  pub write_order_prev :
      (v : Option ℕ)
      → set_order p (λ o. record o { prev = v }) (with_orders b next prev)
        ≡ ok (tt, with_orders b next (update prev i v))
  write_order_prev v = rw (at) (
      set_order-Live _ (Live-linked link_order b.order_pool next prev i o live)
      ∙ ap (λ q. ok (tt, record b { order_pool = q }))
          (written_prev link_order b.order_pool next prev i o v live))

  pub write_order_links :
      (v w : Option ℕ)
      → set_order p (λ o. record o { prev = v; next = w }) (with_orders b next prev)
        ≡ ok (tt, with_orders b (update next i w) (update prev i v))
  write_order_links v w = rw (at) (
      set_order-Live _ (Live-linked link_order b.order_pool next prev i o live)
      ∙ ap (λ q. ok (tt, record b { order_pool = q }))
          (written_links link_order b.order_pool next prev i o w v live))

module _ (b : Book) (next prev : Link) (p : Option ℕ) (i : ℕ) (l : OrdersAtPrice) (at : p ≡ some i)
    (live : Live b.level_pool i l) where
  pub read_level :
      level_at p (with_levels b next prev)
      ≡ ok (link_level l (next i) (prev i), with_levels b next prev)
  read_level = rw (at) (level_at-Live (Live-linked link_level b.level_pool next prev i l live))

  pub write_level_next :
      (v : Option ℕ)
      → set_level p (λ l. record l { next = v }) (with_levels b next prev)
        ≡ ok (tt, with_levels b (update next i v) prev)
  write_level_next v = rw (at) (
      set_level-Live _ (Live-linked link_level b.level_pool next prev i l live)
      ∙ ap (λ q. ok (tt, record b { level_pool = q }))
          (written_next link_level b.level_pool next prev i l v live))

  pub write_level_prev :
      (v : Option ℕ)
      → set_level p (λ l. record l { prev = v }) (with_levels b next prev)
        ≡ ok (tt, with_levels b next (update prev i v))
  write_level_prev v = rw (at) (
      set_level-Live _ (Live-linked link_level b.level_pool next prev i l live)
      ∙ ap (λ q. ok (tt, record b { level_pool = q }))
          (written_prev link_level b.level_pool next prev i l v live))

  pub write_level_links :
      (v w : Option ℕ)
      → set_level p (λ l. record l { prev = v; next = w }) (with_levels b next prev)
        ≡ ok (tt, with_levels b (update next i w) (update prev i v))
  write_level_links v w = rw (at) (
      set_level-Live _ (Live-linked link_level b.level_pool next prev i l live)
      ∙ ap (λ q. ok (tt, record b { level_pool = q }))
          (written_links link_level b.level_pool next prev i l w v live))

-- The links that the nodes of a pool have.
order_next : Option Order → Option ℕ
order_next none = none
order_next (some o) = o.next

order_prev : Option Order → Option ℕ
order_prev none = none
order_prev (some o) = o.prev

level_next : Option OrdersAtPrice → Option ℕ
level_next none = none
level_next (some l) = l.next

level_prev : Option OrdersAtPrice → Option ℕ
level_prev none = none
level_prev (some l) = l.prev

unfoldable pub next_order : Book → Link
unfolding order_next
next_order b i = order_next (b.order_pool.blocks i)

unfoldable pub prev_order : Book → Link
unfolding order_prev
prev_order b i = order_prev (b.order_pool.blocks i)

unfoldable pub next_level : Book → Link
unfolding level_next
next_level b i = level_next (b.level_pool.blocks i)

unfoldable pub prev_level : Book → Link
unfolding level_prev
prev_level b i = level_prev (b.level_pool.blocks i)

-- A book has the links that it has.
pub with_orders_self : (b : Book) → with_orders b (next_order b) (prev_order b) ≡ b
unfolding next_order prev_order
with_orders_self b =
    ap (λ q. record b { order_pool = q })
      (linked_self link_order b.order_pool (next_order b) (prev_order b) (λ i a e. rw (e) refl))

pub with_levels_self : (b : Book) → with_levels b (next_level b) (prev_level b) ≡ b
unfolding next_level prev_level
with_levels_self b =
    ap (λ q. record b { level_pool = q })
      (linked_self link_level b.level_pool (next_level b) (prev_level b) (λ i a e. rw (e) refl))
