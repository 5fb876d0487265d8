-- ===== src/Book/Unlinking.antt =====
-- `removeOrderFromBook` for an order that is not alone on its level: it is taken out of the queue.
use hft_sys.Common.{
  ℕ, ◌≡◌, ◌≢◌, ◌<◌, refl, sym, ap, ◌∙◌, Option, some, none, ok, Bool, true, false, update,
  update_ne, if◌then◌else◌, ne→==,
}
use hft_sys.Common.Ring.{Link}
use hft_sys.Pool.{Pool}
use hft_sys.Pool.Access.{Live, written, freed}
use hft_sys.Pool.Linked.{linked, Live-linked}
use hft_sys.Exchange.{Order, OrdersAtPrice, max_n_clients, max_order_ids}
use hft_sys.Book.{
  Book, ◌>>◌, pure, order_at, set_order, level_at, set_level, same_pointer, set_client_order,
  deallocate_order,
}
use hft_sys.Book.Access.{
  bind-ok, order_at-Live, level_at-Live, set_level-Live, set_client_order-ok, mapped,
  deallocate_order-ok,
}
use hft_sys.Book.Rings.{
  with_orders, with_orders_self, next_order, prev_order, link_order, read_order, write_order_next,
  write_order_prev, write_order_links,
}
use hft_sys.Book.Levels.{price_to_index, remove_price_level}
use hft_sys.Book.Orders.{unlink_order, remove_order_from_book}

-- The links after `n` between `z` and `s` is taken out.
abbrev pub unlinked_next : Link → ℕ → ℕ → ℕ → Link
unlinked_next next z s n = update (update next z (some s)) n none

abbrev pub unlinked_prev : Link → ℕ → ℕ → ℕ → Link
unlinked_prev prev z s n = update (update prev s (some z)) n none

-- The pool of levels where the head of the level moves to `s` if it was `n`.
abbrev pub moved_head : Pool OrdersAtPrice → ℕ → OrdersAtPrice → ℕ → ℕ → Pool OrdersAtPrice
moved_head q l level n s =
    if same_pointer level.order0 (some n) then written q l (record level { order0 = some s }) else q

move_head :
    (t : Bool) (p : Option ℕ) (s : ℕ) (b : Book) (l : ℕ) (level : OrdersAtPrice)
    → p ≡ some s
    → Live b.level_pool l level
    → (if t then set_level (some l) (λ x. record x { order0 = p }) else pure tt) b
      ≡ ok (
        tt,
        record b {
          level_pool =
              if t then written b.level_pool l (record level { order0 = some s }) else b.level_pool;
        },
      )
move_head true p s b l level e live =
    ap (λ v. set_level (some l) (λ x. record x { order0 = v }) b) e ∙ set_level-Live _ live
move_head false p s b l level e live = refl

module _ (b : Book) (next prev : Link) (l : ℕ) (level : OrdersAtPrice) (z n s : ℕ)
    (oz on os : Order) (there : Live b.level_pool l level) (z_live : Live b.order_pool z oz)
    (n_live : Live b.order_pool n on) (s_live : Live b.order_pool s os) (to : next n ≡ some s)
    (from : prev n ≡ some z) (z_ne : z ≢ n) (s_ne : s ≢ n) where
  unlink_order-links :
      unlink_order (some n) (some l) (with_orders b next prev)
      ≡ ok (
        tt,
        record (with_orders b (unlinked_next next z s n) (unlinked_prev prev z s n)) {
          level_pool = moved_head b.level_pool l level n s;
        },
      )
  unfolding unlink_order
  unlink_order-links =
      let next1 = update next z (some s) in
      let prev1 = update prev s (some z) in
      let here : next1 n ≡ some s = update_ne next z (some s) n (λ e. z_ne (sym e)) ∙ to in
      bind-ok (order_at (some n)) _ _ (read_order b next prev (some n) n on refl n_live)
      ∙ bind-ok (set_order (prev n) _) _ _ (
          write_order_next b next prev (prev n) z oz from z_live (next n)
          ∙ ap (λ p. ok (tt, with_orders b (update next z p) prev)) to)
      ∙ bind-ok (order_at (some n)) _ _ (read_order b next1 prev (some n) n on refl n_live)
      ∙ bind-ok (set_order (next1 n) _) _ _ (
          write_order_prev b next1 prev (next1 n) s os here s_live (prev n)
          ∙ ap (λ p. ok (tt, with_orders b next1 (update prev s p))) from)
      ∙ bind-ok (level_at (some l)) _ _ (level_at-Live there)
      ∙ bind-ok (order_at (some n)) _ _ (read_order b next1 prev1 (some n) n on refl n_live)
      ∙ bind-ok
          (if same_pointer level.order0 (some n)
            then set_level (some l) (λ x. record x { order0 = next1 n })
            else pure tt)
          _ _
          (move_head (same_pointer level.order0 (some n)) (next1 n) s (with_orders b next1 prev1) l
            level here there)
      ∙ write_order_links (record b { level_pool = moved_head b.level_pool l level n s }) next1
          prev1 (some n) n on refl n_live none none

pub drop_order-ok :
    (b : Book) (n client oid : ℕ) (o : Order)
    → Live b.order_pool n o
    → client < max_n_clients
    → oid < max_order_ids
    → (set_client_order client oid none >> deallocate_order (some n)) b
      ≡ ok (
        tt,
        record b { client_orders = mapped b client oid none; order_pool = freed b.order_pool n },
      )
drop_order-ok b n client oid o live in_clients in_ids =
    bind-ok (set_client_order client oid none) _ b
      (set_client_order-ok client oid none b in_clients in_ids)
    ∙ deallocate_order-ok (record b { client_orders = mapped b client oid none }) n o live

-- The book after the order at `n` is taken out from between `z` and `s`.
abbrev pub unlinked_book : Book → ℕ → OrdersAtPrice → ℕ → ℕ → ℕ → Book
unlinked_book b l level z n s = record b {
  level_pool = moved_head b.level_pool l level n s;
  order_pool =
      linked link_order b.order_pool (unlinked_next (next_order b) z s n)
        (unlinked_prev (prev_order b) z s n);
}

-- The book after it is also freed.
abbrev pub removed : Book → ℕ → OrdersAtPrice → ℕ → ℕ → ℕ → Order → Book
removed b l level z n s o = record (unlinked_book b l level z n s) {
  client_orders = mapped b o.client_id o.client_order_id none;
  order_pool = freed (unlinked_book b l level z n s).order_pool n;
}

module _ (b : Book) (l : ℕ) (level : OrdersAtPrice) (z n s : ℕ) (oz on os : Order)
    (there : Live b.level_pool l level) (z_live : Live b.order_pool z oz)
    (n_live : Live b.order_pool n on) (s_live : Live b.order_pool s os)
    (to : next_order b n ≡ some s) (from : prev_order b n ≡ some z) (z_ne : z ≢ n) (s_ne : s ≢ n)
    (at : b.price_levels (price_to_index on.price) ≡ some l)
    (in_clients : on.client_id < max_n_clients) (in_ids : on.client_order_id < max_order_ids) where
  not_alone : same_pointer on.prev (some n) ≡ false
  unfolding prev_order
  not_alone =
      let held = n_live.holds in
      let e : prev_order b n ≡ on.prev = rw (held) refl in
      ap (λ p. same_pointer p (some n)) (sym e ∙ from) ∙ ne→== z n z_ne

  unlinked :
      unlink_order (some n) (b.price_levels (price_to_index on.price)) b
      ≡ ok (tt, unlinked_book b l level z n s)
  unlinked =
      ap (λ p. unlink_order (some n) p b) at
      ∙ ap (λ c. unlink_order (some n) (some l) c) (sym (with_orders_self b))
      ∙ unlink_order-links b (next_order b) (prev_order b) l level z n s oz on os there z_live
          n_live s_live to from z_ne s_ne

  pub remove_order_from_book-removed :
      remove_order_from_book (some n) b ≡ ok (tt, removed b l level z n s on)
  unfolding remove_order_from_book
  remove_order_from_book-removed =
      let still =
        Live-linked link_order b.order_pool (unlinked_next (next_order b) z s n)
          (unlinked_prev (prev_order b) z s n) n on n_live in
      bind-ok (order_at (some n)) _ b (order_at-Live n_live)
      ∙ bind-ok
          (if same_pointer on.prev (some n)
            then remove_price_level on.side on.price
            else unlink_order (some n) (b.price_levels (price_to_index on.price)))
          _ b
          (ap
              (λ (t : Bool).
                (if t
                    then remove_price_level on.side on.price
                    else unlink_order (some n) (b.price_levels (price_to_index on.price)))
                  b)
              not_alone
            ∙ unlinked)
      ∙ bind-ok (order_at (some n)) _ _ (order_at-Live still)
      ∙ drop_order-ok (unlinked_book b l level z n s) n on.client_id on.client_order_id _ still
          in_clients in_ids
