-- ===== src/Book/Orders.antt =====
-- order_book.cpp: `addOrderToBook` and `removeOrderFromBook`.
use hft_sys.Common.{ℕ, Option, none, some, if◌then◌else◌}
use hft_sys.Exchange.{Order}
use hft_sys.Book.{
  M, pure, ◌>>=◌, ◌>>◌, order_at, level_at, set_order, set_level, allocate_level, deallocate_order,
  same_pointer, set_client_order,
}
use hft_sys.Book.Levels.{get_level_for_price, add_price_level, remove_price_level}

-- The order is put behind the last one of its level: `order0_->prev_`.
unfoldable pub append_order : Option ℕ → Option ℕ → M (Unit {0})
unfolding order_at set_order level_at
append_order order level = do
  l ← level_at level
  first ← order_at l.order0
  set_order order (λ o. record o { prev = first.prev })
  set_order order (λ o. record o { next = l.order0 })
  first ← order_at l.order0
  set_order first.prev (λ o. record o { next = order })
  set_order l.order0 (λ o. record o { prev = order })

-- The order on a level of its own, or behind those of the level that its price leads to.
unfoldable pub join_level : Option ℕ → Order → Option ℕ → M (Unit {0})
unfolding append_order set_order allocate_level add_price_level
join_level order o none = do
  set_order order (λ o. record o { prev = order; next = order })
  new ←
      allocate_level
        (record { side = o.side; price = o.price; order0 = order; prev = none; next = none })
  add_price_level new
join_level order o (some p) = append_order order (some p)

unfoldable pub add_order_to_book : Option ℕ → M (Unit {0})
unfolding join_level get_level_for_price order_at set_client_order
add_order_to_book order = do
  o ← order_at order
  found ← get_level_for_price o.price
  join_level order o found
  set_client_order o.client_id o.client_order_id order

-- Takes the order out of the ring of its level.
unfoldable pub unlink_order : Option ℕ → Option ℕ → M (Unit {0})
unfolding order_at set_order level_at set_level
unlink_order order level = do
  o ← order_at order
  set_order o.prev (λ x. record x { next = o.next })
  o ← order_at order
  set_order o.next (λ x. record x { prev = o.prev })
  l ← level_at level
  o ← order_at order
  (if same_pointer l.order0 order
      then set_level level (λ l. record l { order0 = o.next })
      else pure tt)
  set_order order (λ x. record x { prev = none; next = none })

unfoldable pub remove_order_from_book : Option ℕ → M (Unit {0})
unfolding unlink_order get_level_for_price remove_price_level set_client_order deallocate_order
remove_order_from_book order = do
  o ← order_at order
  level ← get_level_for_price o.price
  if same_pointer o.prev order then remove_price_level o.side o.price else unlink_order order level
  o ← order_at order
  set_client_order o.client_id o.client_order_id none
  deallocate_order order
