-- ===== src/Book/Links.antt =====
-- The methods that only link and unlink orders and levels keep every property of the orders alive
-- and of the client map that does not depend on links.
use hft_sys.Common.{Fault, out_of_fuel, ℕ, zero, suc, refl, Option, none, some, false}
use hft_sys.Common.Int.{ℤ}
use hft_sys.Exchange.{Order, OrdersAtPrice, Side}
use hft_sys.Book.{same_pointer}
use hft_sys.Book.Levels.{
  seek, insert_after, insert_before, insert_level, place_level, add_price_level, remove_price_level,
  is_worse, is_better, find_place, place_before, unlink_level, price_to_index,
}
use hft_sys.Book.Orders.{append_order, join_level, unlink_order}
use hft_sys.Book.Keeps.{
  Faults, Property, Keeps, bind, branch, pure-Keeps, Keeps-order_at, Keeps-level_at,
  Keeps-set_level, Keeps-allocate_level, Keeps-deallocate_level, Keeps-set_best, Keeps-get_best,
  Keeps-set_price_level, Keeps-get_level_for_price, Keeps-set_order, IsLinkFree, SameData,
}

linked : (o : Order) (p q : Option ℕ) → SameData o (record o { prev = p; next = q })
linked o p q = record { client = refl; oid = refl; qty = refl }

module _ (F : Fault → Type 0) (allowed : Faults F) (J : Property) (free : IsLinkFree J) where
  pub Keeps-append_order : (order level : Option ℕ) → Keeps F allowed J (append_order order level)
  unfolding append_order
  Keeps-append_order order level = bind F allowed J (Keeps-level_at F allowed J level) λ l.
      bind F allowed J (Keeps-order_at F allowed J l.order0) λ first.
        bind F allowed J (Keeps-set_order F allowed J free order _ (λ o. linked o _ _)) λ _.
          bind F allowed J (Keeps-set_order F allowed J free order _ (λ o. linked o _ _)) λ _.
            bind F allowed J (Keeps-order_at F allowed J l.order0) λ first'.
              bind F allowed J (Keeps-set_order F allowed J free first'.prev _ (λ o. linked o _ _))
                λ _. Keeps-set_order F allowed J free l.order0 _ (λ o. linked o _ _)

  pub Keeps-unlink_order : (order level : Option ℕ) → Keeps F allowed J (unlink_order order level)
  unfolding unlink_order
  Keeps-unlink_order order level = bind F allowed J (Keeps-order_at F allowed J order) λ o.
      bind F allowed J (Keeps-set_order F allowed J free o.prev _ (λ x. linked x _ _)) λ _.
        bind F allowed J (Keeps-order_at F allowed J order) λ o'.
          bind F allowed J (Keeps-set_order F allowed J free o'.next _ (λ x. linked x _ _)) λ _.
            bind F allowed J (Keeps-level_at F allowed J level) λ l.
              bind F allowed J (Keeps-order_at F allowed J order) λ o''.
                bind F allowed J
                  (branch F allowed J (same_pointer l.order0 order)
                    (Keeps-set_level F allowed J level _) (pure-Keeps F allowed J tt))
                  λ _. Keeps-set_order F allowed J free order _ (λ x. linked x _ _)

module _ (F : Fault → Type 0) (allowed : Faults F) (J : Property) where
  Keeps-unlink_level :
      (p : Option ℕ) (level : OrdersAtPrice) (side : Side) (best : Option ℕ)
      → Keeps F allowed J (unlink_level p level side best)
  unfolding unlink_level
  Keeps-unlink_level p level side best =
      bind F allowed J (Keeps-set_level F allowed J level.prev _) λ _.
        bind F allowed J (Keeps-set_level F allowed J level.next _) λ _.
          bind F allowed J
            (branch F allowed J (same_pointer p best) (Keeps-set_best F allowed J side level.next)
              (pure-Keeps F allowed J tt))
            λ _. Keeps-set_level F allowed J p _

  pub Keeps-remove_price_level :
      (side : Side) (price : ℤ) → Keeps F allowed J (remove_price_level side price)
  unfolding remove_price_level
  Keeps-remove_price_level side price =
      bind F allowed J (Keeps-get_level_for_price F allowed J price) λ p.
        bind F allowed J (Keeps-level_at F allowed J p) λ level.
          bind F allowed J (Keeps-get_best F allowed J side) λ best.
            bind F allowed J
              (branch F allowed J (same_pointer level.next p) (Keeps-set_best F allowed J side none)
                (Keeps-unlink_level p level side best))
              λ _.
                bind F allowed J (Keeps-set_price_level F allowed J (price_to_index price) none)
                  λ _. Keeps-deallocate_level F allowed J p

module _ (F : Fault → Type 0) (allowed : Faults F) (any : (e : Fault) → F e) (J : Property) where
  Keeps-seek :
      (fuel : ℕ) (side : Side) (price : ℤ) (best target : Option ℕ)
      → Keeps F allowed J (seek fuel side price best target)
  unfolding seek
  Keeps-seek zero side price best target = record { apply = λ b j. any out_of_fuel }
  Keeps-seek (suc fuel) side price best target =
      bind F allowed J (Keeps-level_at F allowed J target) λ here.
        bind F allowed J (Keeps-level_at F allowed J here.next) λ next.
          branch F allowed J _ (Keeps-seek fuel side price best here.next)
            (pure-Keeps F allowed J _)

  Keeps-insert_after : (new target : Option ℕ) → Keeps F allowed J (insert_after new target)
  unfolding insert_after
  Keeps-insert_after new target = bind F allowed J (Keeps-set_level F allowed J new _) λ _.
      bind F allowed J (Keeps-level_at F allowed J target) λ t.
        bind F allowed J (Keeps-set_level F allowed J new _) λ _.
          bind F allowed J (Keeps-set_level F allowed J t.next _)
            λ _. Keeps-set_level F allowed J target _

  Keeps-insert_before : (new target : Option ℕ) → Keeps F allowed J (insert_before new target)
  unfolding insert_before
  Keeps-insert_before new target = bind F allowed J (Keeps-set_level F allowed J new _) λ _.
      bind F allowed J (Keeps-level_at F allowed J target) λ t.
        bind F allowed J (Keeps-set_level F allowed J new _) λ _.
          bind F allowed J (Keeps-set_level F allowed J t.prev _)
            λ _. Keeps-set_level F allowed J target _

  Keeps-find_place :
      (fuel : ℕ) (side : Side) (price : ℤ) (best : Option ℕ) (best_price : ℤ)
      → Keeps F allowed J (find_place fuel side price best best_price)
  unfolding find_place
  Keeps-find_place fuel side price best best_price =
      branch F allowed J (is_worse side price best_price) (Keeps-seek fuel side price best best)
        (pure-Keeps F allowed J (best, false))

  Keeps-place_before :
      (new : Option ℕ) (side : Side) (price : ℤ) (best target : Option ℕ)
      → Keeps F allowed J (place_before new side price best target)
  unfolding place_before
  Keeps-place_before new side price best target =
      bind F allowed J (Keeps-insert_before new target) λ _.
        bind F allowed J (Keeps-level_at F allowed J best) λ b.
          branch F allowed J (is_better side price b.price) (Keeps-set_best F allowed J side new)
            (pure-Keeps F allowed J tt)

  Keeps-insert_level :
      (fuel : ℕ) (new best : Option ℕ) → Keeps F allowed J (insert_level fuel new best)
  unfolding insert_level
  Keeps-insert_level fuel new best = bind F allowed J (Keeps-level_at F allowed J new) λ l.
      bind F allowed J (Keeps-level_at F allowed J best) λ b.
        bind F allowed J (Keeps-find_place fuel l.side l.price best b.price) λ r.
          branch F allowed J r.1 (Keeps-insert_after new r.0)
            (Keeps-place_before new l.side l.price best r.0)

  Keeps-place_level :
      (new : Option ℕ) (side : Side) (best : Option ℕ)
      → Keeps F allowed J (place_level new side best)
  unfolding place_level
  Keeps-place_level new side none =
      bind F allowed J (Keeps-set_best F allowed J side new)
        λ _. Keeps-set_level F allowed J new (λ l. record l { prev = new; next = new })
  Keeps-place_level new side (some p) = record {
    apply = λ b j. (Keeps-insert_level b.level_pool.size new (some p)).apply b j;
  }

  pub Keeps-add_price_level : (new : Option ℕ) → Keeps F allowed J (add_price_level new)
  unfolding add_price_level
  Keeps-add_price_level new = bind F allowed J (Keeps-level_at F allowed J new) λ l.
      bind F allowed J (Keeps-set_price_level F allowed J _ new) λ _.
        bind F allowed J (Keeps-get_best F allowed J l.side)
          λ best. Keeps-place_level new l.side best

module _ (F : Fault → Type 0) (allowed : Faults F) (any : (e : Fault) → F e) (J : Property)
    (free : IsLinkFree J) where
  pub Keeps-join_level :
      (order : Option ℕ) (o : Order) (found : Option ℕ)
      → Keeps F allowed J (join_level order o found)
  unfolding join_level
  Keeps-join_level order o none =
      bind F allowed J (Keeps-set_order F allowed J free order _ (λ o. linked o _ _)) λ _.
        bind F allowed J (Keeps-allocate_level F allowed J any _)
          λ new. Keeps-add_price_level F allowed any J new
  Keeps-join_level order o (some p) = Keeps-append_order F allowed J free order (some p)
