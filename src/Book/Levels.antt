-- ===== src/Book/Levels.antt =====
-- order_book.h and order_book.cpp: price levels. `priceToIndex`, `getLevelForPrice`,
-- `getNextPriority`, `addPriceLevel` and `removePriceLevel`.
use hft_sys.Common.{
  ℕ, zero, suc, ◌%◌, Bool, false, Option, none, some, ◌&&◌, ◌||◌, not, if◌then◌else◌, add_size,
  fail, out_of_fuel,
}
use hft_sys.Common.Int.{ℤ, ltb_ℤ, to_u64}
use hft_sys.Exchange.{OrdersAtPrice, Side, is_buy, is_sell, max_price_levels}
use hft_sys.Book.{
  M, pure, ◌>>=◌, ◌>>◌, order_at, level_at, set_level, deallocate_level, same_pointer, best_of,
  set_best, set_price_level,
}

-- `price % MAX_PRICE_LEVELS`: the modulus is a `size_t`, so the price is converted to unsigned first.
unfoldable pub price_to_index : ℤ → ℕ
price_to_index price = to_u64 price % max_price_levels

unfoldable pub get_level_for_price : ℤ → M (Option ℕ)
unfolding price_to_index
get_level_for_price price b = pure (b.price_levels (price_to_index price)) b

-- The priority behind the last order of a level, `order0_->prev_`; 1 where there is no level.
unfoldable pub priority_behind : Option ℕ → M ℕ
unfolding order_at level_at
priority_behind none = pure 1
priority_behind (some p) = do
  level ← level_at (some p)
  first ← order_at level.order0
  last ← order_at first.prev
  pure (add_size last.priority 1)

unfoldable pub get_next_priority : ℤ → M ℕ
unfolding get_level_for_price priority_behind
get_next_priority price = do found ← get_level_for_price price; priority_behind found

-- `shouldAddAfter`: the new level's price is worse than the target's.
abbrev pub is_worse : Side → ℤ → ℤ → Bool
is_worse side new_price target_price =
    if is_sell side then ltb_ℤ target_price new_price else ltb_ℤ new_price target_price

-- The test by which a new level becomes the best one.
abbrev pub is_better : Side → ℤ → ℤ → Bool
is_better side new_price best_price =
    (is_buy side && ltb_ℤ best_price new_price) || (is_sell side && ltb_ℤ new_price best_price)

-- The `do` loop: the level at which it stops, with `shouldAddAfter`.
unfoldable pub seek : ℕ → Side → ℤ → Option ℕ → Option ℕ → M (Option ℕ × Bool)
unfolding level_at
seek zero side price best target = λ b. fail out_of_fuel
seek (suc fuel) side price best target = do
  here ← level_at target
  next ← level_at here.next
  let rest = seek fuel side price best here.next
  if is_worse side price next.price && not (same_pointer here.next best)
      then rest
      else pure (here.next, is_worse side price next.price)

-- Reading `bestOrdersByPrice`.
abbrev pub get_best : Side → M (Option ℕ)
get_best side b = pure (best_of side b) b

unfoldable pub insert_after : Option ℕ → Option ℕ → M (Unit {0})
unfolding level_at set_level
insert_after new target = do
  set_level new (λ l. record l { prev = target })
  t ← level_at target
  set_level new (λ l. record l { next = t.next })
  set_level t.next (λ l. record l { prev = new })
  set_level target (λ l. record l { next = new })

unfoldable pub insert_before : Option ℕ → Option ℕ → M (Unit {0})
unfolding level_at set_level
insert_before new target = do
  set_level new (λ l. record l { next = target })
  t ← level_at target
  set_level new (λ l. record l { prev = t.prev })
  set_level t.prev (λ l. record l { next = new })
  set_level target (λ l. record l { prev = new })

-- The walk from the best level: where the new level goes, and whether behind it.
unfoldable pub find_place : ℕ → Side → ℤ → Option ℕ → ℤ → M (Option ℕ × Bool)
unfolding seek
find_place fuel side price best best_price =
    if is_worse side price best_price then seek fuel side price best best else pure (best, false)

-- Insertion before the target, where the new level may become the best one.
unfoldable pub place_before : Option ℕ → Side → ℤ → Option ℕ → Option ℕ → M (Unit {0})
unfolding insert_before
place_before new side price best target = do
  insert_before new target
  b ← level_at best
  if is_better side price b.price then set_best side new else pure tt

-- Where the side of the book is not empty: `best` is its best level.
unfoldable pub insert_level : ℕ → Option ℕ → Option ℕ → M (Unit {0})
unfolding find_place insert_after place_before
insert_level fuel new best = do
  l ← level_at new
  b ← level_at best
  (target, after) ← find_place fuel l.side l.price best b.price
  if after then insert_after new target else place_before new l.side l.price best target

-- The new level on a side whose best level is given: alone, or among the others.
unfoldable pub place_level : Option ℕ → Side → Option ℕ → M (Unit {0})
unfolding insert_level
place_level new side none = do
  set_best side new
  set_level new (λ l. record l { prev = new; next = new })
place_level new side (some p) = λ b. insert_level b.level_pool.size new (some p) b

-- `addPriceLevel`. The walk visits each level of the pool at most once.
unfoldable pub add_price_level : Option ℕ → M (Unit {0})
unfolding place_level price_to_index
add_price_level new = do
  l ← level_at new
  set_price_level (price_to_index l.price) new
  best ← get_best l.side
  place_level new l.side best

-- Takes a level that is not alone out of the ring of its side.
unfoldable pub unlink_level : Option ℕ → OrdersAtPrice → Side → Option ℕ → M (Unit {0})
unfolding set_level
unlink_level p level side best = do
  set_level level.prev (λ l. record l { next = level.next })
  set_level level.next (λ l. record l { prev = level.prev })
  (if same_pointer p best then set_best side level.next else pure tt)
  set_level p (λ l. record l { prev = none; next = none })

-- `removePriceLevel`
unfoldable pub remove_price_level : Side → ℤ → M (Unit {0})
unfolding get_level_for_price level_at unlink_level deallocate_level
remove_price_level side price = do
  p ← get_level_for_price price
  level ← level_at p
  best ← get_best side
  (if same_pointer level.next p then set_best side none else unlink_level p level side best)
  set_price_level (price_to_index price) none
  deallocate_level p
