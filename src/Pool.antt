-- ===== src/Pool.antt =====
-- lib/memory_pool.h: `utils::MemoryPool<T>`. A pointer into the pool is the index of its block.
pub mod Count
pub mod Access
pub mod Linked
pub mod Search
pub mod Invariant
pub mod Capacity
use hft_sys.Common.{
  ℕ, zero, suc, ◌-◌, ◌%◌, ◌≡◌, Bool, true, false, Option, none, some, ltb, ◌==◌, if◌then◌else◌,
  add_size, update, Result, ok, fail, terminated, out_of_fuel, undefined, ◌>>=◌,
}

-- A block is `none` while `isFree`, and holds its object while it is in use.
pub record Pool {ℓ} (A : Type ℓ) : Type ℓ where
  pub blocks : ℕ → Option A
  pub size : ℕ
  pub next_free : ℕ
  pub free_count : ℕ
  pub last_freed : ℕ

module _ {ℓ} {A : Type ℓ} where
  abbrev pub is_free : Option A → Bool
  is_free none = true
  is_free (some _) = false

  -- `MemoryPool(size)`
  unfoldable pub new : ℕ → Pool A
  new size = record {
    blocks = λ _. none;
    size = size;
    next_free = 0;
    free_count = size;
    last_freed = 0;
  }

  -- The loop of `updateNextFreeIndex`, from the index `i`; at most `size` rounds are made.
  unfoldable pub search : (ℕ → Option A) → ℕ → ℕ → ℕ → ℕ → Result ℕ
  search blocks size start zero i = fail out_of_fuel
  search blocks size start (suc fuel) i =
      let j = add_size i 1 % size in
      let rest = search blocks size start fuel j in
      if is_free (blocks j) then ok j else if j == start then fail terminated else rest

  unfoldable pub update_next_free_index : Pool A → Result (Pool A)
  update_next_free_index p = if is_free (p.blocks p.next_free) then ok p else do
    i ← search p.blocks p.size p.next_free p.size p.next_free
    ok (record p { next_free = i })

  -- The object that `allocate` constructs is its argument; `none` is the null pointer.
  unfoldable pub allocate : A → Pool A → Result (Option ℕ × Pool A)
  allocate a p =
      if p.free_count == 0
      then ok (none, p)
      else if is_free (p.blocks p.next_free)
      then (do
        let taken = record p {
          blocks = update p.blocks p.next_free (some a);
          free_count = p.free_count - 1;
        }
        moved ← if ltb 0 taken.free_count then update_next_free_index taken else ok taken
        ok (some p.next_free, moved))
      else fail terminated

  unfoldable pub deallocate : ℕ → Pool A → Result (Pool A)
  deallocate i p =
      if ltb i p.size
      then (if is_free (p.blocks i)
          then fail terminated
          else ok (record p {
            blocks = update p.blocks i none;
            free_count = add_size p.free_count 1;
            last_freed = i;
            next_free = i;
          }))
      else fail terminated

  unfoldable pub get_free_blocks_count : Pool A → ℕ
  get_free_blocks_count p = p.free_count

  unfoldable pub get_total_blocks_count : Pool A → ℕ
  get_total_blocks_count p = p.size

  -- Reading and writing an object through a pointer into the pool: only a live object may be used.
  unfoldable pub get : ℕ → Pool A → Result A
  get i p =
      if ltb i p.size
      then elim (p.blocks i) [ none ↦ fail undefined | some a ↦ ok a ]
      else fail undefined

  unfoldable pub put : ℕ → A → Pool A → Result (Pool A)
  put i a p =
      if ltb i p.size
      then elim (p.blocks i) [
        | none ↦ fail undefined
        | some _ ↦ ok (record p { blocks = update p.blocks i (some a) })
      ]
      else fail undefined
