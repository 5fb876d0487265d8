-- ===== src/Tests/Pools.antt =====
-- A memory pool of two blocks.
use hft_sys.Common.{
  ℕ, ◌+◌, ◌≡◌, ◌⊎◌, refl, List, [], ◌∷◌, none, some, arith, ok, fail, terminated, update,
}
use hft_sys.Pool
use hft_sys.Pool.{Pool, allocate, deallocate}
use hft_sys.Pool.Count.{total}
use hft_sys.Pool.Invariant.{IsValid, new-IsValid, Allocated, allocate_lem, deallocate_lem}
use hft_sys.Pool.Capacity.{Served, allocate_all_lem, allocate-deallocate}

abbrev two_blocks : Pool ℕ
two_blocks = Pool.new 2

two_blocks-IsValid : IsValid two_blocks
two_blocks-IsValid = new-IsValid 2 (omega arith)

-- One block of the two is in use.
abbrev one_used : Pool ℕ
one_used = record {
  blocks = update (λ _. none) 0 (some 7);
  size = 2;
  next_free = 1;
  free_count = 1;
  last_freed = 0;
}

one_used_run : allocate 7 two_blocks ≡ ok (some 0, one_used)
unfolding Pool.new allocate Pool.update_next_free_index Pool.search
one_used_run = refl

one_used-IsValid : IsValid one_used
unfolding total
one_used-IsValid = record {
  small = omega arith;
  counted = refl;
  next_in = λ h. omega arith;
  next_is_free = λ h. refl;
}

allocate_all_lem_example :
    (q : Pool ℕ) × (is : List ℕ) × Served (7 ∷ 8 ∷ []) two_blocks q is
    × ((a : ℕ) → allocate a q ≡ ok (none, q))
unfolding Pool.new
allocate_all_lem_example = allocate_all_lem (7 ∷ 8 ∷ []) two_blocks two_blocks-IsValid refl

allocate_lem_example :
    ((one_used.free_count ≡ 0) × (allocate 8 one_used ≡ ok (none, one_used)))
    ⊎ ((q : Pool ℕ) × (allocate 8 one_used ≡ ok (some one_used.next_free, q))
        × Allocated 8 one_used q)
allocate_lem_example = allocate_lem 8 one_used one_used-IsValid

deallocate_lem_example :
    (q : Pool ℕ) × (deallocate 0 one_used ≡ ok q)
    × IsValid q
    × (q.blocks ≡ update one_used.blocks 0 none)
    × (q.next_free ≡ 0)
    × (q.free_count ≡ one_used.free_count + 1)
    × (q.size ≡ one_used.size)
deallocate_lem_example = deallocate_lem 0 7 one_used one_used-IsValid (omega arith) refl

allocate-deallocate_example :
    (q r : Pool ℕ) × (deallocate 0 one_used ≡ ok q)
    × (deallocate 0 q ≡ fail terminated)
    × (allocate 9 q ≡ ok (some 0, r))
    × (r.blocks 0 ≡ some 9)
    × (r.free_count ≡ one_used.free_count)
allocate-deallocate_example = allocate-deallocate 0 7 9 one_used one_used-IsValid (omega arith) refl
