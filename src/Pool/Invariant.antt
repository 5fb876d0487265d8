-- ===== src/Pool/Invariant.antt =====
-- The invariant of `MemoryPool`, which `allocate` and `deallocate` keep: the counter counts the free
-- blocks, and `nextFreeIndex_` is free whenever a block is.
use native.Mathlib.Nat.{mod-eq_of_lt}
use hft_sys.Common.{
  ℕ, zero, suc, ◌+◌, ◌-◌, ◌%◌, ◌^◌, ◌≤◌, ◌<◌, ◌≡◌, refl, sym, ap, ◌∙◌, ◌⊎◌, inl, inr, Option, none,
  some, arith, dec_lt, ok, fail, terminated, Option-cases, ne→==, le→ltb, lt→ltb, update,
  update_self, add_size,
}
use hft_sys.Pool.{Pool, new, update_next_free_index, allocate, deallocate}
use hft_sys.Pool.Count.{total, total-update, total-const, total-pos, total-le}
use hft_sys.Pool.Search.{steps_to, search-ok}

module _ {ℓ} {A : Type ℓ} where
  abbrev pub free_weight : Option A → ℕ
  free_weight none = 1
  free_weight (some _) = 0

  abbrev pub free_blocks : Pool A → ℕ
  free_blocks p = total free_weight p.size p.blocks

  pub record IsValid (p : Pool A) : Type ℓ where
    pub small : p.size ≤ 2 ^ 63
    pub counted : p.free_count ≡ free_blocks p
    pub next_in : 0 < p.size → p.next_free < p.size
    pub next_is_free : 0 < p.free_count → p.blocks p.next_free ≡ none

  pub new-IsValid : (size : ℕ) → size ≤ 2 ^ 63 → IsValid (new {A = A} size)
  unfolding new
  new-IsValid size small = record {
    small = small;
    counted = sym (total-const free_weight size none refl);
    next_in = λ h. h;
    next_is_free = λ _. refl;
  }

  free_weight-pos : (b : Option A) → 0 < free_weight b → b ≡ none
  free_weight-pos none h = refl
  free_weight-pos (some a) h = absurd (omega arith)

  pub update_next_free_index-ok :
      (p : Pool A)
      → p.size ≤ 2 ^ 63
      → p.next_free < p.size
      → 0 < free_blocks p
      → (j : ℕ) × (update_next_free_index p ≡ ok (record p { next_free = j }))
        × (j < p.size)
        × (p.blocks j ≡ none)
  unfolding update_next_free_index
  update_next_free_index-ok p small next_in some_free = elim (Option-cases (p.blocks p.next_free)) [
    | inl free ↦ (p.next_free, rw free refl, next_in, free)
    | inr (a, used) ↦
        let (t, t_in, t_free) = total-pos free_weight p.size p.blocks some_free in
        let (m, m_in, e) = steps_to p.size p.next_free t next_in t_in in
        let free : p.blocks ((p.next_free + m) % p.size) ≡ none =
          rw (← e) (free_weight-pos _ t_free) in
        let (j, found, j_in, j_free) =
          search-ok p.blocks p.size p.next_free m small next_in m_in free p.size 0 p.next_free
            (sym (mod-eq_of_lt next_in) ∙ ap (λ k. k % p.size) (omega arith)) (ahead m a used free)
            (omega arith) in
        (j, rw (used, found) refl, j_in, j_free)
  ]
    where
      ahead :
          (m : ℕ) (a : A)
          → p.blocks p.next_free ≡ some a
          → p.blocks ((p.next_free + m) % p.size) ≡ none
          → 0 < m
      ahead zero a used free =
          let e : (p.next_free + 0) % p.size ≡ p.next_free =
            ap (λ k. k % p.size) (omega arith) ∙ mod-eq_of_lt next_in in
          cc (used, free, ap p.blocks e)
      ahead (suc m) a used free = omega arith

  free_weight-le : (b : Option A) → free_weight b ≤ 1
  free_weight-le none = omega arith
  free_weight-le (some a) = omega arith

  -- The pool after the free block at `nextFreeIndex_` is filled, before the index moves on.
  fill : A → Pool A → Pool A
  fill a p = record p {
    blocks = update p.blocks p.next_free (some a);
    free_count = p.free_count - 1;
  }

  -- What `allocate` does to a valid pool `p` when a block is free.
  pub record Allocated (a : A) (p q : Pool A) : Type ℓ where
    pub valid : IsValid q
    pub was_free : p.blocks p.next_free ≡ none
    pub in_pool : p.next_free < p.size
    pub stored : q.blocks ≡ update p.blocks p.next_free (some a)
    pub counted : q.free_count + 1 ≡ p.free_count
    pub same_size : q.size ≡ p.size

  in_pool_of_room : (p : Pool A) → IsValid p → 0 < p.free_count → p.next_free < p.size
  in_pool_of_room p v room =
      let (i, i_in, _) = total-pos free_weight p.size p.blocks (omega arith) in
      v.next_in (omega arith)

  fill-counts :
      (a : A) (p : Pool A)
      → IsValid p
      → 0 < p.free_count
      → free_blocks (fill a p) + 1 ≡ p.free_count
  unfolding fill
  fill-counts a p v room =
      let free = v.next_is_free room in
      let sums =
        total-update free_weight p.size p.blocks p.next_free (some a) (in_pool_of_room p v room) in
      let weight : free_weight (p.blocks p.next_free) ≡ 1 = ap free_weight free in
      omega (arith, sums, weight)

  allocate-last :
      (a : A) (p : Pool A)
      → IsValid p
      → (p.free_count ≡ 1)
      → (q : Pool A) × (allocate a p ≡ ok (some p.next_free, q)) × Allocated a p q
  unfolding allocate fill
  allocate-last a p v one =
      let free = v.next_is_free (omega arith) in
      let place = in_pool_of_room p v (omega arith) in
      let counts = fill-counts a p v (omega arith) in
      (
        fill a p,
        rw (one, free) refl,
        record {
          valid = record {
            small = v.small;
            counted = omega (arith, counts);
            next_in = v.next_in;
            next_is_free = λ h. absurd (omega arith);
          };
          was_free = free;
          in_pool = place;
          stored = refl;
          counted = omega arith;
          same_size = refl;
        },
      )

  allocate-more :
      (a : A) (p : Pool A)
      → IsValid p
      → 1 < p.free_count
      → (q : Pool A) × (allocate a p ≡ ok (some p.next_free, q)) × Allocated a p q
  unfolding allocate fill
  allocate-more a p v many =
      let free = v.next_is_free (omega arith) in
      let place = in_pool_of_room p v (omega arith) in
      let counts = fill-counts a p v (omega arith) in
      let (j, moves, j_in, j_free) =
        update_next_free_index-ok (fill a p) v.small place (omega (arith, counts)) in
      (
        record (fill a p) { next_free = j },
        rw
            (
              ne→== p.free_count 0 (omega arith),
              free,
              lt→ltb 0 (p.free_count - 1) (omega arith),
              moves,
            )
            refl,
        record {
          valid = record {
            small = v.small;
            counted = omega (arith, counts);
            next_in = λ _. j_in;
            next_is_free = λ _. j_free;
          };
          was_free = free;
          in_pool = place;
          stored = refl;
          counted = omega arith;
          same_size = refl;
        },
      )

  pub allocate-room :
      (a : A) (p : Pool A)
      → IsValid p
      → 0 < p.free_count
      → (q : Pool A) × (allocate a p ≡ ok (some p.next_free, q)) × Allocated a p q
  allocate-room a p v room = elim (dec_lt 1 p.free_count) [
    | yes many ↦ allocate-more a p v many
    | no few ↦ allocate-last a p v (omega arith)
  ]

  pub allocate-full : (a : A) (p : Pool A) → p.free_count ≡ 0 → allocate a p ≡ ok (none, p)
  unfolding allocate
  allocate-full a p full = rw full refl

  -- `allocate` on a valid pool never trips an assertion: it returns null exactly when no block is
  -- free, and otherwise takes the free block at `nextFreeIndex_` and leaves every other block alone.
  pub allocate_lem :
      (a : A) (p : Pool A)
      → IsValid p
      → ((p.free_count ≡ 0) × (allocate a p ≡ ok (none, p)))
        ⊎ ((q : Pool A) × (allocate a p ≡ ok (some p.next_free, q)) × Allocated a p q)
  unfolding allocate
  allocate_lem a p v = elim (dec_lt 0 p.free_count) [
    | no empty ↦ inl (omega arith, allocate-full a p (omega arith))
    | yes room ↦ inr (allocate-room a p v room)
  ]

  -- A block that is free, or that the pool does not have, is refused.
  pub deallocate-free :
      (i : ℕ) (p : Pool A) → (p.blocks i ≡ none) ⊎ (p.size ≤ i) → deallocate i p ≡ fail terminated
  unfolding deallocate
  deallocate-free i p (inl free) = rw free (ground arith)
  deallocate-free i p (inr out) = rw (le→ltb _ _ out) refl

  -- `deallocate` of a live object on a valid pool succeeds, frees that block alone, and makes it the
  -- block that the next `allocate` takes.
  pub deallocate_lem :
      (i : ℕ) (a : A) (p : Pool A)
      → IsValid p
      → i < p.size
      → p.blocks i ≡ some a
      → (q : Pool A) × (deallocate i p ≡ ok q)
        × IsValid q
        × (q.blocks ≡ update p.blocks i none)
        × (q.next_free ≡ i)
        × (q.free_count ≡ p.free_count + 1)
        × (q.size ≡ p.size)
  unfolding deallocate
  deallocate_lem i a p v i_in used =
      let sums = total-update free_weight p.size p.blocks i none i_in in
      let most = total-le free_weight free_weight-le p.size (update p.blocks i none) in
      let weight : free_weight (p.blocks i) ≡ 0 = ap free_weight used in
      let grown : add_size p.free_count 1 ≡ p.free_count + 1 = omega (arith, sums, most, weight) in
      (
        record p {
          blocks = update p.blocks i none;
          free_count = add_size p.free_count 1;
          last_freed = i;
          next_free = i;
        },
        rw (lt→ltb _ _ i_in, used) refl,
        record {
          small = v.small;
          counted = omega (arith, sums, weight, grown);
          next_in = λ _. i_in;
          next_is_free = λ _. update_self p.blocks i none;
        },
        refl,
        refl,
        grown,
        refl,
      )
