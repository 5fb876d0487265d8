-- ===== src/Pool/Access.antt =====
-- Reading and writing through a pointer: on a live object it succeeds, on anything else it is undefined.
use hft_sys.Common.{
  ℕ, ◌<◌, ◌≡◌, ◌⊎◌, inl, inr, some, arith, dec_lt, ok, fail, undefined, terminated, none, add_size,
  Option-cases, lt→ltb, le→ltb, update, refl, Bool, true, false, Option, Result, ◌>>=◌,
  if◌then◌else◌, ltb, ◌==◌, ◌-◌,
}
use hft_sys.Pool.{Pool, get, put, allocate, deallocate, update_next_free_index, search, is_free}

module _ {ℓ} {A : Type ℓ} where
  -- `p` points to the live object `a`.
  pub record Live (q : Pool A) (p : ℕ) (a : A) : Type ℓ where
    pub in_pool : p < q.size
    pub holds : q.blocks p ≡ some a

  abbrev pub written : Pool A → ℕ → A → Pool A
  written q p a = record q { blocks = update q.blocks p (some a) }

  pub get-Live : {q : Pool A} {p : ℕ} {a : A} → Live q p a → get p q ≡ ok a
  unfolding get
  get-Live l = rw (lt→ltb _ _ l.in_pool, l.holds) refl

  pub put-Live :
      {q : Pool A} {p : ℕ} {a : A} (a' : A) → Live q p a → put p a' q ≡ ok (written q p a')
  unfolding put
  put-Live a' l = rw (lt→ltb _ _ l.in_pool, l.holds) refl

  pub get-cases : (q : Pool A) (p : ℕ) → (get p q ≡ fail undefined) ⊎ ((a : A) × Live q p a)
  unfolding get
  get-cases q p = elim (dec_lt p q.size) [
    | no out ↦ inl (rw (le→ltb p q.size (omega arith)) refl)
    | yes in_pool ↦ elim (Option-cases (q.blocks p)) [
      | inl free ↦ inl (rw (lt→ltb _ _ in_pool, free) refl)
      | inr (a, holds) ↦ inr (a, record { in_pool = in_pool; holds = holds })
    ]
  ]

  abbrev pub freed : Pool A → ℕ → Pool A
  freed q p = record q {
    blocks = update q.blocks p none;
    free_count = add_size q.free_count 1;
    last_freed = p;
    next_free = p;
  }

  pub deallocate-Live : {q : Pool A} {p : ℕ} {a : A} → Live q p a → deallocate p q ≡ ok (freed q p)
  unfolding deallocate
  deallocate-Live l = rw (lt→ltb _ _ l.in_pool, l.holds) refl

  pub deallocate-cases :
      (q : Pool A) (p : ℕ) → (deallocate p q ≡ fail terminated) ⊎ ((a : A) × Live q p a)
  unfolding deallocate
  deallocate-cases q p = elim (dec_lt p q.size) [
    | no out ↦ inl (rw (le→ltb p q.size (omega arith)) refl)
    | yes in_pool ↦ elim (Option-cases (q.blocks p)) [
      | inl free ↦ inl (rw (lt→ltb _ _ in_pool, free) refl)
      | inr (a, holds) ↦ inr (a, record { in_pool = in_pool; holds = holds })
    ]
  ]

-- What an allocation that returns has done: nothing, or put the object into a block that was free.
module _ {ℓ} {A : Type ℓ} where
  abbrev pub Allocates : A → Pool A → Result (Option ℕ × Pool A) → Type ℓ
  Allocates a q (ok (none, q')) = q' ≡ q
  Allocates a q (ok (some n, q')) = (q.blocks n ≡ none) × (q'.blocks ≡ update q.blocks n (some a))
  Allocates a q (fail e) = Unit

  is_free-none : (block : Option A) → is_free block ≡ true → block ≡ none
  is_free-none none h = refl
  is_free-none (some a) h = absurd cc

  pub allocate-Allocates : (a : A) (q : Pool A) → Allocates a q (allocate a q)
  unfolding allocate update_next_free_index
  allocate-Allocates a q =
      let blocks = update q.blocks q.next_free (some a) in
      decided (q.free_count == 0) (is_free (q.blocks q.next_free)) (ltb 0 (q.free_count - 1))
        (is_free (blocks q.next_free)) (search blocks q.size q.next_free q.size q.next_free)
        (is_free-none (q.blocks q.next_free))
    where
      decided :
          (full free more next : Bool) (s : Result ℕ)
          → (free ≡ true → q.blocks q.next_free ≡ none)
          → Allocates a q (
              let p : Pool A = record q {
                blocks = update q.blocks q.next_free (some a);
                free_count = q.free_count - 1;
              } in
              if full
              then ok (none, q)
              else if free
              then ((if more
                    then (if next then ok p else (s >>= λ i. ok (record p { next_free = i })))
                    else ok p)
                  >>= λ m. ok (some q.next_free, m))
              else fail terminated)
      decided true free more next s h = refl
      decided false false more next s h = tt
      decided false true false next s h = (h refl, refl)
      decided false true true true s h = (h refl, refl)
      decided false true true false (ok i) h = (h refl, refl)
      decided false true true false (fail f) h = tt
