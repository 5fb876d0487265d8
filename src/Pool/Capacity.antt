-- ===== src/Pool/Capacity.antt =====
-- A valid pool serves exactly as many allocations as it has free blocks, and what is freed is reused.
use hft_sys.Common.{
  ℕ, ◌<◌, ◌≡◌, refl, sym, ap, subst, ◌∙◌, inl, List, [], ◌∷◌, map, Option, none, some, arith,
  Result, ok, fail, terminated, ◌>>=◌, length, update, update_self, update_ne,
}
use hft_sys.Pool.{Pool, allocate, deallocate}
use hft_sys.Pool.Invariant.{
  IsValid, Allocated, allocate-room, allocate-full, deallocate_lem, deallocate-free,
}

module _ {A : Type 0} where
  -- Allocations in a row, with the pointer that each returns.
  pub allocate_all : List A → Pool A → Result (List (Option ℕ) × Pool A)
  allocate_all [] p = ok ([], p)
  allocate_all (x ∷ xs) p = do (i, p') ← allocate x p; (is, q) ← allocate_all xs p'; ok (i ∷ is, q)

  -- Each pointer leads to its object.
  abbrev pub Stored : (ℕ → Option A) → List ℕ → List A → Type 0
  Stored f [] [] = Unit
  Stored f (i ∷ is) (x ∷ xs) = (f i ≡ some x) × Stored f is xs
  Stored f _ _ = ⊥

  -- What a row of allocations does to the pool `p`.
  pub record Served (xs : List A) (p q : Pool A) (is : List ℕ) : Type 0 where
    pub run : allocate_all xs p ≡ ok (map some is, q)
    pub stored : Stored q.blocks is xs
    pub kept : (i : ℕ) (a : A) → p.blocks i ≡ some a → q.blocks i ≡ some a
    pub valid : IsValid q
    pub exhausted : q.free_count ≡ 0

  serve-cons :
      {a : A} {xs : List A} {p p' q : Pool A} {is : List ℕ}
      → allocate a p ≡ ok (some p.next_free, p')
      → Allocated a p p'
      → Served xs p' q is
      → Served (a ∷ xs) p q (p.next_free ∷ is)
  unfolding allocate_all
  serve-cons {a} {p} {p'} took al rest = record {
    run = rw (took, rest.run) refl;
    stored = (
      rest.kept p.next_free a
          (ap (λ f. f p.next_free) al.stored ∙ update_self p.blocks p.next_free (some a)),
      rest.stored,
    );
    kept = λ i b held. rest.kept i b (kept_in i b held);
    valid = rest.valid;
    exhausted = rest.exhausted;
  }
    where
      kept_in : (i : ℕ) (b : A) → p.blocks i ≡ some b → p'.blocks i ≡ some b
      kept_in i b held =
          ap (λ f. f i) al.stored
          ∙ (update_ne p.blocks p.next_free (some a) i (λ e. cc (al.was_free, held, ap p.blocks e))
              ∙ held)

  -- A valid pool serves a row of as many allocations as it has free blocks: every one returns a
  -- pointer, each pointer leads to its own object and older objects stay; the next one returns null.
  pub allocate_all_lem :
      (xs : List A) (p : Pool A)
      → IsValid p
      → length xs ≡ p.free_count
      → (q : Pool A) × (is : List ℕ) × Served xs p q is × ((a : A) → allocate a q ≡ ok (none, q))
  unfolding allocate_all
  allocate_all_lem [] p v e = (
    p,
    [],
    record { run = refl; stored = tt; kept = λ i a h. h; valid = v; exhausted = sym e },
    λ a. allocate-full a p (sym e),
  )
  allocate_all_lem (x ∷ xs) p v e =
      let (p', took, al) = allocate-room x p v (omega arith) in
      let (q, is, rest, full) = allocate_all_lem xs p' al.valid (omega (arith, al.counted)) in
      (q, p.next_free ∷ is, serve-cons took al rest, full)

  -- On a valid pool: freeing a live block at `i` succeeds, freeing it again at once terminates the
  -- program, and the next `allocate` returns the same block, with the new object in it.
  pub allocate-deallocate :
      (i : ℕ) (a b : A) (p : Pool A)
      → IsValid p
      → i < p.size
      → p.blocks i ≡ some a
      → (q r : Pool A) × (deallocate i p ≡ ok q)
        × (deallocate i q ≡ fail terminated)
        × (allocate b q ≡ ok (some i, r))
        × (r.blocks i ≡ some b)
        × (r.free_count ≡ p.free_count)
  allocate-deallocate i a b p v i_in used =
      let (q, freed, valid, blocks, next, count, size) = deallocate_lem i a p v i_in used in
      let (r, took, al) = allocate-room b q valid (omega (arith, count)) in
      (
        q,
        r,
        freed,
        deallocate-free i q (inl (ap (λ f. f i) blocks ∙ update_self p.blocks i none)),
        subst (λ k. allocate b q ≡ ok (some k, r)) next took,
        ap (λ f. f i) al.stored
            ∙ subst (λ k. update q.blocks k (some b) i ≡ some b) (sym next)
                (update_self q.blocks i (some b)),
        omega (arith, count, al.counted),
      )
