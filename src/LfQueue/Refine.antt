-- ===== src/LfQueue/Refine.antt =====
-- The queue behaves as a bounded FIFO list.
use native.Mathlib.Nat.{mod-add-mod, mod-eq_of_lt}
use hft_sys.Common.{
  ℕ, suc, ◌+◌, ◌-◌, ◌%◌, ◌^◌, ◌<◌, ◌≤◌, ◌≡◌, refl, sym, ap, ◌∙◌, List, [], ◌∷◌, ◌++◌, arith, update,
  update_self, none, some, true, false, lt→ltb, le→ltb, ok, add_size, ap₂,
}
use hft_sys.Common.Rounds.{next-round}
use hft_sys.LfQueue.{Queue, new, push, pop}
use hft_sys.LfQueue.Window.{window, window-mod, window-update, window-suc}

module _ {ℓ} {A : Type ℓ} where
  pub record IsValid (q : Queue A) : Type ℓ where
    pub small : q.capacity ≤ 2 ^ 63
    pub fits : q.num_elements ≤ q.capacity
    pub read_in : 0 < q.capacity → q.next_to_read < q.capacity
    pub write_at : 0 < q.capacity → q.next_to_write ≡ (q.next_to_read + q.num_elements) % q.capacity

  -- The elements, oldest first.
  abbrev pub contents : Queue A → List A
  contents q = window q.capacity q.slots q.next_to_read q.num_elements

  pub new-IsValid : (default : A) (n : ℕ) → n ≤ 2 ^ 63 → IsValid (new default n)
  unfolding new
  new-IsValid default n small = record {
    small = small;
    fits = omega arith;
    read_in = λ h. h;
    write_at = λ h. omega (arith, mod-eq_of_lt {n = 0 + 0} {m = n} (omega arith));
  }

  -- A full queue refuses an element.
  pub push-full : (v : A) (q : Queue A) → q.capacity ≤ q.num_elements → push v q ≡ (false, q)
  unfolding push
  push-full v q h = rw (le→ltb _ _ h, push) refl

  pub record Pushed (v : A) (q q' : Queue A) : Type ℓ where
    pub run : push v q ≡ (true, q')
    pub valid : IsValid q'
    pub contents_lem : contents q' ≡ contents q ++ v ∷ []
    pub one_more : q'.num_elements ≡ q.num_elements + 1
    pub same_capacity : q'.capacity ≡ q.capacity

  pub push-room :
      (v : A) (q : Queue A)
      → IsValid q
      → q.num_elements < q.capacity
      → (q' : Queue A) × Pushed v q q'
  unfolding push
  push-room v q val room =
      let place = val.write_at (omega arith) in
      let next = add_size q.next_to_write 1 % q.capacity in
      (
        record q {
          slots = update q.slots q.next_to_write v;
          next_to_write = next;
          num_elements = add_size q.num_elements 1;
        },
        record {
          run = rw (lt→ltb _ _ room, push) refl;
          valid = record {
            small = val.small;
            fits = omega arith;
            read_in = val.read_in;
            write_at = λ _. moved place;
          };
          contents_lem =
              ap (window q.capacity (update q.slots q.next_to_write v) q.next_to_read)
                {y = suc q.num_elements} (omega arith)
              ∙ (window-suc q.capacity (update q.slots q.next_to_write v) q.num_elements
                    q.next_to_read
                  ∙ ap₂ (λ xs x. xs ++ x ∷ [])
                      (window-update q.capacity q.slots v q.next_to_write q.num_elements
                        q.next_to_read q.num_elements place (omega arith) room)
                      (ap (update q.slots q.next_to_write v) (sym place)
                        ∙ update_self q.slots q.next_to_write v));
          one_more = omega arith;
          same_capacity = refl;
        },
      )
    where
      moved :
          q.next_to_write ≡ (q.next_to_read + q.num_elements) % q.capacity
          → add_size q.next_to_write 1 % q.capacity
            ≡ (q.next_to_read + add_size q.num_elements 1) % q.capacity
      moved place =
          next-round q.capacity q.next_to_read q.num_elements q.next_to_write val.small
            (omega arith) place
          ∙ ap (λ k. (q.next_to_read + k) % q.capacity) (omega arith)

  -- An empty queue gives nothing.
  pub pop-empty : (q : Queue A) → q.num_elements ≡ 0 → pop q ≡ ok (none, q)
  unfolding pop
  pop-empty q e = ground arith

  pub record Popped (q q' : Queue A) : Type ℓ where
    pub head : A
    pub run : pop q ≡ ok (some head, q')
    pub valid : IsValid q'
    pub contents_lem : contents q ≡ head ∷ contents q'
    pub same_capacity : q'.capacity ≡ q.capacity

  pub pop-some : (q : Queue A) → IsValid q → 0 < q.num_elements → (q' : Queue A) × Popped q q'
  unfolding pop
  pop-some q val some_in =
      let next = add_size q.next_to_read 1 % q.capacity in
      let here : q.next_to_read % q.capacity ≡ q.next_to_read =
        mod-eq_of_lt (val.read_in (omega arith)) in
      (
        record q { next_to_read = next; num_elements = q.num_elements - 1 },
        record {
          head = q.slots q.next_to_read;
          run = ground arith;
          valid = record {
            small = val.small;
            fits = omega arith;
            read_in = λ h. omega arith;
            write_at = λ h.
                val.write_at h
                ∙ sym (
                    rw
                      (next_mod h, mod-add-mod (suc q.next_to_read) q.capacity (q.num_elements - 1))
                      (ap (λ k. k % q.capacity) (omega arith)));
          };
          contents_lem =
              ap (window q.capacity q.slots q.next_to_read) {y = suc (q.num_elements - 1)}
                (omega arith)
              ∙ ap₂ ◌∷◌ (ap q.slots here) (
                  window-mod q.capacity q.slots (q.num_elements - 1) (suc q.next_to_read) next (
                    sym (
                      mod-eq_of_lt {n = next} {m = q.capacity} (omega arith)
                      ∙ next_mod (omega arith))));
          same_capacity = refl;
        },
      )
    where
      next_mod :
          0 < q.capacity → add_size q.next_to_read 1 % q.capacity ≡ suc q.next_to_read % q.capacity
      next_mod h = ap (λ k. k % q.capacity) (omega arith)
