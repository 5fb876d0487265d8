-- ===== src/LfQueue/Consuming.antt =====
-- The steps of the consumer keep the invariant.
use native.Mathlib.Nat.{mod-add-mod, mod-eq_of_lt}
use hft_sys.Common.{
  ℕ, suc, ◌+◌, ◌-◌, ◌%◌, ◌<◌, ◌≤◌, ◌≡◌, refl, sym, ap, ap₂, ◌∙◌, List, [], ◌∷◌, ◌++◌, append_assoc,
  arith, add_size,
}
use hft_sys.LfQueue.{Queue}
use hft_sys.LfQueue.Window.{window, window-mod}
use hft_sys.LfQueue.Threads.{
  Producer, idle, has_room, stored, advanced, waiting, has_element, copied, passed, with_passed,
  with_released,
}
use hft_sys.LfQueue.Places.{ahead, Writes, Inv}

module _ {A : Type 0} where
  Writes-mono :
      (q q' : Queue A) (h h' : ℕ) (p : Producer A)
      → q'.num_elements ≤ q.num_elements
      → q'.capacity ≡ q.capacity
      → q'.slots ≡ q.slots
      → q'.next_to_write ≡ q.next_to_write
      → (q'.next_to_read + h') % q'.capacity ≡ (q.next_to_read + h) % q.capacity
      → Writes q h p
      → Writes q' h' p
  Writes-mono q q' h h' idle less cap slots write place w = tt
  Writes-mono q q' h h' (has_room v) less cap slots write place w = omega arith
  Writes-mono q q' h h' (stored v) less cap slots write place w =
      (omega arith, ap₂ (λ f i. f i) slots write ∙ w.1)
  Writes-mono q q' h h' (advanced v) less cap slots write place w =
      (omega arith, ap₂ (λ f i. f i) slots place ∙ w.1)

  module _ {q : Queue A} {p : Producer A} {sent got : List A} where
    pub look-Inv : Inv q p waiting sent got → 0 < q.num_elements → Inv q p has_element sent got
    look-Inv i h = record {
      small = i.small;
      fits = i.fits;
      read_in = i.read_in;
      write_at = i.write_at;
      reads = h;
      writes = i.writes;
      order = i.order;
    }

    pub copy-Inv : Inv q p has_element sent got → Inv q p (copied (q.slots q.next_to_read)) sent got
    copy-Inv i = record {
      small = i.small;
      fits = i.fits;
      read_in = i.read_in;
      write_at = i.write_at;
      reads = (i.reads, refl);
      writes = i.writes;
      order = i.order;
    }

    -- Moving the read index takes the oldest element out of the window.
    pub pass-Inv : (v : A) → Inv q p (copied v) sent got → Inv (with_passed q) p (passed v) sent got
    pass-Inv v i =
        let read_in = i.read_in in_use in
        record {
          small = i.small;
          fits = i.fits;
          read_in = λ h. omega arith;
          write_at = λ h.
              i.write_at h
              ∙ sym (
                  shift (q.num_elements - 1 + ahead p)
                  ∙ ap (λ k. (q.next_to_read + k) % q.capacity) (omega arith));
          reads = i.reads.0;
          writes =
              Writes-mono q (with_passed q) q.num_elements (q.num_elements - 1) p (omega arith) refl
                refl refl
                (shift (q.num_elements - 1)
                  ∙ ap (λ k. (q.next_to_read + k) % q.capacity) (omega arith))
                i.writes;
          order =
              i.order
              ∙ ap (λ xs. got ++ xs)
                  (ap (window q.capacity q.slots q.next_to_read) {y = suc (q.num_elements - 1)}
                      (omega arith)
                    ∙ ap₂ ◌∷◌ (ap q.slots (mod-eq_of_lt read_in) ∙ i.reads.1) (
                        window-mod q.capacity q.slots (q.num_elements - 1) (suc q.next_to_read)
                          (add_size q.next_to_read 1 % q.capacity) next_mod));
        }
      where
        unwrapped : q.next_to_read < q.capacity → add_size q.next_to_read 1 ≡ q.next_to_read + 1
        unwrapped h = omega (arith, i.small)

        in_use : 0 < q.capacity
        in_use = omega (arith, i.fits, i.reads.0)

        shift :
            (k : ℕ)
            → (add_size q.next_to_read 1 % q.capacity + k) % q.capacity
              ≡ (q.next_to_read + suc k) % q.capacity
        shift k =
            mod-add-mod (add_size q.next_to_read 1) q.capacity k
            ∙ ap (λ x. x % q.capacity) (omega (arith, unwrapped (i.read_in in_use)))

        next_mod :
            suc q.next_to_read % q.capacity ≡ add_size q.next_to_read 1 % q.capacity % q.capacity
        next_mod =
            ap (λ x. x % q.capacity) (omega (arith, unwrapped (i.read_in in_use)))
            ∙ sym (mod-eq_of_lt (omega (arith, in_use)))

    pub release-Inv :
        (v : A) → Inv q p (passed v) sent got → Inv (with_released q) p waiting sent (got ++ v ∷ [])
    release-Inv v i = record {
      small = i.small;
      fits = omega arith;
      read_in = i.read_in;
      write_at = i.write_at;
      reads = tt;
      writes =
          Writes-mono q (with_released q) (q.num_elements - 1) (q.num_elements - 1) p (omega arith)
            refl refl refl refl i.writes;
      order =
          i.order
          ∙ sym (
              append_assoc got (v ∷ [])
                (window q.capacity q.slots q.next_to_read (q.num_elements - 1)));
    }
