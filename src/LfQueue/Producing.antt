-- ===== src/LfQueue/Producing.antt =====
-- The steps of the producer keep the invariant.
use hft_sys.Common.{◌+◌, ◌%◌, ◌<◌, ◌≡◌, refl, sym, ap, ◌∙◌, List, [], ◌∷◌, ◌++◌, arith, update_self}
use hft_sys.Common.Rounds.{next-round}
use hft_sys.LfQueue.{Queue}
use hft_sys.LfQueue.Window.{window, window-update, window-suc}
use hft_sys.LfQueue.Threads.{
  idle, has_room, stored, advanced, Consumer, with_stored, with_advanced, with_announced,
}
use hft_sys.LfQueue.Places.{
  taken, regroup, held, Inv, Reads-mono, Reads-store, held-le, held-announced,
}

module _ {A : Type 0} where
  module _ {q : Queue A} {c : Consumer A} {sent got : List A} where
    pub room-Inv :
        (v : A)
        → Inv q idle c sent got
        → q.num_elements < q.capacity
        → Inv q (has_room v) c sent got
    room-Inv v i h = record {
      small = i.small;
      fits = i.fits;
      read_in = i.read_in;
      write_at = i.write_at;
      reads = i.reads;
      writes = h;
      order = i.order;
    }

    -- The slot that is written holds none of the elements.
    pub store-Inv :
        (v : A) → Inv q (has_room v) c sent got → Inv (with_stored q v) (stored v) c sent got
    store-Inv v i =
        let place : q.next_to_write ≡ (q.next_to_read + held q c) % q.capacity =
          i.write_at (omega arith) ∙ ap (λ k. (q.next_to_read + k) % q.capacity) (omega arith) in
        record {
          small = i.small;
          fits = i.fits;
          read_in = i.read_in;
          write_at = i.write_at;
          reads = Reads-store q c v place i.writes (i.read_in (omega arith)) i.reads;
          writes = (i.writes, update_self q.slots q.next_to_write v);
          order =
              i.order
              ∙ ap (λ xs. got ++ (taken c ++ xs))
                  (sym (
                    window-update q.capacity q.slots v q.next_to_write (held q c) q.next_to_read
                      (held q c) place (omega arith) (omega (arith, held-le q c))));
        }

    pub advance-Inv :
        (v : A) → Inv q (stored v) c sent got → Inv (with_advanced q) (advanced v) c sent got
    advance-Inv v i =
        let place : q.next_to_write ≡ (q.next_to_read + held q c) % q.capacity =
          i.write_at (omega arith) ∙ ap (λ k. (q.next_to_read + k) % q.capacity) (omega arith) in
        record {
          small = i.small;
          fits = i.fits;
          read_in = i.read_in;
          write_at = λ h.
              next-round q.capacity q.next_to_read (held q c) q.next_to_write i.small (omega arith)
                place
              ∙ ap (λ k. (q.next_to_read + k) % q.capacity) (omega arith);
          reads = Reads-mono q (with_advanced q) c (omega arith) (λ _. refl) i.reads;
          writes = (i.writes.0, ap q.slots (sym place) ∙ i.writes.1);
          order = i.order;
        }

    pub announce-Inv :
        (v : A) → Inv q (advanced v) c sent got → Inv (with_announced q) idle c (sent ++ v ∷ []) got
    announce-Inv v i =
        let more = held-announced q c (omega arith) i.reads in
        record {
          small = i.small;
          fits = omega arith;
          read_in = i.read_in;
          write_at =
              λ h. i.write_at h ∙ ap (λ k. (q.next_to_read + k) % q.capacity) (omega (arith, more));
          reads = Reads-mono q (with_announced q) c (omega arith) (λ _. refl) i.reads;
          writes = tt;
          order =
              ap (λ xs. xs ++ v ∷ []) i.order
              ∙ (regroup got (taken c) (window q.capacity q.slots q.next_to_read (held q c))
                    (v ∷ [])
                  ∙ ap (λ xs. got ++ (taken c ++ xs))
                      (ap (λ x. window q.capacity q.slots q.next_to_read (held q c) ++ x ∷ [])
                          (sym i.writes.1)
                        ∙ (sym (window-suc q.capacity q.slots (held q c) q.next_to_read)
                            ∙ ap (window q.capacity q.slots q.next_to_read) (sym more))));
        }
