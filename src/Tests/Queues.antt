-- ===== src/Tests/Queues.antt =====
-- A lock-free queue of two slots, by calls and between two threads.
use hft_sys.Common.{ℕ, ◌≤◌, ◌<◌, ◌≡◌, refl, List, [], ◌∷◌, ◌++◌, arith, ok, length}
use hft_sys.LfQueue
use hft_sys.LfQueue.{Queue}
use hft_sys.LfQueue.Refine.{IsValid, contents, new-IsValid}
use hft_sys.LfQueue.Fifo.{send, receive, Answer, run, fifo, run-refines}
use hft_sys.LfQueue.Threads.{
  System, Reach, start, here, next, room, store, advance, announce, look, copy, with_stored,
  with_advanced, with_announced, idle, copied,
}
use hft_sys.LfQueue.Handover.{got-prefix_of_sent, copied-next}

abbrev two_slots : Queue ℕ
two_slots = LfQueue.new 0 2

run-refines_example :
    (q : Queue ℕ) × (answers : List (Answer ℕ)) × (run
        (send 5 ∷ send 6 ∷ send 7 ∷ receive ∷ [])
        two_slots
      ≡ ok (answers, q))
    × IsValid q
    × (fifo two_slots.capacity (send 5 ∷ send 6 ∷ send 7 ∷ receive ∷ []) (contents two_slots)
        ≡ (answers, contents q))
run-refines_example =
    run-refines (send 5 ∷ send 6 ∷ send 7 ∷ receive ∷ []) two_slots (new-IsValid 0 2 (omega arith))

-- The producer has pushed 5, and the consumer has copied it.
abbrev pushed : Queue ℕ
pushed = with_announced (with_advanced (with_stored two_slots 5))

abbrev handing_over : System ℕ
handing_over = record {
  queue = pushed;
  producer = idle;
  consumer = copied 5;
  sent = 5 ∷ [];
  got = [];
}

handing_over-Reach : Reach 0 2 handing_over
unfolding start LfQueue.new
handing_over-Reach =
    next
      (next
        (next (next (next (next here (room 5 refl (omega arith))) (store 5 refl)) (advance 5 refl))
          (announce 5 refl))
        (look refl (omega arith)))
      (copy refl)

got-prefix_of_sent_example :
    (rest : List ℕ) × (handing_over.sent ≡ handing_over.got ++ rest)
    × (length rest ≡ handing_over.queue.num_elements)
    × (length rest ≤ 2)
got-prefix_of_sent_example = got-prefix_of_sent (omega arith) handing_over-Reach

copied-next_example :
    (0 < handing_over.queue.num_elements)
    × ((rest : List ℕ) × (handing_over.sent ≡ handing_over.got ++ 5 ∷ rest))
copied-next_example = copied-next (omega arith) handing_over-Reach 5 refl
