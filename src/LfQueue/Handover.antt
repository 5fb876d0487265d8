-- ===== src/LfQueue/Handover.antt =====
-- The invariant of a producer and a consumer on one queue, and what it says of the data.
use native.Mathlib.Nat.{mod-eq_of_lt}
use hft_sys.Common.{
  ℕ, ◌+◌, ◌-◌, ◌^◌, ◌<◌, ◌≤◌, ◌≡◌, refl, subst, ◌∙◌, List, ◌∷◌, ◌++◌, arith, length,
}
use hft_sys.LfQueue.{Queue, new}
use hft_sys.LfQueue.Window.{window, length-window}
use hft_sys.LfQueue.Threads.{
  Consumer, waiting, has_element, copied, passed, System, start, Step, room, store, advance,
  announce, look, copy, pass, release, Reach, here, next,
}
use hft_sys.LfQueue.Places.{taken, Reads, held, Inv}
use hft_sys.LfQueue.Producing.{room-Inv, store-Inv, advance-Inv, announce-Inv}
use hft_sys.LfQueue.Consuming.{look-Inv, copy-Inv, pass-Inv, release-Inv}

module _ {A : Type 0} where
  abbrev InvOf : System A → Type 0
  InvOf s = Inv s.queue s.producer s.consumer s.sent s.got

  start-Inv : (default : A) (n : ℕ) → n ≤ 2 ^ 63 → InvOf (start default n)
  unfolding start new
  start-Inv default n small = record {
    small = small;
    fits = omega arith;
    read_in = λ h. h;
    write_at = λ h. omega (arith, mod-eq_of_lt {n = 0 + (0 + 0)} {m = n} (omega arith));
    reads = tt;
    writes = tt;
    order = refl;
  }

  Step-Inv : {s t : System A} → Step s t → InvOf s → InvOf t
  Step-Inv {s} (room v e h) i =
      room-Inv v (subst (λ p. Inv s.queue p s.consumer s.sent s.got) e i) h
  Step-Inv {s} (store v e) i = store-Inv v (subst (λ p. Inv s.queue p s.consumer s.sent s.got) e i)
  Step-Inv {s} (advance v e) i =
      advance-Inv v (subst (λ p. Inv s.queue p s.consumer s.sent s.got) e i)
  Step-Inv {s} (announce v e) i =
      announce-Inv v (subst (λ p. Inv s.queue p s.consumer s.sent s.got) e i)
  Step-Inv {s} (look e h) i = look-Inv (subst (λ c. Inv s.queue s.producer c s.sent s.got) e i) h
  Step-Inv {s} (copy e) i = copy-Inv (subst (λ c. Inv s.queue s.producer c s.sent s.got) e i)
  Step-Inv {s} (pass v e) i = pass-Inv v (subst (λ c. Inv s.queue s.producer c s.sent s.got) e i)
  Step-Inv {s} (release v e) i =
      release-Inv v (subst (λ c. Inv s.queue s.producer c s.sent s.got) e i)

  Step-capacity : {s t : System A} → Step s t → t.queue.capacity ≡ s.queue.capacity
  Step-capacity (room v e h) = refl
  Step-capacity (store v e) = refl
  Step-capacity (advance v e) = refl
  Step-capacity (announce v e) = refl
  Step-capacity (look e h) = refl
  Step-capacity (copy e) = refl
  Step-capacity (pass v e) = refl
  Step-capacity (release v e) = refl

  pub Reach-Inv :
      {default : A} {n : ℕ} {s : System A}
      → n ≤ 2 ^ 63
      → Reach default n s
      → InvOf s × (s.queue.capacity ≡ n)
  unfolding start new
  Reach-Inv {default} {n} small here = (start-Inv default n small, refl)
  Reach-Inv small (next r st) =
      let (i, e) = Reach-Inv small r in (Step-Inv st i, Step-capacity st ∙ e)

  length-pending :
      (q : Queue A) (c : Consumer A)
      → Reads q c
      → length (taken c ++ window q.capacity q.slots q.next_to_read (held q c)) ≡ q.num_elements
  length-pending q waiting r = length-window q.capacity q.slots q.next_to_read q.num_elements
  length-pending q has_element r = length-window q.capacity q.slots q.next_to_read q.num_elements
  length-pending q (copied v) r = length-window q.capacity q.slots q.next_to_read q.num_elements
  length-pending q (passed v) r =
      omega (arith, length-window q.capacity q.slots q.next_to_read (q.num_elements - 1))

  -- In every interleaving of one producer and one consumer on a queue of `n` slots, what the consumer
  -- has got is a prefix, in order, of what the producer has sent: nothing is lost, repeated or torn.
  -- The rest has as many elements as the counter says, and at most `n`.
  pub got-prefix_of_sent :
      {default : A} {n : ℕ} {s : System A}
      → n ≤ 2 ^ 63
      → Reach default n s
      → (rest : List A) × (s.sent ≡ s.got ++ rest)
        × (length rest ≡ s.queue.num_elements)
        × (length rest ≤ n)
  got-prefix_of_sent {s} small r =
      let (i, e) = Reach-Inv small r in
      let counts = length-pending s.queue s.consumer i.reads in
      (
        taken s.consumer
            ++ window s.queue.capacity s.queue.slots s.queue.next_to_read (held s.queue s.consumer),
        i.order,
        counts,
        omega (arith, i.fits, counts, e),
      )

  -- A consumer about to move the read index holds the oldest element that it has not got yet, and the
  -- assertion of `updateReadIndex`, that the counter is not 0, holds.
  pub copied-next :
      {default : A} {n : ℕ} {s : System A}
      → n ≤ 2 ^ 63
      → Reach default n s
      → (v : A) → s.consumer ≡ copied v
      → (0 < s.queue.num_elements) × ((rest : List A) × (s.sent ≡ s.got ++ v ∷ rest))
  copied-next {s} small r v e =
      let (i, cap) = Reach-Inv small r in
      let i' = subst (λ c. Inv s.queue s.producer c s.sent s.got) e i in
      let after = (pass-Inv v i').order in (i'.reads.0, (_, after))
