-- ===== src/LfQueue/Places.antt =====
-- What the places of a producer and a consumer say of their queue.
use hft_sys.Common.{
  ℕ, suc, ◌+◌, ◌-◌, ◌%◌, ◌^◌, ◌<◌, ◌≤◌, ◌≡◌, sym, ap, ◌∙◌, List, [], ◌∷◌, ◌++◌, append_assoc, arith,
  update_ne,
}
use hft_sys.Common.Rounds.{round-ne}
use hft_sys.LfQueue.{Queue}
use hft_sys.LfQueue.Window.{window}
use hft_sys.LfQueue.Threads.{
  Producer, idle, has_room, stored, advanced, Consumer, waiting, has_element, copied, passed,
  with_stored, with_announced,
}

module _ {A : Type 0} where
  -- The element that the consumer has taken off but not yet counted off.
  abbrev pub taken : Consumer A → List A
  taken (passed v) = v ∷ []
  taken _ = []

  abbrev pub ahead : Producer A → ℕ
  ahead (advanced _) = 1
  ahead _ = 0

  pub regroup : (as' bs cs ds : List A) → (as' ++ (bs ++ cs)) ++ ds ≡ as' ++ (bs ++ (cs ++ ds))
  regroup as' bs cs ds = simp append_assoc

  -- What the consumer's place says of the queue.
  abbrev pub Reads : Queue A → Consumer A → Type 0
  Reads q waiting = Unit
  Reads q has_element = 0 < q.num_elements
  Reads q (copied v) = (0 < q.num_elements) × (q.slots q.next_to_read ≡ v)
  Reads q (passed v) = 0 < q.num_elements

  -- What the producer's place says of the queue; `held` elements stand from `next_to_read` on.
  abbrev pub Writes : Queue A → ℕ → Producer A → Type 0
  Writes q held idle = Unit
  Writes q held (has_room v) = q.num_elements < q.capacity
  Writes q held (stored v) = (q.num_elements < q.capacity) × (q.slots q.next_to_write ≡ v)
  Writes q held (advanced v) =
      (q.num_elements < q.capacity) × (q.slots ((q.next_to_read + held) % q.capacity) ≡ v)

  abbrev pub held : Queue A → Consumer A → ℕ
  held q (passed _) = q.num_elements - 1
  held q _ = q.num_elements

  pub record Inv (q : Queue A) (p : Producer A) (c : Consumer A) (sent got : List A) : Type 0 where
    pub small : q.capacity ≤ 2 ^ 63
    pub fits : q.num_elements ≤ q.capacity
    pub read_in : 0 < q.capacity → q.next_to_read < q.capacity
    pub write_at :
        0 < q.capacity → q.next_to_write ≡ (q.next_to_read + (held q c + ahead p)) % q.capacity
    pub reads : Reads q c
    pub writes : Writes q (held q c) p
    pub order : sent ≡ got ++ (taken c ++ window q.capacity q.slots q.next_to_read (held q c))

  pub Reads-mono :
      (q q' : Queue A) (c : Consumer A)
      → q.num_elements ≤ q'.num_elements
      → (0 < q.num_elements → q'.slots q'.next_to_read ≡ q.slots q.next_to_read)
      → Reads q c
      → Reads q' c
  Reads-mono q q' waiting more same r = tt
  Reads-mono q q' has_element more same r = omega arith
  Reads-mono q q' (copied v) more same r = (omega arith, same r.0 ∙ r.1)
  Reads-mono q q' (passed v) more same r = omega arith

  pub Reads-store :
      (q : Queue A) (c : Consumer A) (v : A)
      → q.next_to_write ≡ (q.next_to_read + held q c) % q.capacity
      → q.num_elements < q.capacity
      → q.next_to_read < q.capacity
      → Reads q c
      → Reads (with_stored q v) c
  Reads-store q waiting v place some_room read_in r = tt
  Reads-store q has_element v place some_room read_in r = r
  Reads-store q (copied w) v place some_room read_in r = (
    r.0,
    update_ne q.slots q.next_to_write v q.next_to_read (λ e.
          round-ne q.capacity q.next_to_read (q.num_elements - 1) read_in (omega arith)
            (ap (λ k. (q.next_to_read + k) % q.capacity) (omega arith) ∙ (sym place ∙ sym e)))
        ∙ r.1,
  )
  Reads-store q (passed w) v place some_room read_in r = r

  pub held-le : (q : Queue A) (c : Consumer A) → held q c ≤ q.num_elements
  held-le q waiting = omega arith
  held-le q has_element = omega arith
  held-le q (copied v) = omega arith
  held-le q (passed v) = omega arith

  pub held-announced :
      (q : Queue A) (c : Consumer A)
      → q.num_elements < 2 ^ 63
      → Reads q c
      → held (with_announced q) c ≡ suc (held q c)
  held-announced q waiting small r = omega arith
  held-announced q has_element small r = omega arith
  held-announced q (copied v) small r = omega arith
  held-announced q (passed v) small r = omega arith
