-- ===== src/Sequencer/Publish.antt =====
-- What one round of the sequencer adds to the engine's queue.
use mathlib.Core.List.{Perm, map}
use mathlib.Core.List.Perm
use hft_sys.Common.{
  ℕ, zero, suc, ◌-◌, ◌+◌, ◌<◌, ◌≤◌, ◌≡◌, refl, sym, ap, ◌∙◌, List, [], ◌∷◌, ◌++◌, append_assoc,
  append-nil, arith, dec_lt, ℕ_discrete, ◌≢◌, take, length,
}
use hft_sys.Exchange.Messages.{ClientRequest}
use hft_sys.LfQueue.{Queue}
use hft_sys.LfQueue.Refine.{IsValid, contents, push-full, push-room}
use hft_sys.Sequencer.{Pending, Sequencer, publish_all, sequence_and_publish}
use hft_sys.Sequencer.Sorting.{StdSort, InTimeOrder}

abbrev pub requests : List Pending → List ClientRequest
requests = map λ p. p.request

-- How many more elements a queue takes.
abbrev pub free_slots : {A : Type 0} → Queue A → ℕ
free_slots q = q.capacity - q.num_elements

record Published (ps : List Pending) (q q' : Queue ClientRequest) : Type 0 where
  valid : IsValid q'
  contents_lem : contents q' ≡ contents q ++ take (free_slots q) (requests ps)
  same_capacity : q'.capacity ≡ q.capacity

take-nil : (n : ℕ) → take {A = ClientRequest} n [] ≡ []
take-nil zero = refl
take-nil (suc n) = refl

Published-full :
    (ps : List Pending) (q : Queue ClientRequest)
    → IsValid q
    → q.capacity ≤ q.num_elements
    → Published ps q (publish_all ps q)
unfolding publish_all
Published-full [] q val full = record {
  valid = val;
  contents_lem =
      sym (ap (λ xs. contents q ++ xs) (take-nil (free_slots q)) ∙ append-nil (contents q));
  same_capacity = refl;
}
Published-full (p ∷ ps) q val full =
    let rest = Published-full ps q val full in
    rw (push-full p.request q full) (record {
      valid = rest.valid;
      contents_lem = rest.contents_lem ∙ ap (λ xs. contents q ++ xs) (none_fit ∙ sym none_fit_cons);
      same_capacity = rest.same_capacity;
    })
  where
    no_room : free_slots q ≡ 0
    no_room = omega arith

    none_fit : take (free_slots q) (requests ps) ≡ []
    none_fit = ap (λ k. take k (requests ps)) no_room

    none_fit_cons : take (free_slots q) (requests (p ∷ ps)) ≡ []
    none_fit_cons = ap (λ k. take k (requests (p ∷ ps))) no_room

publish_all-Published :
    (ps : List Pending) (q : Queue ClientRequest) → IsValid q → Published ps q (publish_all ps q)
unfolding publish_all
publish_all-Published [] q val = record {
  valid = val;
  contents_lem =
      sym (ap (λ xs. contents q ++ xs) (take-nil (free_slots q)) ∙ append-nil (contents q));
  same_capacity = refl;
}
publish_all-Published (p ∷ ps) q val = elim (dec_lt q.num_elements q.capacity) [
  | no full ↦ Published-full (p ∷ ps) q val (omega arith)
  | yes room ↦
      let (q', pushed) = push-room p.request q val room in
      let rest = publish_all-Published ps q' pushed.valid in
      rw pushed.run (record {
        valid = rest.valid;
        contents_lem =
            rest.contents_lem
            ∙ (ap (λ xs. xs ++ take (free_slots q') (requests ps)) pushed.contents_lem
                ∙ (append_assoc (contents q) (p.request ∷ []) (take (free_slots q') (requests ps))
                    ∙ ap (λ k. contents q ++ take k (requests (p ∷ ps)))
                        (room_left q' pushed.one_more pushed.same_capacity room)));
        same_capacity = rest.same_capacity ∙ pushed.same_capacity;
      })
]
  where
    room_left :
        (q' : Queue ClientRequest)
        → q'.num_elements ≡ q.num_elements + 1
        → q'.capacity ≡ q.capacity
        → q.num_elements < q.capacity
        → suc (free_slots q') ≡ free_slots q
    room_left q' one_more same room = omega arith

nothing_pending : (std : StdSort) (ps : List Pending) → length ps ≡ 0 → requests (std.sort ps) ≡ []
nothing_pending std [] e = ap requests (Perm.eq-nil (std.same_entries []))
nothing_pending std (p ∷ ps) e = absurd (omega arith)

idle :
    (std : StdSort) (s : Sequencer) (q : Queue ClientRequest)
    → length s.pending ≡ 0
    → sequence_and_publish std.sort s q ≡ (s, q)
unfolding sequence_and_publish
idle std s q e = ground arith

busy :
    (std : StdSort) (s : Sequencer) (q : Queue ClientRequest)
    → length s.pending ≢ 0
    → sequence_and_publish std.sort s q
      ≡ (record s { pending = [] }, publish_all (std.sort s.pending) q)
unfolding sequence_and_publish
busy std s q e = ground arith

-- One round of the sequencer on a valid queue leaves nothing pending and the queue valid, and puts
-- behind what the queue held the requests in the order of the sort, as far as the queue has room: a
-- request that does not fit is dropped.
pub sequence_and_publish_lem :
    (std : StdSort) (s : Sequencer) (q : Queue ClientRequest)
    → IsValid q
    → let (s', q') = sequence_and_publish std.sort s q in
      (s'.pending ≡ [])
      × IsValid q'
      × (contents q' ≡ contents q ++ take (free_slots q) (requests (std.sort s.pending)))
      × Perm (std.sort s.pending) s.pending
      × InTimeOrder (std.sort s.pending)
sequence_and_publish_lem std s q val = elim (ℕ_discrete (length s.pending) 0) [
  | yes empty ↦ rw (idle std s q empty) (
    none_pending s.pending empty,
    val,
    sym (
        ap (λ xs. contents q ++ take (free_slots q) xs) (nothing_pending std s.pending empty)
        ∙ (ap (λ xs. contents q ++ xs) (take-nil (free_slots q)) ∙ append-nil (contents q))),
    std.same_entries s.pending,
    std.in_time_order s.pending,
  )
  | no waiting ↦
      let done = publish_all-Published (std.sort s.pending) q val in
      rw (busy std s q waiting) (
        refl,
        done.valid,
        done.contents_lem,
        std.same_entries s.pending,
        std.in_time_order s.pending,
      )
]
  where
    none_pending : (ps : List Pending) → length ps ≡ 0 → ps ≡ []
    none_pending [] e = refl
    none_pending (p ∷ ps) e = absurd (omega arith)
