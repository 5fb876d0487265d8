-- ===== src/Tests/Sequencers.antt =====
-- A sequencer with an insertion sort in the place of std::sort.
use mathlib.Core.List.Perm
use mathlib.Core.List.{Perm}
use hft_sys.Common.{
  some, ℕ, length, refl, ◌≡◌, List, [], ◌∷◌, ◌++◌, All, arith, take, if◌then◌else◌, Bool-cases, inl,
  inr,
}
use hft_sys.Common.Int.{ℤ, pos, ltb_ℤ, ◌<ℤ◌}
use hft_sys.Exchange.{Side, buy}
use hft_sys.Exchange.Messages.{
  RequestType, ClientRequest, ResponseType, ClientResponse, UpdateType, MarketUpdate,
}
use hft_sys.LfQueue
use hft_sys.LfQueue.{Queue}
use hft_sys.LfQueue.Refine.{IsValid, contents, new-IsValid}
use hft_sys.Sequencer.{Pending, Sequencer, sequence_and_publish}
use hft_sys.Sequencer.Sorting.{InTimeOrder, StdSort}
use hft_sys.Sequencer.Publish.{requests, free_slots, sequence_and_publish_lem}
use hft_sys.Engine.{Engine, new_engine}
use hft_sys.Engine.Pipeline.{with_requests, engine_rounds, handle_all, Follows, sequenced-Follows}

insert : Pending → List Pending → List Pending
insert p [] = p ∷ []
insert p (q ∷ qs) = let rest = insert p qs in if ltb_ℤ q.t_rx p.t_rx then q ∷ rest else p ∷ q ∷ qs

insertion_sort : List Pending → List Pending
unfolding insert
insertion_sort [] = []
insertion_sort (p ∷ ps) = insert p (insertion_sort ps)

insert-Perm : (p : Pending) (ps : List Pending) → Perm (insert p ps) (p ∷ ps)
unfolding insert
insert-Perm p [] = Perm.refl (p ∷ [])
insert-Perm p (q ∷ qs) = elim (Bool-cases (ltb_ℤ q.t_rx p.t_rx)) [
  | inl e ↦ rw (e) (Perm.trans (Perm.cons q (insert-Perm p qs)) (Perm.swap p q qs))
  | inr e ↦ rw (e) (Perm.refl (p ∷ q ∷ qs))
]

insertion_sort-Perm : (ps : List Pending) → Perm (insertion_sort ps) ps
unfolding insertion_sort
insertion_sort-Perm [] = Perm.refl []
insertion_sort-Perm (p ∷ ps) =
    Perm.trans (insert-Perm p (insertion_sort ps)) (Perm.cons p (insertion_sort-Perm ps))

-- Nothing in the list is earlier than `t`.
abbrev From : ℤ → List Pending → Type 0
From t ps = All (λ q. ¬ (q.t_rx <ℤ t)) ps

insert-From :
    (t : ℤ) (p : Pending) (ps : List Pending) → ¬ (p.t_rx <ℤ t) → From t ps → From t (insert p ps)
unfolding insert
insert-From t p [] h hs = (h, tt)
insert-From t p (q ∷ qs) h (k, ks) = elim (Bool-cases (ltb_ℤ q.t_rx p.t_rx)) [
  | inl e ↦ rw (e) (k, insert-From t p qs h ks)
  | inr e ↦ rw (e) (h, (k, ks))
]

From-earlier : (t u : ℤ) (ps : List Pending) → ¬ (u <ℤ t) → From u ps → From t ps
From-earlier t u [] h hs = tt
From-earlier t u (q ∷ qs) h (k, ks) = (λ l. absurd (omega arith), From-earlier t u qs h ks)

insert-InTimeOrder : (p : Pending) (ps : List Pending) → InTimeOrder ps → InTimeOrder (insert p ps)
unfolding insert
insert-InTimeOrder p [] h = (tt, tt)
insert-InTimeOrder p (q ∷ qs) (h, hs) = elim (Bool-cases (ltb_ℤ q.t_rx p.t_rx)) [
  | inl e ↦ rw (e) (insert-From q.t_rx p qs (λ l. ground arith) h, insert-InTimeOrder p qs hs)
  | inr e ↦
      rw (e) ((λ l. ground arith, From-earlier p.t_rx q.t_rx qs (λ l. ground arith) h), (h, hs))
]

insertion_sort-InTimeOrder : (ps : List Pending) → InTimeOrder (insertion_sort ps)
unfolding insertion_sort
insertion_sort-InTimeOrder [] = tt
insertion_sort-InTimeOrder (p ∷ ps) =
    insert-InTimeOrder p (insertion_sort ps) (insertion_sort-InTimeOrder ps)

abbrev by_insertion : StdSort
by_insertion = record {
  sort = insertion_sort;
  same_entries = insertion_sort-Perm;
  in_time_order = insertion_sort-InTimeOrder;
}

abbrev request : ℕ → ClientRequest
request oid = record {
  type = RequestType.new;
  client_id = 1;
  ticker_id = 2;
  order_id = oid;
  side = buy;
  price = pos 10;
  qty = 5;
}

abbrev three_pending : Sequencer
three_pending = record {
  pending =
      record { t_rx = pos 30; request = request 0 }
      ∷ record { t_rx = pos 10; request = request 1 }
      ∷ record { t_rx = pos 20; request = request 2 }
      ∷ [];
}

abbrev two_slots : Queue ClientRequest
two_slots = LfQueue.new (request 9) 2

sequence_and_publish_lem_example :
    let (s', q') = sequence_and_publish insertion_sort three_pending two_slots in
    (s'.pending ≡ [])
    × IsValid q'
    × (contents q'
        ≡ contents two_slots
          ++ take (free_slots two_slots) (requests (insertion_sort three_pending.pending)))
    × Perm (insertion_sort three_pending.pending) three_pending.pending
    × InTimeOrder (insertion_sort three_pending.pending)
sequence_and_publish_lem_example =
    sequence_and_publish_lem by_insertion three_pending two_slots
      (new-IsValid (request 9) 2 (omega arith))

-- An engine with queues of four slots.
abbrev four_slots : Queue ClientRequest
four_slots = LfQueue.new (request 9) 4

abbrev spare_response : ClientResponse
spare_response = record {
  type = ResponseType.invalid;
  client_id = 0;
  ticker_id = 0;
  client_order_id = 0;
  market_order_id = 0;
  side = Side.invalid;
  price = pos 0;
  qty_exec = 0;
  qty_remain = 0;
}

abbrev spare_update : MarketUpdate
spare_update = record {
  type = UpdateType.invalid;
  order_id = 0;
  ticker_id = 0;
  side = Side.invalid;
  price = pos 0;
  qty = 0;
  priority = 0;
}

abbrev small_engine : Engine
small_engine = new_engine four_slots (LfQueue.new spare_response 4) (LfQueue.new spare_update 4)

sequenced-Follows_example :
    Follows
      (engine_rounds
        (λ b n. some 0)
        99
        (length (requests (insertion_sort three_pending.pending)))
        (with_requests
          (sequence_and_publish insertion_sort three_pending four_slots).1
          small_engine))
      (handle_all (λ b n. some 0) 99 (requests (insertion_sort three_pending.pending)) small_engine)
unfolding LfQueue.new insertion_sort
sequenced-Follows_example =
    sequenced-Follows (λ b n. some 0) 99 by_insertion three_pending four_slots small_engine
      (new-IsValid (request 9) 4 (omega arith)) refl (omega arith)
