-- ===== src/Sequencer.antt =====
-- core/gateway/fifo_Sequencer.h: `FIFOSequencer`, with std::sort as a parameter.
pub mod Sorting
pub mod Publish
use hft_sys.Common.{
  ℕ, ◌≡◌, ◌+◌, List, [], ◌∷◌, ◌++◌, ltb, leb, if◌then◌else◌, ◌==◌, length, Result, ok, fail,
  terminated,
}
use hft_sys.Common.Int.{ℤ}
use hft_sys.Exchange.{max_pending_order_requests}
use hft_sys.Exchange.Messages.{ClientRequest}
use hft_sys.LfQueue
use hft_sys.LfQueue.{Queue}

-- `PendingClientRequest`
pub record Pending : Type 0 where
  pub t_rx : ℤ
  pub request : ClientRequest

-- The list is `pendingRequests_[0 .. nPendingRequests_)`. What the array holds behind it is never read.
pub record Sequencer : Type 0 where
  pub pending : List Pending

unfoldable pub new_sequencer : Sequencer
new_sequencer = record { pending = [] }

-- `pushClientRequest`; FATAL ends the program.
unfoldable pub push_client_request : ClientRequest → ℤ → Sequencer → Result Sequencer
push_client_request request t_rx s =
    if leb max_pending_order_requests (length s.pending)
    then fail terminated
    else ok (record s { pending = s.pending ++ (record { t_rx = t_rx; request = request }) ∷ [] })

-- The loop of `sequenceAndPublish`. What `push` returns is not looked at.
unfoldable pub publish_all : List Pending → Queue ClientRequest → Queue ClientRequest
publish_all [] q = q
publish_all (p ∷ ps) q = publish_all ps (LfQueue.push p.request q).1

-- `sequenceAndPublish`, on the sequencer and the engine's queue `rxRequests_`.
unfoldable pub sequence_and_publish :
    (List Pending → List Pending)
    → Sequencer
    → Queue ClientRequest
    → Sequencer × Queue ClientRequest
unfolding publish_all
sequence_and_publish sort s q =
    if length s.pending == 0
    then (s, q)
    else (record s { pending = [] }, publish_all (sort s.pending) q)
