-- ===== src/Gateway/Sending.antt =====
-- The loop of `run` that sends the engine's responses.
use hft_sys.Common.{
  ℕ, zero, suc, ◌+◌, ◌≤◌, ◌<◌, ◌≡◌, refl, sym, ap, ◌∙◌, List, [], ◌∷◌, ◌++◌, append_assoc,
  append-nil, All, length, drop, ==→eq, ==_self, length-append, arith, Option, none, some, ◌==◌,
  lt→ltb, if◌then◌else◌, add_size, update, inl, inr, Bool-cases, ok,
}
use hft_sys.Exchange.{max_n_clients}
use hft_sys.Exchange.Messages.{ClientResponse}
use hft_sys.LfQueue.{Queue, get_next_to_read, update_read_index}
use hft_sys.LfQueue.Refine.{IsValid, contents}
use hft_sys.LfQueue.Fifo.{length-contents}
use hft_sys.LfQueue.Reading.{queue-Read, read-none}
use hft_sys.TcpSocket.{Socket, tcp_buffer_size, send}
use hft_sys.Gateway.{Gateway, send_response, send_responses}
use hft_sys.Gateway.Bytes.{to_bytes, encode_response}

-- A response with its sequence number, as it goes over the wire.
unfoldable pub frame : ℕ → ClientResponse → List ℕ
frame n r = to_bytes 8 n ++ encode_response r

-- The counters behind a response to the client.
abbrev pub counted : (ℕ → ℕ) → ℕ → ℕ → ℕ
counted seq client = update seq client (add_size (seq client) 1)

-- What the responses put into the buffer of the socket `p`: those whose clients are bound to it, each with the
-- next number of its client.
abbrev pub outgoing : (ℕ → Option ℕ) → (ℕ → ℕ) → ℕ → List ClientResponse → List ℕ
outgoing sockets seq p [] = []
outgoing sockets seq p (r ∷ rs) =
    let rest = outgoing sockets (counted seq r.client_id) p rs in
    elim (sockets r.client_id) [
      | none ↦ rest
      | some s ↦ if p == s then frame (seq r.client_id) r ++ rest else rest
    ]

abbrev pub all_counted : (ℕ → ℕ) → List ClientResponse → ℕ → ℕ
all_counted seq [] = seq
all_counted seq (r ∷ rs) = all_counted (counted seq r.client_id) rs

-- The client of the response is in range, and bound to a socket.
abbrev pub IsBound : (ℕ → Option ℕ) → ClientResponse → Type 0
IsBound sockets r = (r.client_id < max_n_clients) × ((p : ℕ) × (sockets r.client_id ≡ some p))

send-fits :
    (bytes : List ℕ) (s : Socket)
    → length s.outbound + length bytes ≤ tcp_buffer_size
    → send bytes s ≡ ok (record s { outbound = s.outbound ++ bytes })
unfolding send
send-fits bytes s h = ground arith

-- The sockets behind a response to a client that is bound to the socket `p`.
abbrev appended : List ℕ → ℕ → (ℕ → Socket) → ℕ → Socket
appended bytes p sockets =
    update sockets p (record (sockets p) { outbound = (sockets p).outbound ++ bytes })

send_response-bound :
    (r : ClientResponse) (g : Gateway) (sockets : ℕ → Socket) (p : ℕ)
    → r.client_id < max_n_clients
    → g.sockets r.client_id ≡ some p
    → length (sockets p).outbound + length (frame (g.tx_seq r.client_id) r) ≤ tcp_buffer_size
    → send_response r g sockets
      ≡ ok (
        record g { tx_seq = counted g.tx_seq r.client_id },
        appended (frame (g.tx_seq r.client_id) r) p sockets,
      )
unfolding send_response frame
send_response-bound r g sockets p in_range bound room =
    let number = to_bytes 8 (g.tx_seq r.client_id) in
    let bytes = encode_response r in
    let first = send-fits number (sockets p) (omega (arith, room, length-append number bytes)) in
    let second =
      send-fits bytes (record (sockets p) { outbound = (sockets p).outbound ++ number })
        (omega
          (arith, room, length-append number bytes, length-append (sockets p).outbound number)) in
    rw (lt→ltb r.client_id max_n_clients in_range, bound, first, second)
      (ap
        (λ o. ok (
          record g { tx_seq = counted g.tx_seq r.client_id },
          update sockets p (record (sockets p) { outbound = o }),
        ))
        (append_assoc (sockets p).outbound number bytes))

-- What the socket `p` gets from one response.
abbrev pub share : Option ℕ → ℕ → List ℕ → List ℕ
share none p bytes = []
share (some s) p bytes = if p == s then bytes else []

pub outgoing-share :
    (sockets : ℕ → Option ℕ) (seq : ℕ → ℕ) (p : ℕ) (r : ClientResponse) (rs : List ClientResponse)
    → outgoing sockets seq p (r ∷ rs)
      ≡ share (sockets r.client_id) p (frame (seq r.client_id) r)
        ++ outgoing sockets (counted seq r.client_id) p rs
outgoing-share sockets seq p r rs = shared (sockets r.client_id)
  where
    shared :
        (o : Option ℕ)
        → elim o [
          | none ↦ outgoing sockets (counted seq r.client_id) p rs
          | some s ↦
              if p == s
              then frame (seq r.client_id) r ++ outgoing sockets (counted seq r.client_id) p rs
              else outgoing sockets (counted seq r.client_id) p rs
        ]
          ≡ share o p (frame (seq r.client_id) r) ++ outgoing sockets (counted seq r.client_id) p rs
    shared none = refl
    shared (some s) = elim (Bool-cases (p == s)) [ inl e ↦ rw (e) refl | inr e ↦ rw (e) refl ]

appended-share :
    (bytes : List ℕ) (s p : ℕ) (sockets : ℕ → Socket)
    → appended bytes s sockets p
      ≡ record (sockets p) { outbound = (sockets p).outbound ++ share (some s) p bytes }
appended-share bytes s p sockets = elim (Bool-cases (p == s)) [
  | inl e ↦ rw (e) (
      ap (λ x. record (sockets x) { outbound = (sockets x).outbound ++ bytes }) (sym (==→eq p s e)))
  | inr e ↦
      rw (e) (ap (λ o. record (sockets p) { outbound = o }) (sym (append-nil (sockets p).outbound)))
]

record Sends (fuel : ℕ) (q : Queue ClientResponse) (g : Gateway) (sockets : ℕ → Socket)
    (rs : List ClientResponse) : Type 0 where
  queue : Queue ClientResponse
  after : ℕ → Socket
  runs :
      send_responses fuel q g sockets
      ≡ ok (queue, record g { tx_seq = all_counted g.tx_seq rs }, after)
  emptied : contents queue ≡ []
  sent :
      (p : ℕ)
      → after p
        ≡ record (sockets p) { outbound = (sockets p).outbound ++ outgoing g.sockets g.tx_seq p rs }

own-share : (p : ℕ) (bytes : List ℕ) → share (some p) p bytes ≡ bytes
own-share p bytes = rw (==_self p) refl

no_round :
    (fuel : ℕ) (q : Queue ClientResponse) (g : Gateway) (sockets : ℕ → Socket)
    → get_next_to_read q ≡ none
    → send_responses (suc fuel) q g sockets ≡ ok (q, g, sockets)
unfolding send_responses
no_round fuel q g sockets e = rw (e, send_responses) refl

one_round :
    (fuel : ℕ) (q : Queue ClientResponse) (g : Gateway) (sockets : ℕ → Socket) {slot : ℕ}
    {q' : Queue ClientResponse} {g' : Gateway} {sockets' : ℕ → Socket}
    → get_next_to_read q ≡ some slot
    → send_response (q.slots slot) g sockets ≡ ok (g', sockets')
    → update_read_index q ≡ ok q'
    → send_responses (suc fuel) q g sockets ≡ send_responses fuel q' g' sockets'
unfolding send_responses
one_round fuel q g sockets e1 e2 e3 = rw (e1, e2, e3, send_responses) refl

abbrev first_of : ClientResponse → List ClientResponse → ClientResponse
first_of x [] = x
first_of x (r ∷ rs) = r

send_responses-Sends :
    (rs : List ClientResponse) (fuel : ℕ) (q : Queue ClientResponse) (g : Gateway)
    (sockets : ℕ → Socket)
    → IsValid q
    → contents q ≡ rs
    → length rs < fuel
    → All (IsBound g.sockets) rs
    → ((p : ℕ)
        → length (sockets p).outbound + length (outgoing g.sockets g.tx_seq p rs) ≤ tcp_buffer_size)
    → Sends fuel q g sockets rs
unfolding send_responses
send_responses-Sends rs zero q g sockets val same enough bound room = absurd (omega arith)
send_responses-Sends [] (suc fuel) q g sockets val same enough bound room = record {
  queue = q;
  after = sockets;
  runs = no_round fuel q g sockets (read-none q (omega (arith, length-contents q, ap length same)));
  emptied = same;
  sent = λ p. ap (λ o. record (sockets p) { outbound = o }) (sym (append-nil (sockets p).outbound));
}
send_responses-Sends (r ∷ rs) (suc fuel) q g sockets val same enough ((in_range, (p, at)), bound)
      room =
    let read = queue-Read q val (omega (arith, length-contents q, ap length same)) in
    let cut = sym read.contents_lem ∙ same in
    let first : q.slots q.next_to_read ≡ r = ap (λ xs. first_of r xs) cut in
    let bytes = frame (g.tx_seq r.client_id) r in
    let later = outgoing g.sockets (counted g.tx_seq r.client_id) in
    let parts : (k : ℕ)
        → outgoing g.sockets g.tx_seq k (r ∷ rs) ≡ share (some p) k bytes ++ later k rs =
      λ k. outgoing-share g.sockets g.tx_seq k r rs ∙ ap (λ o. share o k bytes ++ later k rs) at in
    let sizes =
      λ (k : ℕ). ap length (parts k) ∙ length-append (share (some p) k bytes) (later k rs) in
    let grown = λ (k : ℕ).
      ap (λ x. length x.outbound) (appended-share bytes p k sockets)
      ∙ length-append (sockets k).outbound (share (some p) k bytes) in
    let sent_first =
      ap (λ x. send_response x g sockets) first
      ∙ send_response-bound r g sockets p in_range at
          (omega (arith, room p, sizes p, ap length (own-share p bytes))) in
    let rest =
      send_responses-Sends rs fuel read.after (record g { tx_seq = counted g.tx_seq r.client_id })
        (appended bytes p sockets) read.valid (ap (λ xs. drop 1 xs) cut) (omega arith) bound
        (λ k. omega (arith, room k, sizes k, grown k)) in
    record {
      queue = rest.queue;
      after = rest.after;
      runs = one_round fuel q g sockets read.slot sent_first read.step ∙ rest.runs;
      emptied = rest.emptied;
      sent = λ k.
          rest.sent k
          ∙ ap {A = Socket} (λ x. record x { outbound = x.outbound ++ later k rs })
              (appended-share bytes p k sockets)
          ∙ ap (λ o. record (sockets k) { outbound = o })
              (append_assoc (sockets k).outbound (share (some p) k bytes) (later k rs)
                ∙ ap (λ o. (sockets k).outbound ++ o) (sym (parts k)));
    }

-- The loop of `run` empties the queue of responses, where each client is in range and bound to a socket, and
-- the buffers have room: into the buffer of each socket go, in the order of the queue, the
-- responses to the clients that are bound to it, each behind the next sequence number of its client; the
-- counters of the clients go up, and nothing else changes.
pub send_responses-contents :
    (fuel : ℕ) (q : Queue ClientResponse) (g : Gateway) (sockets : ℕ → Socket)
    → IsValid q
    → length (contents q) < fuel
    → All (IsBound g.sockets) (contents q)
    → ((p : ℕ)
        → length (sockets p).outbound + length (outgoing g.sockets g.tx_seq p (contents q))
          ≤ tcp_buffer_size)
    → (q' : Queue ClientResponse) × (after : ℕ → Socket) × (send_responses fuel q g sockets
        ≡ ok (q', record g { tx_seq = all_counted g.tx_seq (contents q) }, after))
      × (contents q' ≡ [])
      × ((p : ℕ)
          → after p ≡ record (sockets p) {
            outbound = (sockets p).outbound ++ outgoing g.sockets g.tx_seq p (contents q);
          })
send_responses-contents fuel q g sockets val enough bound room =
    let sends = send_responses-Sends (contents q) fuel q g sockets val refl enough bound room in
    (sends.queue, sends.after, sends.runs, sends.emptied, sends.sent)
