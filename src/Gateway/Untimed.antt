-- ===== src/Gateway/Untimed.antt =====
-- The gateway and the byte stream that it reads: how the stream is cut into pieces does not matter, but for the
-- times at which the requests are said to come.
use hft_sys.Common.{
  ℕ, zero, suc, ◌≡◌, refl, sym, ap, ◌∙◌, Option, none, some, Bool, true, false, List, [], ◌∷◌, ◌++◌,
  length, leb, ltb, ◌==◌, if◌then◌else◌, Result, ok, fail, undefined, ◌>>=◌, drop, update, add_size,
  Bool-cases, inl, inr,
}
use hft_sys.Common.Int.{ℤ, pos}
use hft_sys.Exchange.{max_n_clients, max_pending_order_requests}
use hft_sys.Exchange.Messages.{GatewayRequest}
use hft_sys.Sequencer.{Pending, push_client_request}
use hft_sys.TcpSocket.{Socket}
use hft_sys.Gateway.{Gateway, bind_client, handle_request, handle_bytes, rx_callback}
use hft_sys.Gateway.Stream.{rx_callback-append, rx_callback-loop}
use hft_sys.Gateway.Bytes.{request_size, decode_request}

-- The pending requests without their times.
unfoldable pub untimed_pending : List Pending → List Pending
untimed_pending [] = []
untimed_pending (p ∷ ps) = record p { t_rx = pos 0 } ∷ untimed_pending ps

abbrev pub untimed : Gateway → Gateway
untimed g = record g { fifo = record (g.fifo) { pending = untimed_pending g.fifo.pending } }

-- What a run leaves, without the times.
abbrev pub forget : {A : Type 0} → Result (A × Gateway) → Result (A × Gateway)
forget m = m >>= λ (a, g). ok (a, untimed g)

length-untimed_pending : (ps : List Pending) → length (untimed_pending ps) ≡ length ps
unfolding untimed_pending
length-untimed_pending [] = refl
length-untimed_pending (p ∷ ps) = ap suc (length-untimed_pending ps)

untimed_pending-append :
    (ps qs : List Pending) → untimed_pending (ps ++ qs) ≡ untimed_pending ps ++ untimed_pending qs
unfolding untimed_pending
untimed_pending-append [] qs = refl
untimed_pending-append (p ∷ ps) qs =
    ap (λ xs. record p { t_rx = pos 0 } ∷ xs) (untimed_pending-append ps qs)

-- A chain of two steps, each of which does the same without the times.
then-forget :
    {A B C : Type 0} (m : Result A) {m' : Result A} (u : A → A) (f : A → Result B)
    (k : B → Result C) (f' : A → Result C)
    → (m >>= λ a. ok (u a)) ≡ m'
    → ((a : A) → (f a >>= k) ≡ f' (u a))
    → ((m >>= f) >>= k) ≡ (m' >>= f')
then-forget m u f k f' e h = same m h ∙ ap (λ x. x >>= f') e
  where
    same :
        (m : _)
        → ((a : _) → (f a >>= k) ≡ f' (u a))
        → ((m >>= f) >>= k) ≡ ((m >>= λ a. ok (u a)) >>= f')
    same (ok a) h = h a
    same (fail e) h = refl

bind_client-untimed :
    (socket client : ℕ) (g : Gateway)
    → bind_client socket client (untimed g)
      ≡ (untimed (bind_client socket client g).0, (bind_client socket client g).1)
unfolding bind_client
bind_client-untimed socket client g = go (g.sockets client)
  where
    go :
        (o : Option ℕ)
        → ◌≡◌ {A = Gateway × ℕ}
            (elim o as (λ _. Gateway × ℕ) [
              | none ↦
                  (record (untimed g) { sockets = update g.sockets client (some socket) }, socket)
              | some bound ↦ (untimed g, bound)
            ])
            (
              untimed
                  (elim o as (λ _. Gateway × ℕ) [
                    | none ↦ (record g { sockets = update g.sockets client (some socket) }, socket)
                    | some bound ↦ (g, bound)
                  ]).0,
              (elim o as (λ _. Gateway × ℕ) [
                | none ↦ (record g { sockets = update g.sockets client (some socket) }, socket)
                | some bound ↦ (g, bound)
              ]).1,
            )
    go none = refl
    go (some bound) = refl

-- The queueing of an admitted request.
abbrev admitted : ℤ → GatewayRequest → Gateway → Result Gateway
admitted t r g = push_client_request r.request t g.fifo >>= λ fifo. ok (record g {
  rx_seq = update g.rx_seq r.request.client_id (add_size (g.rx_seq r.request.client_id) 1);
  fifo = fifo;
})

admitted-untimed :
    (t : ℤ) (r : GatewayRequest) (g : Gateway)
    → (admitted t r g >>= λ g'. ok (untimed g')) ≡ admitted (pos 0) r (untimed g)
unfolding push_client_request untimed_pending
admitted-untimed t r g =
    elim (Bool-cases (leb max_pending_order_requests (length g.fifo.pending))) [
      | inl e ↦ rw (length-untimed_pending g.fifo.pending, e) refl
      | inr e ↦
          rw
            (
              length-untimed_pending g.fifo.pending,
              e,
              untimed_pending-append g.fifo.pending (record { t_rx = t; request = r.request } ∷ []),
            )
            refl
    ]

handle_request-untimed :
    (socket : ℕ) (t : ℤ) (r : GatewayRequest) (g : Gateway)
    → (handle_request socket t r g >>= λ g'. ok (untimed g'))
      ≡ handle_request socket (pos 0) r (untimed g)
unfolding handle_request
handle_request-untimed socket t r g = rw (bind_client-untimed socket r.request.client_id g) (
    go (ltb r.request.client_id max_n_clients) (bound.1 == socket)
      (r.n_seq == bound.0.rx_seq r.request.client_id))
  where
    bound : Gateway × ℕ
    bound = bind_client socket r.request.client_id g

    go :
        (in_range same next : Bool)
        → ((if in_range
              then (if same
                  then (if next then admitted t r bound.0 else ok bound.0)
                  else ok bound.0)
              else fail undefined)
            >>= λ g'. ok (untimed g'))
          ≡ (if in_range
              then (if same
                  then (if next then admitted (pos 0) r (untimed bound.0) else ok (untimed bound.0))
                  else ok (untimed bound.0))
              else fail undefined)
    go false same next = refl
    go true false next = refl
    go true true false = refl
    go true true true = admitted-untimed t r bound.0

handle_bytes-untimed :
    (fuel socket : ℕ) (t : ℤ) (bytes : List ℕ) (g : Gateway)
    → (handle_bytes fuel socket t bytes g >>= λ (g', left). ok (untimed g', left))
      ≡ handle_bytes fuel socket (pos 0) bytes (untimed g)
unfolding handle_bytes
handle_bytes-untimed zero socket t bytes g = refl
handle_bytes-untimed (suc fuel) socket t bytes g =
    elim (Bool-cases (leb request_size (length bytes))) [
      | inr e ↦ rw (e) refl
      | inl e ↦ rw (e) (
          then-forget (handle_request socket t (decode_request bytes) g) untimed _ _ _
            (handle_request-untimed socket t (decode_request bytes) g)
            λ g'. handle_bytes-untimed fuel socket t (drop request_size bytes) g')
    ]

rx_callback-untimed :
    (socket : ℕ) (t : ℤ) (s : Socket) (g : Gateway)
    → forget (rx_callback socket t s g) ≡ rx_callback socket (pos 0) s (untimed g)
rx_callback-untimed socket t s g =
    ap forget (rx_callback-loop socket t s g)
    ∙ then-forget (handle_bytes (suc (length s.inbound)) socket t s.inbound g)
        (λ (g', left). (untimed g', left)) _ _ _
        (handle_bytes-untimed (suc (length s.inbound)) socket t s.inbound g) (λ r. refl)
    ∙ sym (rx_callback-loop socket (pos 0) s (untimed g))

-- It makes no difference to the gateway, its faults included, how the byte stream of a socket is cut, but for the times
-- at which the requests are noted to have come: to receive `a`, and later `b` behind what the first callback has
-- left, is to receive `a ++ b` at once, whatever the times of the three callbacks are.
pub rx_callback-cut :
    (socket : ℕ) (t t' t'' : ℤ) (a b : List ℕ) (s : Socket) (g : Gateway)
    → forget (rx_callback socket t (record s { inbound = a ++ b }) g)
      ≡ forget (
          rx_callback socket t' (record s { inbound = a }) g >>= λ r.
          rx_callback socket t'' (record (r.0) { inbound = r.0.inbound ++ b }) r.1)
rx_callback-cut socket t t' t'' a b s g =
    rx_callback-untimed socket t (record s { inbound = a ++ b }) g
    ∙ rx_callback-append socket (pos 0) a b s (untimed g)
    ∙ sym (
        then-forget (rx_callback socket t' (record s { inbound = a }) g)
          (λ (s', g'). (s', untimed g')) _ _ _
          (rx_callback-untimed socket t' (record s { inbound = a }) g)
          λ r. rx_callback-untimed socket t'' (record (r.0) { inbound = r.0.inbound ++ b }) r.1)
