-- ===== src/Gateway.antt =====
-- core/gateway/order_gateway_server.h and order_gateway_server.cpp: `OrderGatewayServer`. A pointer to a
-- socket is a number.
pub mod Bytes
pub mod Admission
pub mod Stream
pub mod Untimed
pub mod Sending
pub mod Frames
pub mod Lifetime
use hft_sys.Common.{
  ℕ, zero, suc, ◌+◌, ◌-◌, Option, none, some, List, [], ◌∷◌, ◌++◌, leb, ltb, ◌==◌, if◌then◌else◌,
  add_size, update, length, drop, Result, ok, fail, terminated, undefined, out_of_fuel, ◌>>=◌,
}
use hft_sys.Common.Int.{ℤ}
use hft_sys.Exchange.{max_n_clients}
use hft_sys.Exchange.Messages.{ClientRequest, GatewayRequest, ClientResponse}
use hft_sys.LfQueue
use hft_sys.LfQueue.{Queue}
use hft_sys.Sequencer.{Pending, Sequencer, new_sequencer, push_client_request, sequence_and_publish}
use hft_sys.TcpSocket
use hft_sys.TcpSocket.{Socket, keep_inbound}
use hft_sys.Gateway.Bytes.{to_bytes, request_size, decode_request, encode_response}

pub record Gateway : Type 0 where
  pub fifo : Sequencer
  pub tx_seq : ℕ → ℕ
  pub rx_seq : ℕ → ℕ
  pub sockets : ℕ → Option ℕ

-- The constructor.
unfoldable pub new_gateway : Gateway
unfolding new_sequencer
new_gateway = record { fifo = new_sequencer; tx_seq = λ _. 1; rx_seq = λ _. 1; sockets = λ _. none }

-- A client's first request binds it to the socket that it came on. The second value is the socket
-- that the client is bound to.
unfoldable pub bind_client : ℕ → ℕ → Gateway → Gateway × ℕ
bind_client socket client g = elim (g.sockets client) [
  | none ↦ (record g { sockets = update g.sockets client (some socket) }, socket)
  | some bound ↦ (g, bound)
]

-- What the loop of `rxCallback` does with one request. The client id is not checked against the
-- length of the arrays.
unfoldable pub handle_request : ℕ → ℤ → GatewayRequest → Gateway → Result Gateway
unfolding bind_client push_client_request
handle_request socket t_rx r g =
    let client = r.request.client_id in
    let bound = bind_client socket client g in
    if ltb client max_n_clients
    then (if bound.1 == socket
        then (if r.n_seq == bound.0.rx_seq client
            then (do
              fifo ← push_client_request r.request t_rx bound.0.fifo
              ok (record (bound.0) {
                rx_seq = update bound.0.rx_seq client (add_size (bound.0.rx_seq client) 1);
                fifo = fifo;
              }))
            else ok bound.0)
        else ok bound.0)
    else fail undefined

-- The loop of `rxCallback` over the inbound bytes, and the bytes that are left behind it.
unfoldable pub handle_bytes : ℕ → ℕ → ℤ → List ℕ → Gateway → Result (Gateway × List ℕ)
unfolding handle_request decode_request
handle_bytes zero socket t_rx bytes g = fail out_of_fuel
handle_bytes (suc fuel) socket t_rx bytes g =
    let rest = λ (g' : Gateway). handle_bytes fuel socket t_rx (drop request_size bytes) g' in
    if leb request_size (length bytes)
    then handle_request socket t_rx (decode_request bytes) g >>= rest
    else ok (g, bytes)

-- `rxCallback`
unfoldable pub rx_callback : ℕ → ℤ → Socket → Gateway → Result (Socket × Gateway)
unfolding handle_bytes keep_inbound
rx_callback socket t_rx s g =
    if leb request_size (length s.inbound)
    then (do
      r ← handle_bytes (suc (length s.inbound)) socket t_rx s.inbound g
      ok (keep_inbound r.1 s, r.0))
    else ok (s, g)

-- `rxDoneCallback`
unfoldable pub rx_done_callback :
    (List Pending → List Pending) → Gateway → Queue ClientRequest → Gateway × Queue ClientRequest
unfolding sequence_and_publish
rx_done_callback sort g q =
    let r = sequence_and_publish sort g.fifo q in (record g { fifo = r.0 }, r.1)

-- The body of the loop of `run` for one response, on the sockets behind the pointers.
unfoldable pub send_response :
    ClientResponse → Gateway → (ℕ → Socket) → Result (Gateway × (ℕ → Socket))
unfolding to_bytes encode_response
send_response r g sockets =
    if ltb r.client_id max_n_clients
    then elim (g.sockets r.client_id) [
      | none ↦ fail terminated
      | some p ↦ TcpSocket.send (to_bytes 8 (g.tx_seq r.client_id)) (sockets p) >>= λ s.
          TcpSocket.send (encode_response r) s >>= λ s'. ok (
            record g { tx_seq = update g.tx_seq r.client_id (add_size (g.tx_seq r.client_id) 1) },
            update sockets p s',
          )
    ]
    else fail undefined

-- That loop: as many rounds as the queue has elements, on fuel.
unfoldable pub send_responses :
    ℕ
    → Queue ClientResponse
    → Gateway
    → (ℕ → Socket)
    → Result (Queue ClientResponse × Gateway × (ℕ → Socket))
unfolding send_response
send_responses zero q g sockets = fail out_of_fuel
send_responses (suc fuel) q g sockets =
    let rest = λ (q' : Queue ClientResponse) (g' : Gateway) (s' : ℕ → Socket).
      send_responses fuel q' g' s' in
    elim (LfQueue.get_next_to_read q) [
      | none ↦ ok (q, g, sockets)
      | some slot ↦ send_response (q.slots slot) g sockets >>= λ sent.
          LfQueue.update_read_index q >>= λ q'. rest q' sent.0 sent.1
    ]
