-- ===== src/Tests/Responses.antt =====
-- Responses to two clients that share a socket.
use hft_sys.Common.{ℕ, ◌≤◌, ◌+◌, ◌≡◌, refl, [], ◌++◌, length, some, arith, ok, ◌==◌, if◌then◌else◌}
use hft_sys.Common.Int.{pos}
use hft_sys.LfQueue.{Queue}
use hft_sys.LfQueue.Refine.{IsValid, contents}
use hft_sys.Exchange.{buy}
use hft_sys.Exchange.Messages.{ClientResponse, accepted}
use hft_sys.TcpSocket.{Socket, new_socket, tcp_buffer_size}
use hft_sys.Gateway.{Gateway, new_gateway, send_responses}
use hft_sys.Gateway.Sending.{outgoing, all_counted, send_responses-contents}
use hft_sys.Gateway.Frames.{length-outgoing}

abbrev accepts : ℕ → ClientResponse
accepts client = record {
  type = accepted;
  client_id = client;
  ticker_id = 0;
  client_order_id = 1;
  market_order_id = 2;
  side = buy;
  price = pos 10;
  qty_exec = 0;
  qty_remain = 3;
}

-- Responses to the clients 1, 2 and 1.
abbrev three_responses : Queue ClientResponse
three_responses = record {
  next_to_read = 0;
  next_to_write = 3;
  num_elements = 3;
  slots = λ i. if i == 1 then accepts 2 else accepts 1;
  capacity = 4;
}

three_responses-IsValid : IsValid three_responses
three_responses-IsValid = record {
  small = omega arith;
  fits = omega arith;
  read_in = λ h. omega arith;
  write_at = λ h. omega arith;
}

abbrev shared_gateway : Gateway
shared_gateway = record new_gateway { sockets = λ c. some 7 }

-- The buffers are empty.
responses-room :
    (p : ℕ)
    → length (new_socket.outbound)
        + length (outgoing (λ c. some 7) shared_gateway.tx_seq p (contents three_responses))
      ≤ tcp_buffer_size
unfolding new_socket
responses-room p =
    omega (arith, length-outgoing (λ c. some 7) shared_gateway.tx_seq p (contents three_responses))

send_responses-contents_example :
    (q' : Queue ClientResponse) × (after : ℕ → Socket) × (send_responses 9 three_responses
        shared_gateway
        (λ p. new_socket)
      ≡ ok (
        q',
        record shared_gateway {
          tx_seq = all_counted shared_gateway.tx_seq (contents three_responses);
        },
        after,
      ))
    × (contents q' ≡ [])
    × ((p : ℕ)
        → after p ≡ record new_socket {
          outbound =
              new_socket.outbound
              ++ outgoing shared_gateway.sockets shared_gateway.tx_seq p (contents three_responses);
        })
send_responses-contents_example =
    send_responses-contents 9 three_responses shared_gateway (λ p. new_socket)
      three_responses-IsValid (omega arith)
      ((omega arith, (7, refl)), ((omega arith, (7, refl)), ((omega arith, (7, refl)), tt)))
      responses-room
