-- ===== src/Tests/Gateways.antt =====
-- A gateway that receives a request in two pieces.
use hft_sys.Common.{ℕ, ◌<◌, ◌≡◌, List, [], ◌∷◌, ◌++◌, length, ◌>>=◌}
use hft_sys.Common.Int.{pos}
use hft_sys.TcpSocket.{Socket, new_socket}
use hft_sys.Gateway.{new_gateway, rx_callback}
use hft_sys.Gateway.Bytes.{request_size}
use hft_sys.Gateway.Untimed.{forget, rx_callback-cut}
use hft_sys.Gateway.Admission.{Meets, Admits, rx_callback-Admits}

-- Request number 1 of client 3, to buy 7 of ticker 2 at 10 under the id 4.
abbrev first_part : List ℕ
first_part = 1 ∷ 0 ∷ 0 ∷ 0 ∷ 0 ∷ 0 ∷ 0 ∷ 0 ∷ 1 ∷ 3 ∷ 0 ∷ 0 ∷ 0 ∷ 2 ∷ 0 ∷ 0 ∷ 0 ∷ []

abbrev second_part : List ℕ
second_part =
    4 ∷ 0 ∷ 0 ∷ 0 ∷ 0 ∷ 0 ∷ 0 ∷ 0 ∷ 1 ∷ 10 ∷ 0 ∷ 0 ∷ 0 ∷ 0 ∷ 0 ∷ 0 ∷ 0 ∷ 7 ∷ 0 ∷ 0 ∷ 0 ∷ []

abbrev whole : Socket
whole = record new_socket { inbound = first_part ++ second_part }

rx_callback-cut_example :
    forget (
      rx_callback 1 (pos 9) (record new_socket { inbound = first_part ++ second_part }) new_gateway)
    ≡ forget (
        rx_callback 1 (pos 5) (record new_socket { inbound = first_part }) new_gateway >>= λ r.
        rx_callback 1 (pos 6) (record (r.0) { inbound = r.0.inbound ++ second_part }) r.1)
rx_callback-cut_example =
    rx_callback-cut 1 (pos 9) (pos 5) (pos 6) first_part second_part new_socket new_gateway

rx_callback-Admits_example :
    Meets
      (λ r. Admits 1 (pos 5) whole.inbound new_gateway r.1 × (length r.0.inbound < request_size))
      (rx_callback 1 (pos 5) whole new_gateway)
rx_callback-Admits_example = rx_callback-Admits 1 (pos 5) whole new_gateway
