-- ===== src/Tests/Sockets.antt =====
-- Sockets that are made from the answers of the operating system.
use hft_sys.Common.{
  ℕ, suc, Bool, ◌≡◌, refl, Option, none, some, true, false, List, [], ◌∷◌, ok, fail, terminated,
}
use hft_sys.Common.Int.{ℤ, pos}
use hft_sys.Text.{Text, codes}
use hft_sys.SocketUtils.{
  Answers, SocketConfig, tcp_config, create_socket, open_sockets, open_socket,
  set_socket_non_blocking, prepare_listening,
}
use hft_sys.SocketUtils.Passed.{Opens, create_socket-Opens}
use hft_sys.TcpSocket.{new_socket}
use hft_sys.TcpServer.{new_server, send_and_receive}
use hft_sys.TcpServer.Listening.{Listening, stop, destroy, stop-idle}

abbrev answers : Bool → ℕ → Answers
answers connected fd = record {
  socket = some fd;
  flags_got = true;
  flags_set = true;
  no_delay_set = true;
  connected = connected;
  reuse_set = true;
  bound = true;
  listening = true;
  timestamp_set = true;
}

abbrev client : SocketConfig
client = tcp_config (codes "10.0.0.1") [] (pos 12345) false

abbrev resolver : List Answers → Text → ℤ → Option (List Answers)
resolver entries ip port = some entries

-- A connection that is made at once terminates the program.
connected_run : create_socket client none (resolver (answers true 5 ∷ [])) ≡ fail terminated
unfolding create_socket open_sockets open_socket set_socket_non_blocking
connected_run = refl

-- Of two sockets the first is left open, and not returned.
two_sockets_run :
    create_socket client none (resolver (answers false 5 ∷ answers false 6 ∷ []))
    ≡ ok (some 6, 5 ∷ 6 ∷ [])
unfolding create_socket open_sockets open_socket set_socket_non_blocking prepare_listening
two_sockets_run = refl

create_socket-Opens_example :
    Opens client
      (answers false 5 ∷ answers true 6 ∷ [])
      none
      []
      (create_socket client none (resolver (answers false 5 ∷ answers true 6 ∷ [])))
create_socket-Opens_example =
    create_socket-Opens client none (resolver (answers false 5 ∷ answers true 6 ∷ []))
      (answers false 5 ∷ answers true 6 ∷ []) refl

abbrev opened_server : Listening ℕ ℕ
opened_server = record {
  event_fd = some 3;
  listener_fd = some 4;
  closed = [];
  receiver = none;
  finisher = none;
  server = record new_server { receive_sockets = 0 ∷ []; send_sockets = 0 ∷ [] };
}

stop-idle_example :
    (destroy (stop opened_server) ≡ stop opened_server)
    × (send_and_receive
          (λ p s n. ok (s, suc n))
          (λ n. suc n)
          (λ p. (some (1 ∷ []), 0))
          (λ p. (none, 0))
          (stop opened_server).server
          (λ p. new_socket)
          0
        ≡ ok ((λ p. new_socket), 0))
stop-idle_example =
    stop-idle opened_server (λ p s n. ok (s, suc n)) (λ n. suc n) (λ p. (some (1 ∷ []), 0))
      (λ p. (none, 0)) (λ p. new_socket) 0
