-- ===== src/TcpServer/Listening.antt =====
-- `TCPServer::listen`, `stop`, `~TCPServer` and the setting of the callbacks: the descriptors around the
-- containers of a server.
use hft_sys.Common.{
  ℕ, ◌≡◌, refl, inl, inr, Option-cases, Option, none, some, List, [], ◌∷◌, ◌++◌, Bool, true, Result,
  ok, fail, terminated, ◌>>=◌,
}
use hft_sys.Common.Int.{ℤ}
use hft_sys.Text.{Text}
use hft_sys.SocketUtils.{Interface, Answers, asserting, connect}
use hft_sys.TcpSocket.{Socket}
use hft_sys.TcpServer.{Server, Io, send_and_receive, send_and_recv_all}

-- `closed` are the descriptors that the server has closed; `receiver` and `finisher` are the callbacks, where
-- `R` and `F` stand for their types.
pub record Listening (R F : Type 0) : Type 0 where
  pub event_fd : Option ℕ
  pub listener_fd : Option ℕ
  pub closed : List ℕ
  pub server : Server
  pub receiver : Option R
  pub finisher : Option F

module _ {R F : Type 0} where
  -- `setRecvCallback`
  unfoldable pub set_recv_callback : R → Listening R F → Listening R F
  set_recv_callback callback s = record s { receiver = some callback }

  -- `setRecvFinishedCallback`
  unfoldable pub set_recv_finished_callback : F → Listening R F → Listening R F
  set_recv_finished_callback callback s = record s { finisher = some callback }

  -- `listen`, where `epoll` is the descriptor of epoll_create1, `none` for -1, and `added` says whether
  -- epoll_ctl takes the listener socket.
  unfoldable pub listen :
      Text
      → ℤ
      → Option (List Interface)
      → (Text → ℤ → Option (List Answers))
      → Option ℕ
      → Bool
      → Listening R F
      → Result (Listening R F)
  unfolding connect
  listen interface port interfaces lookup epoll added s =
      connect [] interface port true interfaces lookup >>= λ fd. elim fd [
        | none ↦ fail terminated
        | some p ↦ asserting added (ok (record s { event_fd = epoll; listener_fd = some p }))
      ]

  -- `stop`: neither the sockets nor the listener's descriptor are closed, and the pool keeps its blocks.
  unfoldable pub stop : Listening R F → Listening R F
  stop s =
      let server : Server = record s.server { receive_sockets = []; send_sockets = [] } in
      elim s.event_fd [
        | none ↦ record s { server = server }
        | some fd ↦ record s { event_fd = none; closed = s.closed ++ fd ∷ []; server = server }
      ]

  -- `~TCPServer`
  unfoldable pub destroy : Listening R F → Listening R F
  unfolding stop
  destroy s = stop s

  -- A stopped server stays as it is under `stop` and its destructor, so that no descriptor is closed
  -- twice, and `sendAndReceive` on it touches no socket and calls nobody.
  pub stop-idle :
      {S : Type 0} (s : Listening R F) (callback : ℕ → Socket → S → Result (Socket × S))
      (finished : S → S) (io later : Io) (sockets : ℕ → Socket) (state : S)
      → (destroy (stop s) ≡ stop s)
        × (send_and_receive callback finished io later (stop s).server sockets state
            ≡ ok (sockets, state))
  unfolding stop destroy send_and_receive send_and_recv_all
  stop-idle s callback finished io later sockets state = elim (Option-cases s.event_fd) [
    | inl e ↦ rw (e) (refl, refl)
    | inr (fd, e) ↦ rw (e) (refl, refl)
  ]
