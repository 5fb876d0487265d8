-- ===== src/TcpServer.antt =====
-- lib/tcp_server.h and tcp_server.cpp: `TCPServer`. What epoll_wait, accept and the socket calls return is
-- an argument of the methods; a pointer to a socket is the index of its block in the pool.
pub mod Registered
pub mod Listening
use hft_sys.Common.{
  ℕ, Option, none, some, List, [], ◌∷◌, ◌++◌, Bool, true, false, ◌==◌, ◌||◌, ◌&&◌, if◌then◌else◌,
  update, Result, ok, fail, terminated, undefined, ◌>>=◌,
}
use hft_sys.Pool
use hft_sys.Pool.{Pool}
use hft_sys.TcpSocket.{Socket, new_socket, send_and_recv}

-- `MAX_EVENTS`
abbrev pub max_events : ℕ
max_events = 1024

pub record Server : Type 0 where
  pub receive_sockets : List ℕ
  pub send_sockets : List ℕ
  pub socket_pool : Pool Socket

unfoldable pub new_server : Server
unfolding Pool.new
new_server = record { receive_sockets = []; send_sockets = []; socket_pool = Pool.new max_events }

-- An entry of `events_`: `none` is the listener socket. The flags are EPOLLIN, EPOLLOUT, and either of
-- EPOLLERR and EPOLLHUP.
pub record Event : Type 0 where
  pub socket : Option ℕ
  pub readable : Bool
  pub writable : Bool
  pub broken : Bool

-- `find_if` over a container of sockets.
unfoldable pub has_socket : ℕ → List ℕ → Bool
has_socket p [] = false
has_socket p (q ∷ qs) = (q == p) || has_socket p qs

-- `push_back` of a socket that the container does not have.
unfoldable pub register : ℕ → List ℕ → List ℕ
unfolding has_socket
register p ps = if has_socket p ps then ps else ps ++ p ∷ []

-- Under a flag of an event, its socket goes into the container.
unfoldable pub add_receive : Bool → ℕ → Server → Server
unfolding register
add_receive flag p s =
    if flag then record s { receive_sockets = register p s.receive_sockets } else s

unfoldable pub add_send : Bool → ℕ → Server → Server
unfolding register
add_send flag p s = if flag then record s { send_sockets = register p s.send_sockets } else s

-- The pointer to the socket of an event.
abbrev pub pointer : ℕ → Option ℕ → ℕ
pointer listener none = listener
pointer listener (some p) = p

abbrev pub is_listener : Option ℕ → Bool
is_listener none = true
is_listener (some p) = false

-- The body of the loop of `poll` over the events. An event of the listener that is not EPOLLIN runs
-- through the same tests as that of any other socket; `listener` is the pointer to it. The second value
-- is `haveNewConnection`.
unfoldable pub take_event : ℕ → Event → Server × Bool → Server × Bool
unfolding add_receive add_send
take_event listener e (s, new) =
    let p = pointer listener e.socket in
    if e.readable && is_listener e.socket
    then (s, true)
    else (add_receive e.broken p (add_send e.writable p (add_receive e.readable p s)), new)

unfoldable pub take_events : ℕ → List Event → Server × Bool → Server × Bool
unfolding take_event
take_events listener [] r = r
take_events listener (e ∷ es) r = take_events listener es (take_event listener e r)

-- What the calls on a connection that `accept` returns give: whether its options are set and whether
-- it is added to the event system.
pub record Connection : Type 0 where
  pub options_set : Bool
  pub added : Bool

-- The part of that loop behind `allocate`. The pointer that it returns is used without a check.
unfoldable pub add_socket : Bool → Option ℕ → Pool Socket → Server → Result Server
unfolding register
add_socket added none pool s = fail undefined
add_socket added (some p) pool s =
    if added
    then ok (record s { receive_sockets = register p s.receive_sockets; socket_pool = pool })
    else fail terminated

-- One round of the loop that accepts connections.
unfoldable pub accept_connection : Connection → Server → Result Server
unfolding add_socket
accept_connection c s =
    if c.options_set
    then Pool.allocate new_socket s.socket_pool >>= (λ r. add_socket c.added r.0 r.1 s)
    else fail terminated

unfoldable pub accept_connections : List Connection → Server → Result Server
unfolding accept_connection
accept_connections [] s = ok s
accept_connections (c ∷ cs) s = accept_connection c s >>= λ s'. accept_connections cs s'

-- `poll`: the events that are ready, and the connections that `accept` returns before it fails.
unfoldable pub poll : ℕ → List Event → List Connection → Server → Result Server
unfolding take_events accept_connections
poll listener events connections s =
    let r = take_events listener events (s, false) in
    if r.1 then accept_connections connections r.0 else ok r.0

-- What the system calls of `sendAndRecv` do on a socket.
abbrev pub Io : Type 0
Io = ℕ → Option (List ℕ) × ℕ

-- `for_each` over a container: `sendAndRecv` on every socket, and whether one of them has received.
unfoldable pub send_and_recv_all {ℓ} :
    {S : Type ℓ}
    → (ℕ → Socket → S → Result (Socket × S))
    → Io
    → List ℕ
    → (ℕ → Socket)
    → S
    → Result (Bool × (ℕ → Socket) × S)
unfolding send_and_recv
send_and_recv_all callback io [] sockets state = ok (false, sockets, state)
send_and_recv_all callback io (p ∷ ps) sockets state =
    send_and_recv (callback p) (io p).0 (io p).1 (sockets p) state >>= λ r.
    send_and_recv_all callback io ps (update sockets p r.1) r.2 >>= λ rest.
    ok (r.0 || rest.0, rest.1, rest.2)

-- `sendAndReceive`: `finished` is `recvFinishedCallback_`; the system calls of the second pass come
-- after those of the first.
unfoldable pub send_and_receive {ℓ} :
    {S : Type ℓ}
    → (ℕ → Socket → S → Result (Socket × S))
    → (S → S)
    → Io
    → Io
    → Server
    → (ℕ → Socket)
    → S
    → Result ((ℕ → Socket) × S)
unfolding send_and_recv_all
send_and_receive callback finished io later s sockets state =
    send_and_recv_all callback io s.receive_sockets sockets state >>= λ r.
    send_and_recv_all callback later s.send_sockets r.1 (if r.0 then finished r.2 else r.2) >>= λ t.
    ok (t.1, t.2)
