-- ===== src/TcpServer/Registered.antt =====
-- The containers of sockets hold no socket twice.
use hft_sys.Common.{
  ℕ, ◌≡◌, refl, inl, inr, Option, none, some, List, [], ◌∷◌, ◌++◌, Bool, true, false, ◌==◌, ◌||◌,
  ◌&&◌, if◌then◌else◌, arith, Result, ok, fail, terminated, ◌>>=◌, Bool-cases,
}
use hft_sys.Pool
use hft_sys.Pool.{Pool}
use hft_sys.TcpSocket.{Socket, new_socket}
use hft_sys.TcpServer.{
  pointer, is_listener, add_receive, add_send, add_socket, Server, Event, Connection, has_socket,
  register, take_event, take_events, accept_connection, accept_connections, poll,
}

abbrev pub IsDistinct : List ℕ → Type 0
IsDistinct [] = Unit
IsDistinct (p ∷ ps) = (has_socket p ps ≡ false) × IsDistinct ps

has_socket-append :
    (p q : ℕ) (ps : List ℕ) → has_socket p (ps ++ q ∷ []) ≡ (has_socket p ps || (q == p))
unfolding has_socket
has_socket-append p q [] = ground arith
has_socket-append p q (r ∷ rs) = ground (arith, has_socket-append p q rs)

append-IsDistinct :
    (p : ℕ) (ps : List ℕ) → has_socket p ps ≡ false → IsDistinct ps → IsDistinct (ps ++ p ∷ [])
unfolding has_socket
append-IsDistinct p [] h d = (refl, tt)
append-IsDistinct p (q ∷ qs) h (k, d) =
    (ground (arith, has_socket-append q p qs), append-IsDistinct p qs (ground arith) d)

register-IsDistinct : (p : ℕ) (ps : List ℕ) → IsDistinct ps → IsDistinct (register p ps)
unfolding register
register-IsDistinct p ps d = elim (Bool-cases (has_socket p ps)) [
  | inl e ↦ rw (e) d
  | inr e ↦ rw (e) (append-IsDistinct p ps e d)
]

pub record IsValid (s : Server) : Type 0 where
  pub receive_distinct : IsDistinct s.receive_sockets
  pub send_distinct : IsDistinct s.send_sockets

add_receive-IsValid :
    (flag : Bool) (p : ℕ) (s : Server) → IsValid s → IsValid (add_receive flag p s)
unfolding add_receive
add_receive-IsValid true p s v = record {
  receive_distinct = register-IsDistinct p s.receive_sockets v.receive_distinct;
  send_distinct = v.send_distinct;
}
add_receive-IsValid false p s v = v

add_send-IsValid : (flag : Bool) (p : ℕ) (s : Server) → IsValid s → IsValid (add_send flag p s)
unfolding add_send
add_send-IsValid true p s v = record {
  receive_distinct = v.receive_distinct;
  send_distinct = register-IsDistinct p s.send_sockets v.send_distinct;
}
add_send-IsValid false p s v = v

take_event-IsValid :
    (l : ℕ) (e : Event) (r : Server × Bool) → IsValid (r.0) → IsValid (take_event l e r).0
unfolding take_event
take_event-IsValid l e (s, new) v = elim (Bool-cases (e.readable && is_listener e.socket)) [
  | inl h ↦ rw (h) v
  | inr h ↦ rw (h) (
      add_receive-IsValid e.broken (pointer l e.socket) _ (
        add_send-IsValid e.writable (pointer l e.socket) _
          (add_receive-IsValid e.readable (pointer l e.socket) s v)))
]

take_events-IsValid :
    (l : ℕ) (es : List Event) (r : Server × Bool) → IsValid (r.0) → IsValid (take_events l es r).0
unfolding take_events
take_events-IsValid l [] r v = v
take_events-IsValid l (e ∷ es) r v =
    take_events-IsValid l es (take_event l e r) (take_event-IsValid l e r v)

-- The server that a run returns is valid.
abbrev pub ReturnsValid : Result Server → Type 0
ReturnsValid (ok s) = IsValid s
ReturnsValid (fail _) = Unit

accept_connection-IsValid :
    (c : Connection) (s : Server) → IsValid s → ReturnsValid (accept_connection c s)
unfolding accept_connection add_socket
accept_connection-IsValid c s v = go c.options_set c.added (Pool.allocate new_socket s.socket_pool)
  where
    go :
        (set added : Bool) (r : Result (Option ℕ × Pool Socket))
        → ReturnsValid (if set then (r >>= λ r. add_socket added r.0 r.1 s) else fail terminated)
    go false added r = tt
    go true added (fail e) = tt
    go true added (ok (none, q)) = tt
    go true false (ok (some p, q)) = tt
    go true true (ok (some p, q)) = record {
      receive_distinct = register-IsDistinct p s.receive_sockets v.receive_distinct;
      send_distinct = v.send_distinct;
    }

ReturnsValid-bind :
    (r : Result Server) (f : Server → Result Server)
    → ReturnsValid r
    → ((s : Server) → IsValid s → ReturnsValid (f s))
    → ReturnsValid (r >>= f)
ReturnsValid-bind (ok s) f v k = k s v
ReturnsValid-bind (fail e) f v k = tt

accept_connections-IsValid :
    (cs : List Connection) (s : Server) → IsValid s → ReturnsValid (accept_connections cs s)
unfolding accept_connections
accept_connections-IsValid [] s v = v
accept_connections-IsValid (c ∷ cs) s v =
    ReturnsValid-bind (accept_connection c s) (λ s'. accept_connections cs s')
      (accept_connection-IsValid c s v) (accept_connections-IsValid cs)

-- `poll` keeps the containers free of duplicates: when it returns, whatever events and connections it
-- was given, no socket stands twice in the container for receiving, nor in that for sending.
pub poll-IsValid :
    (listener : ℕ) (events : List Event) (connections : List Connection) (s : Server)
    → IsValid s
    → ReturnsValid (poll listener events connections s)
unfolding poll
poll-IsValid listener events connections s v =
    let kept = take_events-IsValid listener events (s, false) v in
    go (take_events listener events (s, false)) kept
  where
    go :
        (r : Server × Bool)
        → IsValid (r.0)
        → ReturnsValid (if r.1 then accept_connections connections r.0 else ok r.0)
    go (s', true) v' = accept_connections-IsValid connections s' v'
    go (s', false) v' = v'
