-- ===== src/TcpSocket.antt =====
-- lib/tcp_socket.h and tcp_socket.cpp: `TCPSocket`. What recvmsg and send of the operating system do is
-- a parameter of `send_and_recv`; bytes are numbers below 256.
use hft_sys.Common.{
  ℕ, ◌+◌, ◌*◌, List, [], ◌++◌, Bool, true, false, leb, if◌then◌else◌, length, Result, ok, fail,
  undefined, ◌>>=◌, Option, none, some, take,
}

-- `TCPBufferSize`
abbrev pub tcp_buffer_size : ℕ
tcp_buffer_size = 64 * 1024 * 1024

-- The lists are the buffers up to `nextSendValidIndex_` and `nextRcvValidIndex_`; `wire` is all that
-- the operating system has taken for the peer, oldest first.
pub record Socket : Type 0 where
  pub outbound : List ℕ
  pub inbound : List ℕ
  pub wire : List ℕ

unfoldable pub new_socket : Socket
new_socket = record { outbound = []; inbound = []; wire = [] }

-- `send`; the copy is not checked against the buffer.
unfoldable pub send : List ℕ → Socket → Result Socket
send bytes s =
    if leb (length s.outbound + length bytes) tcp_buffer_size
    then ok (record s { outbound = s.outbound ++ bytes })
    else fail undefined

-- The second half of `sendAndRecv`: the operating system takes the first `accepted` of the pending
-- bytes, and the buffer is emptied whatever it has taken.
unfoldable pub flush : ℕ → Socket → Socket
flush accepted s = record s { outbound = []; wire = s.wire ++ take accepted s.outbound }

-- `sendAndRecv`: `received` is what recvmsg puts behind the inbound bytes, `none` for a result that is
-- not positive; `callback` is `recvCallback_`, which works on the socket.
unfoldable pub send_and_recv {ℓ} :
    {S : Type ℓ}
    → (Socket → S → Result (Socket × S))
    → Option (List ℕ)
    → ℕ
    → Socket
    → S
    → Result (Bool × Socket × S)
unfolding flush
send_and_recv callback none accepted s state = ok (false, flush accepted s, state)
send_and_recv callback (some bytes) accepted s state = do
  after ← callback (record s { inbound = s.inbound ++ bytes }) state
  ok (true, flush accepted after.0, after.1)

-- `setNextRcvValidIndex` behind the copy that moves the rest of the buffer to its front.
unfoldable pub keep_inbound : List ℕ → Socket → Socket
keep_inbound rest s = record s { inbound = rest }
