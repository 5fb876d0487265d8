-- ===== src/Tests/Servers.antt =====
-- A server that sees the same socket ready twice, and a new connection.
use hft_sys.Common.{none, some, [], ◌∷◌, true, false}
use hft_sys.TcpServer.{new_server, Event, poll}
use hft_sys.TcpServer.Registered.{IsValid, ReturnsValid, poll-IsValid}

new_server-IsValid : IsValid new_server
unfolding new_server
new_server-IsValid = record { receive_distinct = tt; send_distinct = tt }

abbrev ready : Event
ready = record { socket = some 0; readable = true; writable = true; broken = false }

abbrev knock : Event
knock = record { socket = none; readable = true; writable = false; broken = false }

poll-IsValid_example : ReturnsValid (
    poll 2000
      (ready ∷ ready ∷ knock ∷ [])
      (record { options_set = true; added = true } ∷ [])
      new_server)
poll-IsValid_example =
    poll-IsValid 2000 (ready ∷ ready ∷ knock ∷ [])
      (record { options_set = true; added = true } ∷ []) new_server new_server-IsValid
