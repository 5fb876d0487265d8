-- ===== src/SocketUtils.antt =====
-- lib/socket_utils.h: the functions that make sockets, and `TCPSocket::connect`. What the operating system
-- answers is an argument; a descriptor is a number, and `none` for -1.
pub mod Passed
use Prim.Native.String.{String}
use hft_sys.Common.{
  ℕ, ◌+◌, ◌==◌, List, [], ◌∷◌, ◌++◌, Bool, true, false, ◌&&◌, ◌||◌, not, Option, none, some,
  if◌then◌else◌, Result, ok, fail, terminated, ◌>>=◌,
}
use hft_sys.Common.Int.{ℤ}
use hft_sys.Text.{Text, codes, to_string_ℤ}

-- `MaxTCPServerBacklog`
abbrev pub max_tcp_server_backlog : ℕ
max_tcp_server_backlog = 1024

pub record SocketConfig : Type 0 where
  pub ip_address : Text
  pub interface_name : Text
  pub port_number : ℤ
  pub use_udp : Bool
  pub is_listening_mode : Bool
  pub enable_timestamp : Bool

abbrev pub bool_to_str : Bool → Text
bool_to_str b = if b then codes "true" else codes "false"

-- `SocketConfig::toString`
unfoldable pub config_to_string : SocketConfig → Text
config_to_string c =
    codes "ip:"
    ++ c.ip_address
    ++ codes " interface:"
    ++ c.interface_name
    ++ codes " port:"
    ++ to_string_ℤ c.port_number
    ++ codes " udp:"
    ++ bool_to_str c.use_udp
    ++ codes " listening:"
    ++ bool_to_str c.is_listening_mode
    ++ codes " timestamp:"
    ++ bool_to_str c.enable_timestamp

-- An entry of `getifaddrs`: its name, its IPv4 address if it has one, and what `getnameinfo` writes for it.
pub record Interface : Type 0 where
  pub name : Text
  pub has_ipv4 : Bool
  pub numeric_host : Text

unfoldable pub same_text : Text → Text → Bool
same_text [] [] = true
same_text (c ∷ s) (d ∷ t) = let rest = same_text s t in (c == d) && rest
same_text _ _ = false

-- The loop of `getIpAddressForInterface`.
unfoldable pub find_interface : Text → List Interface → Text
unfolding same_text
find_interface name [] = []
find_interface name (i ∷ is) =
    let rest = find_interface name is in
    if i.has_ipv4 && same_text name i.name then i.numeric_host else rest

-- `getIpAddressForInterface`, where `none` is a failure of `getifaddrs`.
unfoldable pub get_ip_address_for_interface : Text → Option (List Interface) → Text
unfolding find_interface
get_ip_address_for_interface name none = []
get_ip_address_for_interface name (some interfaces) = find_interface name interfaces

-- What the system calls for an entry of the result of `getaddrinfo` return: a descriptor, or whether the
-- call succeeds.
pub record Answers : Type 0 where
  pub socket : Option ℕ
  pub flags_got : Bool  -- fcntl(F_GETFL)
  pub flags_set : Bool  -- fcntl(F_SETFL)
  pub no_delay_set : Bool  -- setsockopt(TCP_NODELAY)
  pub connected : Bool
  pub reuse_set : Bool  -- setsockopt(SO_REUSEADDR)
  pub bound : Bool
  pub listening : Bool
  pub timestamp_set : Bool  -- setsockopt(SO_TIMESTAMP)

-- `setSocketNonBlocking`
unfoldable pub set_socket_non_blocking : Answers → Bool
set_socket_non_blocking a = if not a.flags_got then false else a.flags_set

-- `ASSERT_CONDITION(condition, ...)`, then what follows.
abbrev pub asserting : {A : Type 0} → Bool → Result A → Result A
asserting condition next = if condition then next else fail terminated

-- The options and the binding of a socket that is to listen.
unfoldable pub prepare_listening : SocketConfig → Answers → Result (Unit {0})
prepare_listening c a =
    if c.is_listening_mode
    then asserting a.reuse_set
        (asserting a.bound (if not c.use_udp then asserting a.listening (ok tt) else ok tt))
    else ok tt

-- The body of the loop of `createSocket`. A socket that is not to listen is connected, under the condition
-- that `connect` returns -1.
unfoldable pub open_socket : SocketConfig → Answers → Result ℕ
unfolding set_socket_non_blocking prepare_listening
open_socket c a = elim a.socket [
  | none ↦ fail terminated
  | some fd ↦ asserting (set_socket_non_blocking a) (
      asserting (c.use_udp || a.no_delay_set) (
        asserting (c.is_listening_mode || not a.connected) (
          prepare_listening c a >>= λ _.
          asserting (not c.enable_timestamp || a.timestamp_set) (ok fd))))
]

-- The loop of `createSocket`: every entry gets a socket, and `socketFd` is the last. The second value are the
-- sockets that are open.
unfoldable pub open_sockets :
    SocketConfig → List Answers → Option ℕ → List ℕ → Result (Option ℕ × List ℕ)
open_sockets c [] last opened = ok (last, opened)
open_sockets c (a ∷ as') last opened =
    open_socket c a >>= λ fd. open_sockets c as' (some fd) (opened ++ fd ∷ [])

-- The address that `createSocket` looks up.
unfoldable pub chosen_ip : SocketConfig → Option (List Interface) → Text
unfolding get_ip_address_for_interface
chosen_ip c interfaces = elim c.ip_address [
  | [] ↦ get_ip_address_for_interface c.interface_name interfaces
  | _ ∷ _ ↦ c.ip_address
]

-- `createSocket`, where `lookup` is `getaddrinfo`: it fails with `none`, and otherwise gives entries.
unfoldable pub create_socket :
    SocketConfig
    → Option (List Interface)
    → (Text → ℤ → Option (List Answers))
    → Result (Option ℕ × List ℕ)
unfolding chosen_ip open_sockets
create_socket c interfaces lookup = elim (lookup (chosen_ip c interfaces) c.port_number) [
  | none ↦ fail terminated
  | some entries ↦ open_sockets c entries none []
]

-- The configuration that `TCPSocket::connect` makes.
abbrev pub tcp_config : Text → Text → ℤ → Bool → SocketConfig
tcp_config ip interface port is_listening = record {
  ip_address = ip;
  interface_name = interface;
  port_number = port;
  use_udp = false;
  is_listening_mode = is_listening;
  enable_timestamp = true;
}

-- `TCPSocket::connect`: the descriptor, which becomes `socketFd_`.
unfoldable pub connect :
    Text
    → Text
    → ℤ
    → Bool
    → Option (List Interface)
    → (Text → ℤ → Option (List Answers))
    → Result (Option ℕ)
unfolding create_socket
connect ip interface port is_listening interfaces lookup =
    create_socket (tcp_config ip interface port is_listening) interfaces lookup >>= λ (fd, _). ok fd
