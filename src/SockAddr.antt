-- ===== src/SockAddr.antt =====
-- netlib/net/SockAddr.h and SockAddr.cc, with what they call of SockFunc.cc: an IPv4 address and its text. A
-- port and an address are the bytes that stand in a `sockaddr_in`, which `htons` and `htonl` lay out
-- big end first. `inet_aton`, `inet_ntop` and the resolver are arguments: texts to addresses and back.
-- A failed assertion is `none`.
mod IpPort
use netlib.Base.{
  ℕ, ◌+◌, ◌-◌, Bool, true, false, ◌&&◌, ◌==◌, leb, ltb, if◌then◌else◌, Option, none, some, ◌>>=◌,
  ◌>>◌, assert, List, [], ◌∷◌, ◌++◌, length, take,
}
use netlib.Buffer.Endian.{be_bytes, be_value}
use netlib.LogStream.{convert}

abbrev pub Bytes : Type 0
Bytes = List ℕ

abbrev pub af_inet : ℕ
af_inet = 2

abbrev pub inaddr_any : ℕ
inaddr_any = 0

abbrev pub inaddr_loopback : ℕ
inaddr_loopback = 2130706433

abbrev pub inet_addrstrlen : ℕ
inet_addrstrlen = 16

-- `sin_family`, `sin_port` and `sin_addr`.
pub record SockAddr : Type 0 where
  pub family : ℕ
  pub port : Bytes
  pub addr : Bytes

-- `hostToNetwork16`, `hostToNetwork32` and `networkToHost16`.
abbrev pub host_to_network16 : ℕ → Bytes
host_to_network16 port = be_bytes 2 port

abbrev pub host_to_network32 : ℕ → Bytes
host_to_network32 addr = be_bytes 4 addr

abbrev pub network_to_host16 : Bytes → ℕ
network_to_host16 port = be_value 0 port

-- The constructor for a port.
unfoldable pub construct : ℕ → Bool → SockAddr
construct port loopback = record {
  family = af_inet;
  port = host_to_network16 port;
  addr = host_to_network32 (if loopback then inaddr_loopback else inaddr_any);
}

-- `fromIp`: where `inet_aton` fails the address stays as it was.
abbrev pub stored : Option Bytes → Bytes → Bytes
stored none addr = addr
stored (some a) addr = a

abbrev pub from_ip : (Bytes → Option Bytes) → Bytes → Bytes → Bytes
from_ip inet_aton ip addr = stored (inet_aton ip) addr

-- The constructor for a text and a port, over an address that `bzero` cleared.
unfoldable pub construct_ip : (Bytes → Option Bytes) → Bytes → ℕ → SockAddr
construct_ip inet_aton ip port = record {
  family = af_inet;
  port = host_to_network16 port;
  addr = from_ip inet_aton ip (0 ∷ 0 ∷ 0 ∷ 0 ∷ []);
}

unfoldable pub tp_port : SockAddr → ℕ
tp_port a = network_to_host16 a.port

-- `netlib::toIp` into a buffer of `size` bytes that holds an empty text.
unfoldable pub to_ip_in : (Bytes → Bytes) → ℕ → SockAddr → Option Bytes
to_ip_in inet_ntop size a =
    if a.family == af_inet
    then assert (leb inet_addrstrlen size) >> some (inet_ntop a.addr)
    else some []

-- `netlib::toIpPort`: `snprintf` keeps one byte less than there is room for.
unfoldable pub to_ip_port_in : (Bytes → Bytes) → ℕ → SockAddr → Option Bytes
to_ip_port_in inet_ntop size a = do
  text ← to_ip_in inet_ntop size a
  assert (ltb (length text) size)
  some (text ++ take (size - length text - 1) (58 ∷ convert false (network_to_host16 a.port)))

unfoldable pub to_ip : (Bytes → Bytes) → SockAddr → Option Bytes
to_ip inet_ntop a = to_ip_in inet_ntop 64 a

unfoldable pub to_ip_port : (Bytes → Bytes) → SockAddr → Option Bytes
to_ip_port inet_ntop a = to_ip_port_in inet_ntop 64 a

-- `resolve`, with the address that was found.
unfoldable pub resolve : Option Bytes → SockAddr → Bool × SockAddr
resolve none a = (false, a)
resolve (some found) a = (true, record a { addr = found })

abbrev pub same : Bytes → Bytes → Bool
same [] [] = true
same [] (y ∷ ys) = false
same (x ∷ xs) [] = false
same (x ∷ xs) (y ∷ ys) = x == y && same xs ys

-- `isSelfConnect`, with the two ends of the connection.
unfoldable pub is_self_connect : SockAddr → SockAddr → Bool
is_self_connect local peer =
    if local.family == af_inet
    then same local.addr peer.addr && same local.port peer.port
    else false

-- `getSocketError`: what `getsockopt` stored, or its own error where it failed.
unfoldable pub get_socket_error : Option ℕ → ℕ → ℕ
get_socket_error none errno = errno
get_socket_error (some optval) errno = optval
