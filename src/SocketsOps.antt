-- ===== src/SocketsOps.antt =====
-- simplev/src/simplev/net/SocketsOps.h, SocketsOps.cc, Socket.h, Socket.cc, InetAddress.h and
-- InetAddress.cc: system calls with what becomes of their errors, and addresses as text. What a system
-- call answers is an argument. A LOG_SYSERR is a line in the log and no more; LOG_SYSFATAL and LOG_FATAL
-- abort. `inet_pton` is a parameter of what calls it.
pub mod Swap
pub mod Address
pub mod Accepting
mod Tests
use simplev.Prelude.{
  ℕ, zero, suc, ◌+◌, ◌-◌, ◌*◌, ◌/◌, ◌%◌, Bool, true, false, ◌&&◌, List, [], ◌∷◌, ◌++◌, length, take,
  Option, none, some, Result, ok, err, assert, ensure, fatal, ◌>>=◌, ◌>>◌, ltb, leb, ◌==◌,
  if◌then◌else◌,
}
use mathlib.Core.List.{reverse}
use simplev.LogStream.Printf.{decimal_text}

-- The errno values that the code names.
pub data Errno : Type 0 where
  eagain econnaborted eintr eproto eperm emfile : Errno
  ebadf efault einval enfile enobufs enomem enotsock eopnotsupp : Errno
  other_errno : ℕ → Errno

-- What a system call answers: a number that is not negative, or -1 with `errno`.
pub data Reply : Type 0 where
  returned : ℕ → Reply
  failed : Errno → Reply

abbrev pub or_die : Reply → Result ℕ
or_die (returned n) = ok n
or_die (failed errno) = err fatal

unfoldable pub create_nonblocking_or_die : Reply → Result ℕ
create_nonblocking_or_die socket = or_die socket

unfoldable pub bind_or_die : Reply → Result (Unit {0})
bind_or_die bind = or_die bind >>= λ n. ok tt

unfoldable pub listen_or_die : Reply → Result (Unit {0})
listen_or_die listen = or_die listen >>= λ n. ok tt

-- The switch of `accept`: errors that are expected are handed on.
pub data Kind : Type 0 where
  expected unexpected unknown : Kind

unfoldable pub kind : Errno → Kind
kind eagain = expected
kind econnaborted = expected
kind eintr = expected
kind eproto = expected
kind eperm = expected
kind emfile = expected
kind (other_errno n) = unknown
kind _ = unexpected

abbrev pub after_error : Kind → Errno → Result Reply
after_error expected errno = ok (failed errno)
after_error unexpected errno = err fatal
after_error unknown errno = err fatal

unfoldable pub accept : Reply → Result Reply
unfolding kind
accept (returned connfd) = ok (returned connfd)
accept (failed errno) = after_error (kind errno) errno

-- Calls after which the code goes on in any case: the lines of the log are counted.
abbrev pub logged : Reply → ℕ
logged (returned n) = 0
logged (failed errno) = 1

-- `shutdownWrite` and `close`
abbrev pub shutdown_write : Reply → ℕ
shutdown_write shutdown = logged shutdown

abbrev pub close : Reply → ℕ
close reply = logged reply

-- `setReuseAddr` and its like: the value of the option that is set, and the lines of the log.
abbrev pub optval : Bool → ℕ
optval on = if on then 1 else 0

abbrev pub set_reuse_addr : Bool → Reply → ℕ × ℕ
set_reuse_addr on setsockopt = (optval on, logged setsockopt)

abbrev pub set_tcp_no_delay : Bool → Reply → ℕ × ℕ
set_tcp_no_delay on setsockopt = (optval on, logged setsockopt)

abbrev pub set_keep_alive : Bool → Reply → ℕ × ℕ
set_keep_alive on setsockopt = (optval on, logged setsockopt)

-- Where SO_REUSEPORT is not defined nothing is set, and a line is logged if it was wanted.
abbrev pub set_reuse_port : Bool → Bool → Reply → Option ℕ × ℕ
set_reuse_port defined on setsockopt =
    if defined then (some (optval on), logged setsockopt) else (none, optval on)

-- `getSocketError`, where `optval` is the option that `getsockopt` got.
unfoldable pub get_socket_error : Reply → Errno → Errno
get_socket_error (returned n) optval = optval
get_socket_error (failed errno) optval = errno

-- Bytes of a number, the lowest first, as a little-endian machine has them.
abbrev pub to_bytes : ℕ → ℕ → List ℕ
to_bytes zero n = []
to_bytes (suc k) n = n % 256 ∷ to_bytes k (n / 256)

abbrev pub from_bytes : List ℕ → ℕ
from_bytes [] = 0
from_bytes (b ∷ bs) = b + 256 * from_bytes bs

-- `htobe64`, `htonl`, `htons` and their inverses, by the number of bytes.
unfoldable pub swap : ℕ → ℕ → ℕ
swap k n = from_bytes (reverse (to_bytes k n))

abbrev pub host_to_network64 : ℕ → ℕ
host_to_network64 host64 = swap 8 host64

abbrev pub host_to_network32 : ℕ → ℕ
host_to_network32 host32 = swap 4 host32

abbrev pub host_to_network16 : ℕ → ℕ
host_to_network16 host16 = swap 2 host16

abbrev pub network_to_host64 : ℕ → ℕ
network_to_host64 net64 = swap 8 net64

abbrev pub network_to_host32 : ℕ → ℕ
network_to_host32 net32 = swap 4 net32

abbrev pub network_to_host16 : ℕ → ℕ
network_to_host16 net16 = swap 2 net16

-- `sockaddr_in`, in the byte order of the network.
pub record SockAddr : Type 0 where
  pub sin_port : ℕ
  pub s_addr : ℕ

-- After `bzero`.
abbrev pub zeroed : SockAddr
zeroed = record { sin_port = 0; s_addr = 0 }

-- `getLocalAddr` and `getPeerAddr`, where the system has `addr` for the socket.
abbrev pub get_addr : Reply → SockAddr → SockAddr
get_addr (returned n) addr = addr
get_addr (failed errno) addr = zeroed

unfoldable pub is_self_connect : Reply → SockAddr → Reply → SockAddr → Bool
is_self_connect getsockname local getpeername peer =
    let localaddr = get_addr getsockname local in
    let peeraddr = get_addr getpeername peer in
    localaddr.sin_port == peeraddr.sin_port && localaddr.s_addr == peeraddr.s_addr

-- `InetAddress(port)`: any address.
unfoldable pub any_address : ℕ → SockAddr
unfolding swap
any_address port = record { sin_port = host_to_network16 port; s_addr = host_to_network32 0 }

abbrev pub set_addr : Option ℕ → SockAddr → SockAddr
set_addr none addr = addr
set_addr (some s_addr) addr = record addr { s_addr = s_addr }

-- `InetAddress(ip, port)` and `fromHostPort`: an address that `inet_pton` refuses stays zero.
unfoldable pub from_host_port : (List ℕ → Option ℕ) → List ℕ → ℕ → SockAddr
unfolding swap
from_host_port inet_pton ip port =
    set_addr (inet_pton ip) (record zeroed { sin_port = host_to_network16 port })

-- `inet_ntop`: the bytes of the address in memory, with dots between.
abbrev pub dotted : List ℕ → List ℕ
dotted [] = []
dotted (b ∷ []) = decimal_text b
dotted (b ∷ c ∷ bs) = decimal_text b ++ b'.' ∷ dotted (c ∷ bs)

unfoldable pub inet_ntop : ℕ → List ℕ
unfolding decimal_text
inet_ntop s_addr = dotted (to_bytes 4 s_addr)

abbrev pub inet_addrstrlen : ℕ
inet_addrstrlen = 16

-- `toIpPort` into a buffer of `size` characters, which `snprintf` does not leave.
unfoldable pub to_ip_port : ℕ → SockAddr → Result (List ℕ)
unfolding swap decimal_text inet_ntop
to_ip_port size addr = do
  assert (leb inet_addrstrlen size)
  let buf = inet_ntop addr.s_addr
  let end : ℕ = length buf
  assert (ltb end size)
  ok (buf ++ take (size - end - 1) (b':' ∷ decimal_text (network_to_host16 addr.sin_port)))

-- `InetAddress::toIpPort`
abbrev pub address_text : SockAddr → Result (List ℕ)
address_text addr = to_ip_port 32 addr

-- `Socket::accept`: the peer's address is set with a connection only.
abbrev pub set_peer : Reply → SockAddr → SockAddr → SockAddr
set_peer (returned connfd) addr peer = addr
set_peer (failed errno) addr peer = peer

unfoldable pub socket_accept : Reply → SockAddr → SockAddr → Result (Reply × SockAddr)
unfolding accept
socket_accept accept4 addr peer = do r ← accept accept4; ok (r, set_peer r addr peer)
