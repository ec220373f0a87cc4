-- ===== src/SocketsOps/Tests.antt =====
-- Runs of SocketsOps.cc, Socket.cc and InetAddress.cc.
use simplev.Prelude.{
  ℕ, ◌≡◌, ◌≤◌, refl, true, List, [], ◌∷◌, ◌++◌, length, inl, inr, Option, some, ok, err, fatal,
  arith,
}
use simplev.LogStream
use simplev.LogStream.Digits
use simplev.LogStream.Printf.{decimal_text}
use simplev.Acceptor
use simplev.Acceptor.{Acceptor, descriptors}
use simplev.Acceptor.Descriptors.{IsBalanced}
use simplev.SocketsOps.{
  Errno, eagain, enfile, returned, failed, kind, create_nonblocking_or_die, bind_or_die,
  listen_or_die, get_socket_error, logged, swap, network_to_host16, zeroed, is_self_connect,
  any_address, from_host_port, inet_ntop, to_ip_port, address_text, socket_accept, accept,
}
use simplev.SocketsOps.Address.{address_text_lem, from_host_port-address_text}
use simplev.SocketsOps.Accepting.{
  Failure, AllSurvivable, IsAmong, survivable, handle_reads, handle_reads-failed,
}

abbrev local_host : ℕ
local_host = 16777343

abbrev pton : List ℕ → Option ℕ
pton ip = some local_host

from_host_port-address_text_example :
    (address_text (from_host_port pton (inet_ntop local_host) 80)
      ≡ ok (inet_ntop local_host ++ b':' ∷ decimal_text 80))
    × (address_text (any_address 80) ≡ ok (inet_ntop 0 ++ b':' ∷ decimal_text 80))
from_host_port-address_text_example =
    from_host_port-address_text pton local_host 80 refl (omega arith)

address_text_lem_example :
    (address_text zeroed ≡ ok (inet_ntop 0 ++ b':' ∷ decimal_text (network_to_host16 0)))
    × (length (inet_ntop 0 ++ b':' ∷ decimal_text (network_to_host16 0)) ≤ 21)
address_text_lem_example = address_text_lem zeroed (omega arith)

any_text :
    address_text (any_address 80)
    ≡ ok (b'0' ∷ b'.' ∷ b'0' ∷ b'.' ∷ b'0' ∷ b'.' ∷ b'0' ∷ b':' ∷ b'8' ∷ b'0' ∷ [])
unfolding any_address to_ip_port inet_ntop decimal_text swap LogStream.Digits.emit LogStream.zero_at
any_text = refl

-- Thread 1's acceptor on socket 3, with the idle descriptor 4.
abbrev ready : Acceptor
ready = record (Acceptor.init 1 3 (some 4)) { has_callback = true }

ready-IsBalanced : IsBalanced ready
unfolding IsBalanced Acceptor.init
ready-IsBalanced fd = omega arith

-- Two errors of connections, no descriptor left, and then the end of the system's memory.
abbrev failure : Errno → Failure
failure errno = record { errno = errno; second = some 4; reopened = some 4 }

abbrev failures : List Failure
failures = failure Errno.econnaborted ∷ failure Errno.emfile ∷ failure Errno.eintr ∷ []

failures-AllSurvivable : AllSurvivable failures
failures-AllSurvivable = (inr (inr (inl refl)), (inl refl, (inr (inr (inr (inl refl))), tt)))

handle_reads-failed_example :
    ((a' : Acceptor) × (handle_reads 1 failures ready ≡ ok a') × IsBalanced a')
    × ((IsAmong Errno.enfile survivable → ⊥)
        → handle_reads 1 (failures ++ failure Errno.enfile ∷ []) ready ≡ err fatal)
unfolding Acceptor.init
handle_reads-failed_example =
    handle_reads-failed 1 failures [] (failure Errno.enfile) ready refl ready-IsBalanced
      failures-AllSurvivable

-- A table of files that is full ends the process.
table_full : accept (failed enfile) ≡ err fatal
unfolding accept kind
table_full = refl

no_peer : socket_accept (failed eagain) (any_address 80) zeroed ≡ ok (failed eagain, zeroed)
unfolding socket_accept accept kind
no_peer = refl

dies : create_nonblocking_or_die (failed enfile) ≡ err fatal
unfolding create_nonblocking_or_die
dies = refl

bound : bind_or_die (returned 0) ≡ ok tt
unfolding bind_or_die
bound = refl

listens : listen_or_die (failed enfile) ≡ err fatal
unfolding listen_or_die
listens = refl

error_of_call : get_socket_error (failed enfile) eagain ≡ enfile
unfolding get_socket_error
error_of_call = refl

-- A socket for which neither address can be had counts as connected to itself.
no_addresses : is_self_connect (failed eagain) zeroed (failed eagain) zeroed ≡ true
unfolding is_self_connect
no_addresses = refl

one_line : logged (failed eagain) ≡ 1
one_line = refl
