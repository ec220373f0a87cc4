-- ===== src/TcpServer/Tests.antt =====
-- Runs of TcpServer.cc.
use simplev.Prelude.{
  ◌+◌, ◌-◌, ◌^◌, ◌<◌, arith, length, ◌≡◌, refl, ◌&&◌, true, [], ◌∷◌, ok, ltb, leb, if◌then◌else◌,
}
use simplev.EventLoopThreadPool
use simplev.TcpServer.{
  TcpServer, Connection, init, set_thread_num, start, erase, occurrences, new_connection,
}
use simplev.TcpServer.History.{Reach, here, next, starts, accepts, Reach-occurrences}

abbrev first : Connection
first = record { id = 1; sockfd = 5; io_loop = 11 }

-- One thread, 11, under the server's loop of thread 1.
started : (s : TcpServer) × (start 1 (λ i. 11 + i) (set_thread_num 1 (init 1)) ≡ ok s)
unfolding start EventLoopThreadPool.start EventLoopThreadPool.start_loops
started = (_, refl)

accepted : (s : TcpServer) × (new_connection 1 true 5 started.0 ≡ ok s)
unfolding new_connection EventLoopThreadPool.get_next_loop started erase start
    EventLoopThreadPool.start EventLoopThreadPool.start_loops
accepted = (_, refl)

accepted-Reach : Reach (set_thread_num 1 (init 1)) accepted.0
accepted-Reach = next (next here (starts 1 (λ i. 11 + i) started.1)) (accepts 1 5 true accepted.1)

accepted_few : length accepted.0.established < 2 ^ 31 - 1
unfolding accepted new_connection EventLoopThreadPool.get_next_loop started erase start
    EventLoopThreadPool.start EventLoopThreadPool.start_loops
accepted_few = omega arith

Reach-occurrences_example :
    (occurrences 1 accepted.0.established
      ≡ (if leb 1 1 && ltb 1 accepted.0.next_conn_id then 1 else 0))
    × (occurrences 1 accepted.0.established
        ≡ occurrences 1 accepted.0.connections + occurrences 1 accepted.0.destroyed)
Reach-occurrences_example = Reach-occurrences 1 1 accepted-Reach accepted_few 1

-- The server with its first connection.
abbrev serving : TcpServer
serving = record (init 1) { next_conn_id = 2; connections = first ∷ []; established = first ∷ [] }
