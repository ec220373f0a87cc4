-- ===== src/TcpServer.antt =====
-- simplev/src/simplev/net/TcpServer.h and TcpServer.cc: a server's map of connections. A connection's
-- name is the server's name and `#` with `nextConnId_`, so that the number stands for the name. What the
-- server asks of other objects is kept in lists, the latest last: connections to establish in their
-- loop, and to destroy there, sockets closed at once, and calls of `Acceptor::listen`. The
-- calling thread is the first argument of a method, and a loop is named by its thread.
pub mod Account
pub mod History
mod Tests
use simplev.Prelude.{
  ℕ, zero, suc, ◌+◌, ◌%◌, ◌^◌, Bool, true, false, not, List, [], ◌∷◌, ◌++◌, Result, ok, err, assert,
  ensure, fatal, ◌>>=◌, ◌>>◌, ◌==◌, if◌then◌else◌,
}
use simplev.EventLoopThreadPool
use simplev.EventLoopThreadPool.{EventLoopThreadPool}

pub record Connection : Type 0 where
  pub id : ℕ
  pub sockfd : ℕ
  pub io_loop : ℕ

pub record TcpServer : Type 0 where
  pub loop_thread : ℕ
  pub thread_pool : EventLoopThreadPool
  pub started : Bool
  pub next_conn_id : ℕ  -- the 32 bits of an int
  pub connections : List Connection
  pub established : List Connection
  pub destroyed : List Connection
  pub closed : List ℕ
  pub listens : ℕ
  pub queued : List Connection  -- `removeConnectionInLoop` that waits in the server's loop

abbrev pub init : ℕ → TcpServer
init thread = record {
  loop_thread = thread;
  thread_pool = EventLoopThreadPool.init thread;
  started = false;
  next_conn_id = 1;
  connections = [];
  established = [];
  destroyed = [];
  closed = [];
  listens = 0;
  queued = [];
}

abbrev pub set_thread_num : ℕ → TcpServer → TcpServer
set_thread_num num_threads s = record s {
  thread_pool = EventLoopThreadPool.set_thread_num num_threads s.thread_pool;
}

abbrev start_pool : ℕ → (ℕ → ℕ) → TcpServer → Result TcpServer
start_pool thread start_loop s =
    if not s.started
    then (EventLoopThreadPool.start thread start_loop s.thread_pool >>= λ pool.
        ok (record s { started = true; thread_pool = pool }))
    else ok s

-- `acceptor_->listening()` is never true: `Acceptor::listen` does not set it. So each call listens.
unfoldable pub start : ℕ → (ℕ → ℕ) → TcpServer → Result TcpServer
start thread start_loop s = do
  s' ← start_pool thread start_loop s
  ok (record s' { listens = 1 + s'.listens })

-- `connections_.erase`, and how many connections of a name there are.
unfoldable pub erase : ℕ → List Connection → List Connection
erase id [] = []
erase id (c ∷ cs) = let rest = erase id cs in if c.id == id then rest else c ∷ rest

unfoldable pub occurrences : ℕ → List Connection → ℕ
occurrences id [] = 0
occurrences id (c ∷ cs) = (if c.id == id then 1 else 0) + occurrences id cs

-- `connections_[connName] = conn`
abbrev pub insert : Connection → List Connection → List Connection
insert c cs = c ∷ erase c.id cs

abbrev pub accept : ℕ → ℕ × EventLoopThreadPool → TcpServer → TcpServer
accept sockfd (io_loop, pool) s =
    let conn : Connection = record { id = s.next_conn_id; sockfd = sockfd; io_loop = io_loop } in
    record s {
      next_conn_id = (1 + s.next_conn_id) % 2 ^ 32;
      thread_pool = pool;
      connections = insert conn s.connections;
      established = s.established ++ conn ∷ [];
    }

-- `poll` says whether the poll of the socket succeeded.
unfoldable pub new_connection : ℕ → Bool → ℕ → TcpServer → Result TcpServer
unfolding erase
new_connection thread poll sockfd s = do
  ensure (s.loop_thread == thread) fatal
  if poll
      then (EventLoopThreadPool.get_next_loop thread s.thread_pool >>= λ r. ok (accept sockfd r s))
      else ok (record s { closed = s.closed ++ sockfd ∷ [] })

unfoldable pub remove_connection_in_loop : ℕ → Connection → TcpServer → Result TcpServer
unfolding erase occurrences
remove_connection_in_loop thread conn s = do
  ensure (s.loop_thread == thread) fatal
  assert (occurrences conn.id s.connections == 1)
  ok (record s { connections = erase conn.id s.connections; destroyed = s.destroyed ++ conn ∷ [] })

unfoldable pub remove_connection : ℕ → Connection → TcpServer → Result TcpServer
unfolding remove_connection_in_loop
remove_connection thread conn s =
    if s.loop_thread == thread
    then remove_connection_in_loop thread conn s
    else ok (record s { queued = s.queued ++ conn ∷ [] })
