-- ===== src/TcpServer/History.antt =====
-- Any history of a server of TcpServer.cc: connections that come and go, in any order.
use simplev.Prelude.{
  ℕ, ◌+◌, ◌-◌, ◌^◌, ◌<◌, length, ◌≡◌, refl, subst, ◌∙◌, ◌&&◌, Bool, true, false, not, List, [], ◌∷◌,
  ◌++◌, arith, ok, err, assertion, fatal, ◌>>=◌, ◌==◌, ltb, leb, if◌then◌else◌, >>=-eq-ok,
  ensure-true, ensure-false,
}
use simplev.EventLoopThreadPool
use simplev.EventLoopThreadPool.{EventLoopThreadPool}
use simplev.TcpServer.{
  TcpServer, Connection, init, set_thread_num, start, start_pool, erase, occurrences,
  new_connection, remove_connection_in_loop, remove_connection,
}
use simplev.TcpServer.Account.{
  IsBalanced, ok-injective, occurrences-erase, new_connection-IsBalanced,
  remove_connection_in_loop-IsBalanced,
}

-- A step that does not fail: a call of `start`, a new socket of the acceptor, a connection that is closed
-- in any thread, or a removal that was queued.
pub data Step (s : TcpServer) : TcpServer → Type 0 where
  starts :
      {s' : TcpServer} (thread : ℕ) (start_loop : ℕ → ℕ)
      → start thread start_loop s ≡ ok s'
      → Step s s'
  accepts :
      {s' : TcpServer} (thread sockfd : ℕ) (poll : Bool)
      → new_connection thread poll sockfd s ≡ ok s'
      → Step s s'
  removes :
      {s' : TcpServer} (thread : ℕ) (conn : Connection)
      → remove_connection thread conn s ≡ ok s'
      → Step s s'
  runs :
      {s' : TcpServer} (conn : Connection) (rest : List Connection)
      → s.queued ≡ conn ∷ rest
      → remove_connection_in_loop s.loop_thread conn (record s { queued = rest }) ≡ ok s'
      → Step s s'

pub data Reach (s : TcpServer) : TcpServer → Type 0 where
  here : Reach s s
  next : {s' s'' : TcpServer} → Reach s s' → Step s' s'' → Reach s s''

-- The queue of removals does not count.
set_queued :
    (conns : List Connection) (s : TcpServer)
    → IsBalanced s
    → IsBalanced (record s { queued = conns })
set_queued conns s b = record { given = b.given; account = b.account; numbers = b.numbers }

start-IsBalanced :
    (thread : ℕ) (start_loop : ℕ → ℕ) (s : TcpServer) {s' : TcpServer}
    → IsBalanced s
    → start thread start_loop s ≡ ok s'
    → IsBalanced s'
unfolding start
start-IsBalanced thread start_loop s b h =
    let (s₁, e, h') = >>=-eq-ok (start_pool thread start_loop s) _ h in
    subst IsBalanced (ok-injective h') (listening (pool (not s.started) e))
  where
    pool :
        (new : Bool) {s₁ : TcpServer}
        → (if new
            then (EventLoopThreadPool.start thread start_loop s.thread_pool >>= λ p.
                ok (record s { started = true; thread_pool = p }))
            else ok s)
          ≡ ok s₁
        → IsBalanced s₁
    pool true e =
        let (_, _, e') =
          >>=-eq-ok (EventLoopThreadPool.start thread start_loop s.thread_pool) _ e in
        subst IsBalanced (ok-injective e')
          (record { given = b.given; account = b.account; numbers = b.numbers })
    pool false e = subst IsBalanced (ok-injective e) b

    listening :
        {s₁ : TcpServer} → IsBalanced s₁ → IsBalanced (record s₁ { listens = 1 + s₁.listens })
    listening b₁ = record { given = b₁.given; account = b₁.account; numbers = b₁.numbers }

remove_connection-IsBalanced :
    (thread : ℕ) (conn : Connection) (s : TcpServer) {s' : TcpServer}
    → IsBalanced s
    → remove_connection thread conn s ≡ ok s'
    → IsBalanced s'
unfolding remove_connection
remove_connection-IsBalanced thread conn s b = by_thread (s.loop_thread == thread)
  where
    by_thread :
        (own : Bool) {s' : TcpServer}
        → (if own
            then remove_connection_in_loop thread conn s
            else ok (record s { queued = s.queued ++ conn ∷ [] }))
          ≡ ok s'
        → IsBalanced s'
    by_thread true h = remove_connection_in_loop-IsBalanced thread conn s b h
    by_thread false h = subst IsBalanced (ok-injective h) (set_queued _ s b)

Step-IsBalanced : {s s' : TcpServer} → IsBalanced s → Step s s' → IsBalanced s'
Step-IsBalanced {s} b (starts thread start_loop h) = start-IsBalanced thread start_loop s b h
Step-IsBalanced {s} b (accepts thread sockfd poll h) =
    new_connection-IsBalanced thread sockfd poll s b h
Step-IsBalanced {s} b (removes thread conn h) = remove_connection-IsBalanced thread conn s b h
Step-IsBalanced {s} b (runs conn rest split h) =
    remove_connection_in_loop-IsBalanced s.loop_thread conn (record s { queued = rest })
      (set_queued rest s b) h

Reach-IsBalanced : {s s' : TcpServer} → IsBalanced s → Reach s s' → IsBalanced s'
Reach-IsBalanced b here = b
Reach-IsBalanced b (next r st) = Step-IsBalanced (Reach-IsBalanced b r) st

init-IsBalanced : (thread n : ℕ) → IsBalanced (set_thread_num n (init thread))
unfolding occurrences
init-IsBalanced thread n = record {
  given = λ _ id. ground arith;
  account = λ _ id. omega arith;
  numbers = λ _. refl;
}

-- Whatever happens to a new server, with any number of threads, until the signed counter `nextConnId_`
-- overflows, that is with at most 2147483646 connections accepted: each number from one up to the
-- next one was given to exactly one connection, which was told that it is established once; and that
-- connection is either in the map, once, or was told that it is destroyed, once. No other number was
-- given.
pub Reach-occurrences :
    (thread n : ℕ) {s : TcpServer}
    → Reach (set_thread_num n (init thread)) s
    → length s.established < 2 ^ 31 - 1
    → (id : ℕ)
    → (occurrences id s.established ≡ (if leb 1 id && ltb id s.next_conn_id then 1 else 0))
      × (occurrences id s.established ≡ occurrences id s.connections + occurrences id s.destroyed)
Reach-occurrences thread n r few id =
    let b = Reach-IsBalanced (init-IsBalanced thread n) r in (b.given few id, b.account few id)

-- Removing a connection of the map in the server's thread: it is gone from the map and is told that it is
-- destroyed, the others stay, and removing it again fails an assertion.
pub remove_connection_in_loop_lem :
    (thread : ℕ) (conn : Connection) (s : TcpServer)
    → s.loop_thread ≡ thread
    → occurrences conn.id s.connections ≡ 1
    → (s' : TcpServer) × (remove_connection_in_loop thread conn s ≡ ok s')
      × (s'.destroyed ≡ s.destroyed ++ conn ∷ [])
      × ((id : ℕ)
          → occurrences id s'.connections
            ≡ (if id == conn.id then 0 else occurrences id s.connections))
      × (remove_connection_in_loop thread conn s' ≡ err assertion)
unfolding remove_connection_in_loop
remove_connection_in_loop_lem thread conn s at one =
    let here_ : (s.loop_thread == thread) ≡ true = ground arith in
    let found : (occurrences conn.id s.connections == 1) ≡ true = ground arith in
    let gone = occurrences-erase conn.id conn.id s.connections in
    let lost : (occurrences conn.id (erase conn.id s.connections) == 1) ≡ false =
      ground (arith, gone) in
    (
      record s { connections = erase conn.id s.connections; destroyed = s.destroyed ++ conn ∷ [] },
      ensure-true here_ fatal _ ∙ ensure-true found assertion _,
      refl,
      λ id. occurrences-erase id conn.id s.connections,
      ensure-true here_ fatal _ ∙ ensure-false lost assertion _,
    )
