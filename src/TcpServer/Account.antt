-- ===== src/TcpServer/Account.antt =====
-- Where the connections of TcpServer.cc are: in the map, or destroyed, once.
use simplev.Prelude.{
  ℕ, ◌+◌, ◌-◌, ◌%◌, ◌^◌, ◌≡◌, ◌<◌, length, length-append, ap, subst, ◌∙◌, ◌&&◌, Bool, true, false,
  List, [], ◌∷◌, ◌++◌, arith, Result, ok, fatal, ensure, assert, ◌>>=◌, ◌==◌, ltb, leb,
  if◌then◌else◌, >>=-eq-ok, Bool-cases, inl, inr,
}
use simplev.EventLoopThreadPool
use simplev.EventLoopThreadPool.{EventLoopThreadPool}
use simplev.TcpServer.{
  TcpServer, Connection, erase, occurrences, accept, new_connection, remove_connection_in_loop,
}

-- The signed counter `nextConnId_` has not overflowed.
abbrev pub IsCounted : TcpServer → Type 0
IsCounted s = length s.established < 2 ^ 31 - 1

-- Every number below the next one was given to one connection, which is in the map or destroyed.
pub record IsBalanced (s : TcpServer) : Type 0 where
  pub given :
      IsCounted s
      → (id : ℕ)
      → occurrences id s.established ≡ (if leb 1 id && ltb id s.next_conn_id then 1 else 0)
  pub account :
      IsCounted s
      → (id : ℕ)
      → occurrences id s.established ≡ occurrences id s.connections + occurrences id s.destroyed
  pub numbers : IsCounted s → s.next_conn_id ≡ 1 + length s.established

pub ok-injective : {s s' : TcpServer} → ◌≡◌ {A = Result TcpServer} (ok s) (ok s') → s ≡ s'
ok-injective h = cc

occurrences-++ :
    (id : ℕ) (xs ys : List Connection)
    → occurrences id (xs ++ ys) ≡ occurrences id xs + occurrences id ys
unfolding occurrences
occurrences-++ id [] ys = omega arith
occurrences-++ id (x ∷ xs) ys = let ih = occurrences-++ id xs ys in omega (arith, ih)

pub occurrences-erase :
    (id id' : ℕ) (cs : List Connection)
    → occurrences id (erase id' cs) ≡ (if id == id' then 0 else occurrences id cs)
unfolding occurrences erase
occurrences-erase id id' [] = ground arith
occurrences-erase id id' (c ∷ cs) = let ih = occurrences-erase id id' cs in ground (arith, ih)

accept-IsBalanced :
    (sockfd : ℕ) (r : ℕ × EventLoopThreadPool) (s : TcpServer)
    → IsBalanced s
    → IsBalanced (accept sockfd r s)
unfolding occurrences
accept-IsBalanced sockfd (io_loop, pool) s b = record {
  given = λ few id.
      let g = b.given (fewer few) id in
      let n = b.numbers (fewer few) in
      let e = occurrences-++ id s.established (conn ∷ []) in
      let w = unwrapped few in ground (arith, g, e, w, n);
  account = λ few id.
      let g = b.given (fewer few) id in
      let a = b.account (fewer few) id in
      let e = occurrences-++ id s.established (conn ∷ []) in
      let f = occurrences-erase id s.next_conn_id s.connections in ground (arith, g, a, e, f);
  numbers = λ few.
      let n = b.numbers (fewer few) in
      let w = unwrapped few in
      let l = length-append s.established (conn ∷ []) in omega (arith, n, w, l);
}
  where
    conn : Connection
    conn = record { id = s.next_conn_id; sockfd = sockfd; io_loop = io_loop }

    fewer : IsCounted (accept sockfd (io_loop, pool) s) → IsCounted s
    fewer few = let l = length-append s.established (conn ∷ []) in omega (arith, l, few)

    unwrapped :
        IsCounted (accept sockfd (io_loop, pool) s)
        → (1 + s.next_conn_id) % 2 ^ 32 ≡ 1 + s.next_conn_id
    unwrapped few =
        let l = length-append s.established (conn ∷ []) in
        let n = b.numbers (fewer few) in omega (arith, l, few, n)

erased-IsBalanced :
    (conn : Connection) (s : TcpServer)
    → (occurrences conn.id s.connections == 1) ≡ true
    → IsBalanced s
    → IsBalanced (record s {
      connections = erase conn.id s.connections;
      destroyed = s.destroyed ++ conn ∷ [];
    })
unfolding occurrences
erased-IsBalanced conn s one b = record {
  given = b.given;
  account = λ few id.
      let a = b.account few id in
      let e = occurrences-++ id s.destroyed (conn ∷ []) in
      let f = occurrences-erase id conn.id s.connections in
      elim (Bool-cases (id == conn.id)) [
        | inl t ↦
            let same : id ≡ conn.id = ground arith in
            let o : occurrences conn.id s.connections ≡ 1 = ground (arith, one) in
            let o' : occurrences id s.connections ≡ 1 =
              ap (λ (i : ℕ). occurrences i s.connections) same ∙ o in
            ground (arith, a, e, f, o', t)
        | inr t ↦ ground (arith, a, e, f, t)
      ];
  numbers = b.numbers;
}

pub new_connection-IsBalanced :
    (thread sockfd : ℕ) (poll : Bool) (s : TcpServer) {s' : TcpServer}
    → IsBalanced s
    → new_connection thread poll sockfd s ≡ ok s'
    → IsBalanced s'
unfolding new_connection
new_connection-IsBalanced thread sockfd poll s b h =
    let (_, _, h') = >>=-eq-ok (ensure (s.loop_thread == thread) fatal) _ h in polled poll h'
  where
    polled :
        (poll : Bool) {s' : TcpServer}
        → (if poll
            then (EventLoopThreadPool.get_next_loop thread s.thread_pool >>= λ r.
                ok (accept sockfd r s))
            else ok (record s { closed = s.closed ++ sockfd ∷ [] }))
          ≡ ok s'
        → IsBalanced s'
    polled true h' =
        let (r, _, e) = >>=-eq-ok (EventLoopThreadPool.get_next_loop thread s.thread_pool) _ h' in
        subst IsBalanced (ok-injective e) (accept-IsBalanced sockfd r s b)
    polled false h' =
        subst IsBalanced (ok-injective h')
          (record { given = b.given; account = b.account; numbers = b.numbers })

pub remove_connection_in_loop-IsBalanced :
    (thread : ℕ) (conn : Connection) (s : TcpServer) {s' : TcpServer}
    → IsBalanced s
    → remove_connection_in_loop thread conn s ≡ ok s'
    → IsBalanced s'
unfolding remove_connection_in_loop
remove_connection_in_loop-IsBalanced thread conn s b h =
    let (_, _, h') = >>=-eq-ok (ensure (s.loop_thread == thread) fatal) _ h in
    let (_, one, e) = >>=-eq-ok (assert (occurrences conn.id s.connections == 1)) _ h' in
    subst IsBalanced (ok-injective e) (erased-IsBalanced conn s (ground (arith, one)) b)
