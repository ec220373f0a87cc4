-- ===== src/TcpClient/Single.antt =====
-- The one connection of a client of TcpClient.cc, under each call and event.
use simplev.Prelude.{
  ℕ, ◌+◌, ◌-◌, ◌%◌, ◌^◌, ◌<◌, ◌≡◌, length-append, refl, ap, ◌∙◌, sym, subst, ◌&&◌, Bool, true,
  false, List, [], ◌∷◌, ◌++◌, arith, Result, ok, ◌>>=◌, inl, inr, >>=-eq-ok, ensure, assert, fatal,
  if◌then◌else◌, ◌==◌, some, none, Option, length, drop, count, count-++, ltb, leb, append-nil,
  drop-append_length, Option-cases,
}
use simplev.Connector
use simplev.Connector.{Connector, Errno, Functor, connected, connecting, is_disconnected}
use simplev.Connector.Handing.{
  IsQuiet, Quiets, QuietsOrHands, start_in_loop-Quiets, start-Quiets, ok-Quiets,
  handle_write-QuietsOrHands, handle_error-Quiets, run_functor-Quiets,
}
use simplev.TcpClient.{
  TcpClient, connect, connections, new_connection, is_connection, remove_connection, Event, timer,
  functor, write, error, connector_event, run_first, deliver, handle_event,
}

-- The signed counter `nextConnId_` has not overflowed.
abbrev pub IsCounted : TcpClient → Type 0
IsCounted c = length c.established < 2 ^ 31 - 1

-- Every number below the next one is the connection's, or was destroyed; while there is a
-- connection the connector does not make another; and no destructor has run.
pub record IsSingle (c : TcpClient) : Type 0 where
  pub given :
      IsCounted c
      → (id : ℕ) → count id c.established ≡ (if leb 1 id && ltb id c.next_conn_id then 1 else 0)
  pub account :
      (id : ℕ) → count id c.established ≡ count id (connections c.connection) + count id c.destroyed
  pub numbers : IsCounted c → c.next_conn_id ≡ 1 + length c.established
  pub up : (id : ℕ) → c.connection ≡ some id → c.connector.state ≡ connected
  pub none_left : (c.detached ≡ []) × (c.queued ≡ [])

ok-injective : {c c' : TcpClient} → ◌≡◌ {A = Result TcpClient} (ok c) (ok c') → c ≡ c'
ok-injective h = cc

-- A connector that is quiet makes no difference.
quiet-IsSingle :
    (c : TcpClient) (k : Connector)
    → IsQuiet c.connector k
    → IsSingle c
    → IsSingle (record c { connector = k })
quiet-IsSingle c k q s = record {
  given = s.given;
  account = s.account;
  numbers = s.numbers;
  none_left = s.none_left;
  up = λ id e. q.stays (s.up id e);
}

pub connect-IsSingle :
    (thread sockfd : ℕ) (errno : Errno) (c c' : TcpClient)
    → IsSingle c
    → connect thread sockfd errno c ≡ ok c'
    → IsSingle c'
unfolding connect
connect-IsSingle thread sockfd errno c c' s h =
    let (k, started, e) = >>=-eq-ok (Connector.start thread sockfd errno c.connector) _ h in
    let q = start-Quiets thread sockfd errno c.connector k started in
    subst IsSingle (ok-injective e) (record {
      given = s.given;
      account = s.account;
      numbers = s.numbers;
      none_left = s.none_left;
      up = λ id e'. q.stays (s.up id e');
    })

connector_event-QuietsOrHands :
    (thread : ℕ) (event : Event) (k : Connector) → QuietsOrHands k (connector_event thread event k)
connector_event-QuietsOrHands thread (timer sockfd errno) k k' h =
    inl (start_in_loop-Quiets thread sockfd errno k k' h)
connector_event-QuietsOrHands thread (functor sockfd errno) k k' h = inl (first k.queued k' h)
  where
    first : (fs : List Functor) → Quiets k (run_first thread sockfd errno fs k)
    first [] k' h = ok-Quiets k k (record { kept = refl; stays = λ up. up }) k' h
    first (f ∷ rest) k' h =
        let q = run_functor-Quiets thread sockfd errno f (record k { queued = rest }) k' h in
        record { kept = q.kept; stays = q.stays }
connector_event-QuietsOrHands thread (write failed self) k k' h =
    handle_write-QuietsOrHands thread failed self k k' h
connector_event-QuietsOrHands thread error k k' h = inl (handle_error-Quiets thread k k' h)

-- A new connection, where there is none.
new_connection-IsSingle :
    (c : TcpClient) (k : Connector)
    → k.state ≡ connected
    → c.connection ≡ none
    → IsSingle c
    → IsSingle (record c {
      connector = k;
      next_conn_id = (1 + c.next_conn_id) % 2 ^ 32;
      connection = some c.next_conn_id;
      established = c.established ++ c.next_conn_id ∷ [];
    })
new_connection-IsSingle c k up free s = record {
  given = λ few id.
      let g = s.given (fewer few) id in
      let n = s.numbers (fewer few) in
      let w = unwrapped few in
      let e = count-++ id c.established (c.next_conn_id ∷ []) in ground (arith, g, e, w, n);
  account = λ id.
      let a = s.account id in
      let e = count-++ id c.established (c.next_conn_id ∷ []) in
      let none_yet : count id (connections c.connection) ≡ 0 =
        ap (λ o. count id (connections o)) free in
      omega (arith, a, e, none_yet);
  numbers = λ few.
      let n = s.numbers (fewer few) in
      let w = unwrapped few in
      let l = length-append c.established (c.next_conn_id ∷ []) in omega (arith, n, w, l);
  up = λ id e. up;
  none_left = s.none_left;
}
  where
    fewer : length (c.established ++ c.next_conn_id ∷ []) < 2 ^ 31 - 1 → IsCounted c
    fewer few = let l = length-append c.established (c.next_conn_id ∷ []) in omega (arith, l, few)

    unwrapped :
        length (c.established ++ c.next_conn_id ∷ []) < 2 ^ 31 - 1
        → (1 + c.next_conn_id) % 2 ^ 32 ≡ 1 + c.next_conn_id
    unwrapped few =
        let l = length-append c.established (c.next_conn_id ∷ []) in
        let n = s.numbers (fewer few) in omega (arith, l, few, n)

-- No connection while an attempt is under way.
no_connection : (c : TcpClient) → IsSingle c → c.connector.state ≡ connecting → c.connection ≡ none
no_connection c s trying = elim (Option-cases c.connection) [
  | inl free ↦ free
  | inr (id, has) ↦ absurd (cc (s.up id has))
]

-- The client with the connector `k` and a new connection.
abbrev with_connection : TcpClient → Connector → TcpClient
with_connection c k = record c {
  connector = k;
  next_conn_id = (1 + c.next_conn_id) % 2 ^ 32;
  connection = some c.next_conn_id;
  established = c.established ++ c.next_conn_id ∷ [];
}

deliver_none :
    (c : TcpClient) (k : Connector) (fds : List ℕ)
    → fds ≡ []
    → deliver c.loop_thread fds (record c { connector = k }) ≡ ok (record c { connector = k })
unfolding deliver
deliver_none c k fds e = ap (λ t. deliver c.loop_thread t (record c { connector = k })) e

deliver_one :
    (c : TcpClient) (k : Connector) (fds : List ℕ) (sockfd : ℕ)
    → fds ≡ sockfd ∷ []
    → deliver c.loop_thread fds (record c { connector = k }) ≡ ok (with_connection c k)
unfolding deliver new_connection
deliver_one c k fds sockfd e =
    let here_ : (c.loop_thread == c.loop_thread) ≡ true = ground arith in
    ap (λ t. deliver c.loop_thread t (record c { connector = k })) e ∙ rw here_ refl

pub handle_event-IsSingle :
    (event : Event) (c c' : TcpClient)
    → IsSingle c
    → handle_event c.loop_thread event c ≡ ok c'
    → IsSingle c'
unfolding handle_event
handle_event-IsSingle event c c' s h =
    let (k, ran, e) = >>=-eq-ok (connector_event c.loop_thread event c.connector) _ h in
    elim (connector_event-QuietsOrHands c.loop_thread event c.connector k ran) [
      | inl q ↦
          let none_new : drop (length c.connector.handed) k.handed ≡ [] =
            ap (drop (length c.connector.handed)) (q.kept ∙ sym (append-nil c.connector.handed))
            ∙ drop-append_length (length c.connector.handed) c.connector.handed [] refl in
          subst IsSingle (ok-injective (sym (deliver_none c k _ none_new) ∙ e))
            (quiet-IsSingle c k q s)
      | inr t ↦
          let one_new : drop (length c.connector.handed) k.handed ≡ t.sockfd ∷ [] =
            ap (drop (length c.connector.handed)) t.more
            ∙ drop-append_length (length c.connector.handed) c.connector.handed (t.sockfd ∷ [])
                refl in
          subst IsSingle (ok-injective (sym (deliver_one c k _ t.sockfd one_new) ∙ e))
            (new_connection-IsSingle c k t.after (no_connection c s t.before) s)
    ]

-- The connection is gone from the client, and destroyed.
abbrev pub without_connection : TcpClient → ℕ → TcpClient
without_connection c id = record c { connection = none; destroyed = c.destroyed ++ id ∷ [] }

is_connection-some : (o : Option ℕ) (id : ℕ) → is_connection o id ≡ true → o ≡ some id
is_connection-some none id h = cc
is_connection-some (some id') id h = ap some (ground arith)

without_connection-IsSingle :
    (c : TcpClient) (id : ℕ) (k : Connector)
    → c.connection ≡ some id
    → IsSingle c
    → IsSingle (record (without_connection c id) { connector = k })
without_connection-IsSingle c id k has s = record {
  given = s.given;
  account = λ i.
      let a = s.account i in
      let e = count-++ i c.destroyed (id ∷ []) in
      let one : count i (connections c.connection) ≡ count i (id ∷ []) =
        ap (λ o. count i (connections o)) has in
      omega (arith, a, e, one);
  numbers = s.numbers;
  none_left = s.none_left;
  up = λ i e. cc;
}

pub remove_connection-IsSingle :
    (sockfd : ℕ) (errno : Errno) (id : ℕ) (c c' : TcpClient)
    → IsSingle c
    → remove_connection c.loop_thread sockfd errno id c ≡ ok c'
    → IsSingle c'
unfolding remove_connection
remove_connection-IsSingle sockfd errno id c c' s h =
    let (_, _, h₁) = >>=-eq-ok (ensure (c.loop_thread == c.loop_thread) fatal) _ h in
    let (_, found, h₂) = >>=-eq-ok (assert (is_connection c.connection id)) _ h₁ in
    by_wish (c.connect && c.retry) (is_connection-some c.connection id (holds _ found)) c' h₂
  where
    holds : (b : Bool) → assert b ≡ ok tt → b ≡ true
    holds true e = refl
    holds false e = cc

    by_wish :
        (b : Bool)
        → c.connection ≡ some id
        → (c' : TcpClient)
        → (if b
            then (Connector.restart c.loop_thread sockfd errno c.connector >>= λ k.
                ok (record (without_connection c id) { connector = k }))
            else ok (without_connection c id))
          ≡ ok c'
        → IsSingle c'
    by_wish true has c' h =
        let (k, _, e) = >>=-eq-ok (Connector.restart c.loop_thread sockfd errno c.connector) _ h in
        subst IsSingle (ok-injective e) (without_connection-IsSingle c id k has s)
    by_wish false has c' h =
        subst IsSingle (ok-injective h) (without_connection-IsSingle c id c.connector has s)
