-- ===== src/TcpClient/History.antt =====
-- Any history of a client of TcpClient.cc and of its connections.
use simplev.Prelude.{
  ℕ, ◌+◌, ◌-◌, ◌^◌, ◌<◌, Bool, List, [], ◌∷◌, ◌++◌, length, ◌≡◌, ◌≤◌, refl, ap, ◌∙◌, ◌&&◌, true,
  false, arith, ok, err, assertion, ◌>>=◌, ensure-true, if-false, fatal, if◌then◌else◌, ◌==◌, some,
  none, Option, count, ltb, leb,
}
use simplev.Connector
use simplev.Connector.{
  Connector, Errno, Functor, connected, connecting, is_disconnected, is_connecting,
}
use simplev.TcpClient.{
  TcpClient, init, enable_retry, connect, connections, disconnect, stop, is_connection,
  remove_connection, Event, handle_event, leave, destroy,
}
use simplev.TcpClient.Single.{
  IsSingle, connect-IsSingle, handle_event-IsSingle, without_connection, remove_connection-IsSingle,
}

-- A step that does not fail: a call of a method in any thread, an event of the connector, or the end of
-- the connection `id`.
pub data Step (c : TcpClient) : TcpClient → Type 0 where
  connects :
      {c' : TcpClient} (thread sockfd : ℕ) (errno : Errno)
      → connect thread sockfd errno c ≡ ok c'
      → Step c c'
  disconnects : Step c (disconnect c)
  stops : Step c (stop c)
  enables_retry : Step c (enable_retry c)
  handles :
      {c' : TcpClient} (event : Event) → handle_event c.loop_thread event c ≡ ok c' → Step c c'
  closes :
      {c' : TcpClient} (sockfd : ℕ) (errno : Errno) (id : ℕ)
      → remove_connection c.loop_thread sockfd errno id c ≡ ok c'
      → Step c c'

pub data Reach (c : TcpClient) : TcpClient → Type 0 where
  here : Reach c c
  next : {c' c'' : TcpClient} → Reach c c' → Step c' c'' → Reach c c''

Step-IsSingle : {c c' : TcpClient} → IsSingle c → Step c c' → IsSingle c'
unfolding disconnect stop Connector.stop
Step-IsSingle {c} {c'} s (connects thread sockfd errno h) =
    connect-IsSingle thread sockfd errno c c' s h
Step-IsSingle {c} s disconnects = record {
  given = s.given;
  account = s.account;
  numbers = s.numbers;
  none_left = s.none_left;
  up = s.up;
}
Step-IsSingle {c} s stops = record {
  given = s.given;
  account = s.account;
  numbers = s.numbers;
  none_left = s.none_left;
  up = s.up;
}
Step-IsSingle {c} s enables_retry = record {
  given = s.given;
  account = s.account;
  numbers = s.numbers;
  none_left = s.none_left;
  up = s.up;
}
Step-IsSingle {c} {c'} s (handles event h) = handle_event-IsSingle event c c' s h
Step-IsSingle {c} {c'} s (closes sockfd errno id h) =
    remove_connection-IsSingle sockfd errno id c c' s h

Reach-IsSingle : {c c' : TcpClient} → IsSingle c → Reach c c' → IsSingle c'
Reach-IsSingle s here = s
Reach-IsSingle s (next r st) = Step-IsSingle (Reach-IsSingle s r) st

init-IsSingle : (thread : ℕ) → IsSingle (init thread)
unfolding init
init-IsSingle thread = record {
  given = λ _ id. ground arith;
  account = λ id. omega arith;
  numbers = λ _. refl;
  none_left = (refl, refl);
  up = λ id e. cc;
}

some_of_count : (o : Option ℕ) (id : ℕ) → 1 ≤ count id (connections o) → o ≡ some id
some_of_count none id h = absurd (omega (arith, h))
some_of_count (some id') id h = ap some (ground arith)

-- What the destructor leaves: the client's connection, if any, goes to `detail::removeConnection`, and the
-- connector goes on only for the connection.
leave_lem :
    (thread id : ℕ) (o : Option ℕ) (c : TcpClient)
    → (c.detached ≡ []) × (c.queued ≡ [])
    → (count id ((leave thread o c).detached ++ (leave thread o c).queued)
        ≡ count id (connections o))
      × ((leave thread o c).established ≡ c.established)
      × ((leave thread o c).destroyed ≡ c.destroyed)
      × (o ≡ none → (leave thread o c).connector.connect ≡ false)
unfolding Connector.stop
leave_lem thread id none c (d, q) =
    (ap (λ (t : List ℕ). count id (t ++ c.queued)) d ∙ ap (count id) q, refl, refl, λ _. refl)
leave_lem thread id (some id') c (d, q) = by_thread (c.loop_thread == thread)
  where
    by_thread :
        (own : Bool)
        → let l : TcpClient =
            if own
            then record c { detached = c.detached ++ id' ∷ [] }
            else record c { queued = c.queued ++ id' ∷ [] } in
          (count id (l.detached ++ l.queued) ≡ count id (id' ∷ []))
          × (l.established ≡ c.established)
          × (l.destroyed ≡ c.destroyed)
          × (some id' ≡ none → l.connector.connect ≡ false)
    by_thread true = (
      ap (λ (t : List ℕ). count id ((t ++ id' ∷ []) ++ c.queued)) d
          ∙ ap (λ (t : List ℕ). count id (id' ∷ t)) q,
      refl,
      refl,
      λ h. absurd cc,
    )
    by_thread false = (
      ap (λ (t : List ℕ). count id (t ++ (c.queued ++ id' ∷ []))) d
          ∙ ap (λ (t : List ℕ). count id (t ++ id' ∷ [])) q,
      refl,
      refl,
      λ h. absurd cc,
    )

-- Whatever happens to a new client, in any order and with any answers of the kernel, and then in its
-- destructor, in any thread: until the signed counter `nextConnId_` overflows, that is with at most
-- 2147483646 connections made, each number from one up to the next one was given to one
-- connection, and no other number. Each of these is the client's connection or was destroyed, once, and
-- so all but at most one were destroyed; a connection that was not destroyed is the one that
-- `removeConnection` asserts. The destructor leaves the client's connection, and no other, to
-- `detail::removeConnection`, once; and without a connection it stops the connector.
pub Reach-count :
    (thread : ℕ) {c : TcpClient}
    → Reach (init thread) c
    → length c.established < 2 ^ 31 - 1
    → (by id : ℕ)
    → (count id c.established ≡ (if leb 1 id && ltb id c.next_conn_id then 1 else 0))
      × (count id c.established ≡ count id (connections c.connection) + count id c.destroyed)
      × (1 ≤ count id c.established
          → count id c.destroyed ≡ 0
          → is_connection c.connection id ≡ true)
      × (let d = destroy by c in
          (count id d.established ≡ count id (d.detached ++ d.queued) + count id d.destroyed)
          × (c.connection ≡ none → d.connector.connect ≡ false))
unfolding destroy
Reach-count thread {c} r few by id =
    let s = Reach-IsSingle (init-IsSingle thread) r in
    let a = s.account id in
    let (kept, same_established, same_destroyed, stopped) =
      leave_lem by id c.connection c s.none_left in
    (
      s.given few id,
      a,
      λ open_ alive.
          let has = some_of_count c.connection id (omega (arith, a, open_, alive)) in
          ap (λ o. is_connection o id) has ∙ ground arith,
      (
        let e = ap (count id) same_established in
            let e' = ap (count id) same_destroyed in omega (arith, a, kept, e, e'),
        stopped,
      ),
    )

-- A client that removes its connection has no attempt to connect under way, so that it may call `restart`
-- as the steps of Connector/Account.antt do.
connection-is_connecting :
    (thread id : ℕ) {c : TcpClient}
    → Reach (init thread) c
    → c.connection ≡ some id
    → is_connecting c.connector.state ≡ false
connection-is_connecting thread id r has =
    ap is_connecting ((Reach-IsSingle (init-IsSingle thread) r).up id has)

-- The client's connection is lost in the loop's thread, and the client does not retry. Then another
-- `connect` in that thread fails the assertion of `startInLoop`, since the connector is still connected,
-- whatever happened to the client before.
pub remove_connection-connect :
    (thread : ℕ) {c : TcpClient} (sockfd id : ℕ) (errno : Errno)
    → Reach (init thread) c
    → c.connection ≡ some id
    → c.loop_thread ≡ thread
    → c.connector.loop_thread ≡ thread
    → (c.connect && c.retry) ≡ false
    → (remove_connection thread sockfd errno id c ≡ ok (without_connection c id))
      × (connect thread sockfd errno (without_connection c id) ≡ err assertion)
unfolding remove_connection connect Connector.start Connector.start_in_loop
remove_connection-connect thread {c} sockfd id errno r has at at' no_retry =
    let here_ : (c.loop_thread == thread) ≡ true = ground arith in
    let here' : (c.connector.loop_thread == thread) ≡ true = ground arith in
    let found : is_connection c.connection id ≡ true =
      ap (λ o. is_connection o id) has ∙ ground arith in
    let busy : is_disconnected c.connector.state ≡ false =
      ap is_disconnected ((Reach-IsSingle (init-IsSingle thread) r).up id has) in
    (
      ensure-true here_ fatal _
          ∙ (ensure-true found assertion _
              ∙ if-false
                  (Connector.restart thread sockfd errno c.connector >>= λ k.
                    ok (record (without_connection c id) { connector = k }))
                  (ok (without_connection c id)) no_retry),
      rw (here', busy) refl,
    )
