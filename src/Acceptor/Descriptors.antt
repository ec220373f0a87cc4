-- ===== src/Acceptor/Descriptors.antt =====
-- Where the descriptors that Acceptor.cc gets are.
use simplev.Prelude.{
  ℕ, ◌+◌, ◌≡◌, refl, Bool, true, false, [], ◌∷◌, ◌++◌, Option, none, some, count, count-++, arith,
  ok, ensure-true, fatal, ◌==◌, if◌then◌else◌,
}
use simplev.Channel
use simplev.Acceptor.{
  Acceptor, AcceptReply, accepted, emfile, other_errno, descriptors, got, close, take_connection,
  drop_connection, accept_reply, handle_read, destroy,
}

-- Every descriptor the acceptor got is its idle one, closed, or handed on, once.
unfoldable pub IsBalanced : Acceptor → Type 0
IsBalanced a =
    (fd : ℕ)
    → count fd a.opened ≡ count fd (descriptors a.idle_fd) + (count fd a.closed + count fd a.handed)

take_connection-IsBalanced :
    (x : ℕ) (a : Acceptor) → IsBalanced a → IsBalanced (take_connection x a)
unfolding IsBalanced
take_connection-IsBalanced x a b fd = by_callback a.has_callback
  where
    o : count fd (a.opened ++ x ∷ []) ≡ count fd a.opened + count fd (x ∷ [])
    o = count-++ fd a.opened (x ∷ [])

    by_callback :
        (has : Bool)
        → let a' = got (some x) a in
          let d = if has then record a' { handed = a.handed ++ x ∷ [] } else close (some x) a' in
          count fd d.opened
          ≡ count fd (descriptors d.idle_fd) + (count fd d.closed + count fd d.handed)
    by_callback true =
        let h = count-++ fd a.handed (x ∷ []) in let b' = b fd in omega (arith, o, h, b')
    by_callback false =
        let c = count-++ fd a.closed (x ∷ []) in let b' = b fd in omega (arith, o, c, b')

drop_connection-IsBalanced :
    (second reopened : Option ℕ) (a : Acceptor)
    → IsBalanced a
    → IsBalanced (drop_connection second reopened a)
unfolding IsBalanced
drop_connection-IsBalanced second reopened a b fd =
    let o₁ = count-++ fd a.opened (descriptors second) in
    let o₂ = count-++ fd (a.opened ++ descriptors second) (descriptors reopened) in
    let c₁ = count-++ fd a.closed (descriptors a.idle_fd) in
    let c₂ = count-++ fd (a.closed ++ descriptors a.idle_fd) (descriptors second) in
    let b' = b fd in omega (arith, o₁, o₂, c₁, c₂, b')

-- `handleRead` in the loop's thread, whatever the calls of the system answer: descriptors stay accounted
-- for. An accepted connection is handed on if there is a callback, and closed otherwise. When
-- no descriptor is left, the idle one and the connection that takes its place are closed, in this order,
-- and the acceptor holds the one it opened again.
pub handle_read-IsBalanced :
    (thread : ℕ) (reply : AcceptReply) (second reopened : Option ℕ) (a : Acceptor)
    → a.loop_thread ≡ thread
    → IsBalanced a
    → (a' : Acceptor) × (handle_read thread reply second reopened a ≡ ok a')
      × IsBalanced a'
      × ((fd : ℕ) → reply ≡ accepted fd → a.has_callback ≡ true → a'.handed ≡ a.handed ++ fd ∷ [])
      × ((fd : ℕ) → reply ≡ accepted fd → a.has_callback ≡ false → a'.closed ≡ a.closed ++ fd ∷ [])
      × (reply ≡ emfile
          → (a'.closed ≡ (a.closed ++ descriptors a.idle_fd) ++ descriptors second)
            × (a'.idle_fd ≡ reopened))
unfolding handle_read
handle_read-IsBalanced thread reply second reopened a at b =
    let here_ : (a.loop_thread == thread) ≡ true = ground arith in
    (
      accept_reply reply second reopened a,
      ensure-true here_ fatal _,
      balanced reply,
      λ fd e has. rw e (rw has refl),
      λ fd e has. rw e (rw has refl),
      λ e. rw e (refl, refl),
    )
  where
    balanced : (r : AcceptReply) → IsBalanced (accept_reply r second reopened a)
    balanced (accepted fd) = take_connection-IsBalanced fd a b
    balanced emfile = drop_connection-IsBalanced second reopened a b
    balanced other_errno = b

-- The destructor in the loop's thread stops the channel and closes the idle descriptor: when descriptors
-- were accounted for, each that the acceptor ever got is then closed or was handed on, once.
pub destroy_lem :
    (thread : ℕ) (a : Acceptor)
    → a.accept_channel.loop_thread ≡ thread
    → IsBalanced a
    → (a' : Acceptor) × (destroy thread a ≡ ok a')
      × (a'.accept_channel.active ≡ false)
      × ((fd : ℕ) → count fd a'.opened ≡ count fd a'.closed + count fd a'.handed)
unfolding destroy Channel.remove Channel.stop IsBalanced
destroy_lem thread a at b =
    let here_ : (a.accept_channel.loop_thread == thread) ≡ true = ground arith in
    (
      record (close a.idle_fd a) {
        accept_channel = record a.accept_channel {
          reading = false;
          writing = false;
          active = false;
        };
        idle_fd = none;
      },
      rw here_ refl,
      refl,
      λ fd.
          let c = count-++ fd a.closed (descriptors a.idle_fd) in
          let b' = b fd in omega (arith, c, b'),
    )
