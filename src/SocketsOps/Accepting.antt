-- ===== src/SocketsOps/Accepting.antt =====
-- `Acceptor::handleRead` with every errno that `Socket::accept` may come to.
use simplev.Prelude.{
  ℕ, ◌≡◌, ◌≢◌, refl, sym, ap, ◌⊎◌, inl, inr, List, [], ◌∷◌, Bool, false, if◌then◌else◌, ◌∙◌, true,
  ◌++◌, arith, Option, some, Result, ok, err, ensure, ensure-true, fatal, ◌>>=◌, ◌>>◌, ◌==◌,
}
use simplev.Acceptor
use simplev.Acceptor.{
  Acceptor, AcceptReply, accepted, emfile, other_errno, accept_reply, take_connection,
}
use simplev.Acceptor.Descriptors.{IsBalanced, handle_read-IsBalanced}
use simplev.SocketsOps.{
  Errno, Reply, returned, failed, Kind, expected, unexpected, unknown, kind, accept, after_error,
}

-- What `handleRead` makes of the answer: `connfd >= 0`, and `errno == EMFILE`.
abbrev pub seen : Reply → AcceptReply
seen (returned connfd) = accepted connfd
seen (failed Errno.emfile) = emfile
seen (failed _) = other_errno

-- `accept4` is what the system call answers; the others are as in `Acceptor.handle_read`.
unfoldable pub handle_read : ℕ → Reply → Option ℕ → Option ℕ → Acceptor → Result Acceptor
unfolding accept
handle_read thread accept4 second reopened a = do
  ensure (a.loop_thread == thread) fatal
  r ← accept accept4
  Acceptor.handle_read thread (seen r) second reopened a

is_handled :
    (thread : ℕ) (errno : Errno) (second reopened : Option ℕ) (a : Acceptor)
    → a.loop_thread ≡ thread
    → kind errno ≡ expected
    → handle_read thread (failed errno) second reopened a
      ≡ Acceptor.handle_read thread (seen (failed errno)) second reopened a
unfolding handle_read
is_handled thread errno second reopened a at e =
    let here_ : (a.loop_thread == thread) ≡ true = ground (arith, at) in
    ensure-true here_ fatal _
    ∙ ap (λ k. after_error k errno >>= λ r. Acceptor.handle_read thread (seen r) second reopened a)
        e

is_fatal :
    (thread : ℕ) (errno : Errno) (second reopened : Option ℕ) (a : Acceptor)
    → kind errno ≢ expected
    → a.loop_thread ≡ thread
    → handle_read thread (failed errno) second reopened a ≡ err fatal
unfolding handle_read
is_fatal thread errno second reopened a e at =
    let here_ : (a.loop_thread == thread) ≡ true = ground (arith, at) in
    ensure-true here_ fatal _ ∙ by_kind (kind errno) e
  where
    by_kind :
        (k : Kind)
        → k ≢ expected
        → (after_error k errno >>= λ r. Acceptor.handle_read thread (seen r) second reopened a)
          ≡ err fatal
    by_kind expected e = absurd (e refl)
    by_kind unexpected e = refl
    by_kind unknown e = refl

-- The errors of one connection or of one call, and EMFILE, after which a server can accept again.
abbrev pub survivable : List Errno
survivable =
    Errno.emfile ∷ Errno.eagain ∷ Errno.econnaborted ∷ Errno.eintr ∷ Errno.eproto ∷ Errno.eperm ∷ []

abbrev pub IsAmong : Errno → List Errno → Type 0
IsAmong e [] = ⊥
IsAmong e (x ∷ xs) = (e ≡ x) ⊎ IsAmong e xs

expected-IsAmong : (e : Errno) → IsAmong e survivable → kind e ≡ expected
unfolding kind
expected-IsAmong e (inl h) = ap kind h
expected-IsAmong e (inr (inl h)) = ap kind h
expected-IsAmong e (inr (inr (inl h))) = ap kind h
expected-IsAmong e (inr (inr (inr (inl h)))) = ap kind h
expected-IsAmong e (inr (inr (inr (inr (inl h))))) = ap kind h
expected-IsAmong e (inr (inr (inr (inr (inr (inl h)))))) = ap kind h
expected-IsAmong e (inr (inr (inr (inr (inr (inr h)))))) = absurd h

IsAmong-expected : (e : Errno) → kind e ≡ expected → IsAmong e survivable
unfolding kind
IsAmong-expected Errno.emfile h = inl refl
IsAmong-expected Errno.eagain h = inr (inl refl)
IsAmong-expected Errno.econnaborted h = inr (inr (inl refl))
IsAmong-expected Errno.eintr h = inr (inr (inr (inl refl)))
IsAmong-expected Errno.eproto h = inr (inr (inr (inr (inl refl))))
IsAmong-expected Errno.eperm h = inr (inr (inr (inr (inr (inl refl)))))
IsAmong-expected Errno.ebadf h = cc
IsAmong-expected Errno.efault h = cc
IsAmong-expected Errno.einval h = cc
IsAmong-expected Errno.enfile h = cc
IsAmong-expected Errno.enobufs h = cc
IsAmong-expected Errno.enomem h = cc
IsAmong-expected Errno.enotsock h = cc
IsAmong-expected Errno.eopnotsupp h = cc
IsAmong-expected (Errno.other_errno n) h = cc

-- One failed `accept`: the errno, and what the calls after EMFILE answer.
pub record Failure : Type 0 where
  pub errno : Errno
  pub second : Option ℕ
  pub reopened : Option ℕ

-- One after another, as the listening socket stays readable.
unfoldable pub handle_reads : ℕ → List Failure → Acceptor → Result Acceptor
handle_reads thread [] a = ok a
handle_reads thread (f ∷ fs) a =
    handle_read thread (failed f.errno) f.second f.reopened a >>= handle_reads thread fs

abbrev pub AllSurvivable : List Failure → Type 0
AllSurvivable [] = Unit {0}
AllSurvivable (f ∷ fs) = IsAmong f.errno survivable × AllSurvivable fs

replied :
    (thread : ℕ) (r : AcceptReply) (second reopened : Option ℕ) (a : Acceptor)
    → a.loop_thread ≡ thread
    → Acceptor.handle_read thread r second reopened a ≡ ok (accept_reply r second reopened a)
unfolding Acceptor.handle_read
replied thread r second reopened a at =
    let here_ : (a.loop_thread == thread) ≡ true = ground (arith, at) in ensure-true here_ fatal _

thread_kept :
    (r : AcceptReply) (second reopened : Option ℕ) (a : Acceptor)
    → (accept_reply r second reopened a).loop_thread ≡ a.loop_thread
thread_kept (accepted fd) second reopened a = taken a.has_callback
  where
    taken :
        (b : Bool)
        → (if b
            then record (Acceptor.got (some fd) a) { handed = a.handed ++ fd ∷ [] }
            else Acceptor.close (some fd) (Acceptor.got (some fd) a)).loop_thread
          ≡ a.loop_thread
    taken true = refl
    taken false = refl
thread_kept emfile second reopened a = refl
thread_kept other_errno second reopened a = refl

ok-injective : {a a' : Acceptor} → ◌≡◌ {A = Result Acceptor} (ok a) (ok a') → a ≡ a'
ok-injective h = cc

survives :
    (thread : ℕ) (f : Failure) (a : Acceptor)
    → a.loop_thread ≡ thread
    → IsBalanced a
    → IsAmong f.errno survivable
    → (a' : Acceptor) × (handle_read thread (failed f.errno) f.second f.reopened a ≡ ok a')
      × IsBalanced a'
      × (a'.loop_thread ≡ thread)
survives thread f a at b among =
    let r = seen (failed f.errno) in
    let (a', run, balanced, _, _, _) = handle_read-IsBalanced thread r f.second f.reopened a at b in
    let same = ok-injective (sym run ∙ replied thread r f.second f.reopened a at) in
    (
      a',
      is_handled thread f.errno f.second f.reopened a at (expected-IsAmong f.errno among) ∙ run,
      balanced,
      ap (λ (t : Acceptor). t.loop_thread) same ∙ (thread_kept r f.second f.reopened a ∙ at),
    )

-- The errors that `accept` may fail with, one after another in the loop's thread. While they are EMFILE,
-- EAGAIN, ECONNABORTED, EINTR, EPROTO and EPERM, in any number and order, no call of `handleRead`
-- faults and every descriptor stays accounted for; the first error that is none of these aborts.
pub handle_reads-failed :
    (thread : ℕ) (fs gs : List Failure) (f : Failure) (a : Acceptor)
    → a.loop_thread ≡ thread
    → IsBalanced a
    → AllSurvivable fs
    → ((a' : Acceptor) × (handle_reads thread fs a ≡ ok a') × IsBalanced a')
      × ((IsAmong f.errno survivable → ⊥) → handle_reads thread (fs ++ f ∷ gs) a ≡ err fatal)
unfolding handle_reads
handle_reads-failed thread [] gs f a at b all = (
  (a, refl, b),
  λ worse.
      ap (λ m. m >>= handle_reads thread gs)
        (is_fatal thread f.errno f.second f.reopened a (λ e. worse (IsAmong-expected f.errno e))
          at),
)
handle_reads-failed thread (g ∷ fs) gs f a at b all =
    let (a₁, ran, b₁, at₁) = survives thread g a at b all.0 in
    let ((a', run, b'), ends) = handle_reads-failed thread fs gs f a₁ at₁ b₁ all.1 in
    (
      (a', ap (λ m. m >>= handle_reads thread fs) ran ∙ run, b'),
      λ worse. ap (λ m. m >>= handle_reads thread (fs ++ f ∷ gs)) ran ∙ ends worse,
    )
