-- ===== src/Thread/Once.antt =====
-- How often a thread of Thread.cc is created, joined and detached.
use simplev.Prelude.{
  ℕ, ◌+◌, ◌≡◌, refl, Bool, true, false, List, [], ◌∷◌, arith, Result, ok, err, assertion, ◌>>=◌,
  if◌then◌else◌, >>=-eq-ok,
}
use simplev.Thread.{
  Thread, init, start, join, destroy, Outcome, returns, throws_exception, throws_std_exception,
  throws_unknown, run_in_thread,
}

-- A method that a program calls, or the new thread itself, with what the system answers.
pub data Call : Type 0 where
  starts : Bool → Call
  joins : ℕ → Call
  runs : ℕ → List ℕ → Outcome → Call

unfoldable pub call : Call → Thread → Result Thread
unfolding start join run_in_thread
call (starts created) t = start created t
call (joins reply) t = join reply t >>= λ r. ok r.1
call (runs tid name outcome) t = run_in_thread tid true name outcome t >>= λ r. ok r.1

unfoldable pub run : List Call → Thread → Result Thread
unfolding call
run [] t = ok t
run (c ∷ cs) t = do t' ← call c t; run cs t'

record IsOnce (t : Thread) : Type 0 where
  creates : t.created ≡ (if t.started then 1 else 0)
  joins_ : t.joins ≡ (if t.joined then 1 else 0)
  detaches_ : t.detaches ≡ 0
  order : t.joined ≡ true → t.started ≡ true

init-IsOnce : IsOnce init
init-IsOnce = record { creates = refl; joins_ = refl; detaches_ = refl; order = λ e. e }

call-IsOnce : (c : Call) (t t' : Thread) → IsOnce t → call c t ≡ ok t' → IsOnce t'
unfolding call start join run_in_thread
call-IsOnce (starts created) t t' o h = ground arith
call-IsOnce (joins reply) t t' o h = ground arith
call-IsOnce (runs tid name returns) t t' o h = ground arith
call-IsOnce (runs tid name throws_exception) t t' o h = cc
call-IsOnce (runs tid name throws_std_exception) t t' o h = cc
call-IsOnce (runs tid name throws_unknown) t t' o h = cc

run-IsOnce : (cs : List Call) (t t' : Thread) → IsOnce t → run cs t ≡ ok t' → IsOnce t'
unfolding run
run-IsOnce [] t t' o h = ground arith
run-IsOnce (c ∷ cs) t t' o h =
    let (t₁, called, rest) = >>=-eq-ok (call c t) _ h in
    run-IsOnce cs t₁ t' (call-IsOnce c t t₁ o called) rest

-- Any calls on a new Thread that do not fail, with its own function among them, and then its
-- destructor: a thread was created at most once, and one that was created was joined or detached,
-- not both, once. A second `start`, a second `join` and a `join` before `start` fail an assertion.
pub run-destroy :
    (cs : List Call) (t : Thread) (created : Bool) (reply : ℕ)
    → run cs init ≡ ok t
    → let d = destroy t in
      (d.created ≡ d.joins + d.detaches)
      × (d.created ≡ (if t.started then 1 else 0))
      × (t.started ≡ true → start created t ≡ err assertion)
      × (t.started ≡ false → join reply t ≡ err assertion)
      × (t.joined ≡ true → join reply t ≡ err assertion)
unfolding start join destroy
run-destroy cs t created reply h =
    let o = run-IsOnce cs init t init-IsOnce h in
    (
      ground (arith, o.creates, o.joins_, o.detaches_, o.order),
      ground (arith, o.creates, o.joins_, o.detaches_, o.order),
      λ e. ground (arith, e),
      λ e. ground (arith, e),
      λ e. ground (arith, e, o.order),
    )
