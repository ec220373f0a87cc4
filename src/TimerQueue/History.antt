-- ===== src/TimerQueue/History.antt =====
-- The timers of a loop of TimerQueue.cc over time, in the loop's thread: what the user asks for, what
-- libev does when a timer is due, and `clearExpiredTimer`.
use simplev.Prelude.{
  ℕ, ◌+◌, ◌≡◌, refl, sym, ap, subst, ◌∙◌, Bool, true, false, Option, none, some, Result, ok,
  >>=-eq-ok, ensure, fatal, ensure-true, ◌==◌, if◌then◌else◌, inl, inr, Bool-cases, arith, count,
  leb,
}
use simplev.TimerQueue.{
  TimerId, Timer, TimerQueue, init, set, deref, find, set_active, next_id, queue_in_loop,
  add_functor, cancel_functor, add_timer_in_loop, add_timer, cancel_in_loop, cancel, clear_timers,
  clear_expired_timer, destroy,
}
use simplev.TimerQueue.Clearing.{AllLive, all_nil, addresses, clear_expired_timer_lem}
use simplev.TimerQueue.Cancelling.{set_active-AllLive, cancel_in_loop_lem}
use simplev.TimerQueue.Adding.{add_timer_lem}
use simplev.TimerQueue.Destroying.{destroy_lem}

-- libev stops the watcher of a timer that is not repeated, when it is due.
abbrev pub expire_at : Option Timer → ℕ → TimerQueue → TimerQueue
expire_at none address q = q
expire_at (some timer) address q = record q {
  heap = set address (some (record timer { active = false })) q.heap;
}

abbrev pub expire : ℕ → TimerQueue → TimerQueue
expire address q = expire_at (q.heap address) address q

-- `addTimer` with an object that `new` puts at an address, `cancel`, a timer that is due, and the end
-- of an iteration.
pub data Act : Type 0 where
  adds : (address : ℕ) → Act
  cancels : TimerId → Act
  expires : (address : ℕ) → Act
  clears : Act

unfoldable pub act : ℕ → Act → TimerQueue → Result TimerQueue
unfolding add_timer cancel clear_expired_timer
act thread (adds address) q = add_timer thread address q
act thread (cancels id) q = cancel thread id q
act thread (expires address) q = ok (expire address q)
act thread clears q = clear_expired_timer q

-- `new` gives memory that is free.
abbrev pub IsAllowed : Act → TimerQueue → Type 0
IsAllowed (adds address) q = q.heap address ≡ none
IsAllowed _ q = Unit {0}

pub data Reach (thread : ℕ) (q : TimerQueue) : TimerQueue → Type 0 where
  here : Reach thread q q
  next :
      {q' q'' : TimerQueue} (a : Act)
      → Reach thread q q'
      → IsAllowed a q'
      → act thread a q' ≡ ok q''
      → Reach thread q q''

record IsLive (thread : ℕ) (q : TimerQueue) : Type 0 where
  at : q.loop_thread ≡ thread
  live : AllLive q.heap q.valid_timers

ok-injective : {q q' : TimerQueue} → ◌≡◌ {A = Result TimerQueue} (ok q) (ok q') → q ≡ q'
ok-injective h = cc

-- Runs that end with the queue of the same loop.
abbrev SameLoop : TimerQueue → Result TimerQueue → Type 0
SameLoop q run = (q' : TimerQueue) → run ≡ ok q' → q'.loop_thread ≡ q.loop_thread

ok-SameLoop : (q d : TimerQueue) → d.loop_thread ≡ q.loop_thread → SameLoop q (ok d)
ok-SameLoop q d e q' h = ap (λ (t : TimerQueue). t.loop_thread) (sym (ok-injective h)) ∙ e

if-SameLoop :
    (b : Bool) (q : TimerQueue) {m n : Result TimerQueue}
    → SameLoop q m
    → SameLoop q n
    → SameLoop q (if b then m else n)
if-SameLoop true q m n = m
if-SameLoop false q m n = n

set_active-SameLoop :
    (active : Bool) (address : ℕ) (q : TimerQueue) → SameLoop q (set_active active address q)
set_active-SameLoop active address q q' h =
    let (timer, _, e) = >>=-eq-ok (deref (q.heap address)) _ h in ok-SameLoop q _ refl q' e

add_timer_in_loop-SameLoop :
    (thread : ℕ) (id : TimerId) (q : TimerQueue) → SameLoop q (add_timer_in_loop thread id q)
unfolding add_timer_in_loop
add_timer_in_loop-SameLoop thread id q q' h =
    let (_, _, e) = >>=-eq-ok (ensure (q.loop_thread == thread) fatal) _ h in
    let (d, ran, e') = >>=-eq-ok (set_active true id.timer q) _ e in
    ok-SameLoop q _ (set_active-SameLoop true id.timer q d ran) q' e'

cancel_in_loop-SameLoop :
    (thread : ℕ) (id : TimerId) (q : TimerQueue) → SameLoop q (cancel_in_loop thread id q)
unfolding cancel_in_loop
cancel_in_loop-SameLoop thread id q q' h =
    let (_, _, e) = >>=-eq-ok (ensure (q.loop_thread == thread) fatal) _ h in
    if-SameLoop (find id q.valid_timers) q (set_active-SameLoop false id.timer q)
      (ok-SameLoop q q refl) q' e

expire-same :
    (o : Option Timer) (address : ℕ) (q : TimerQueue)
    → (expire_at o address q).loop_thread ≡ q.loop_thread
expire-same none address q = refl
expire-same (some timer) address q = refl

act-SameLoop : (thread : ℕ) (a : Act) (q : TimerQueue) → SameLoop q (act thread a q)
unfolding act add_timer cancel clear_expired_timer
act-SameLoop thread (adds address) q =
    let q₁ : TimerQueue = record q {
      num_created = 1 + q.num_created;
      heap = set address (some (record { sequence = 1 + q.num_created; active = false })) q.heap;
    } in
    if-SameLoop (q.loop_thread == thread) q
      (add_timer_in_loop-SameLoop thread (next_id address q) q₁)
      (ok-SameLoop q (queue_in_loop (add_functor (next_id address q)) q₁) refl)
act-SameLoop thread (cancels id) q =
    if-SameLoop (q.loop_thread == thread) q (cancel_in_loop-SameLoop thread id q)
      (ok-SameLoop q _ refl)
act-SameLoop thread (expires address) q = ok-SameLoop q _ (expire-same (q.heap address) address q)
act-SameLoop thread clears q = λ q' h.
    let (rest, _, e) = >>=-eq-ok (clear_timers q.valid_timers q.heap) _ h in
    ok-SameLoop q _ refl q' e

expire-AllLive :
    (o : Option Timer) (address : ℕ) (q : TimerQueue)
    → q.heap address ≡ o
    → AllLive q.heap q.valid_timers
    → AllLive (expire_at o address q).heap (expire_at o address q).valid_timers
expire-AllLive none address q e live = live
expire-AllLive (some timer) address q e live =
    set_active-AllLive address false timer q.valid_timers e live

missed :
    (thread : ℕ) (id : TimerId) (q : TimerQueue)
    → q.loop_thread ≡ thread
    → find id q.valid_timers ≡ false
    → cancel_in_loop thread id q ≡ ok q
unfolding cancel_in_loop
missed thread id q at none_ =
    let here_ : (q.loop_thread == thread) ≡ true = ground (arith, at) in
    ensure-true here_ fatal _
    ∙ ap (λ (b : Bool). if b then set_active false id.timer q else ok q) none_

cancel_here :
    (thread : ℕ) (id : TimerId) (q : TimerQueue)
    → q.loop_thread ≡ thread
    → cancel thread id q ≡ cancel_in_loop thread id q
unfolding cancel
cancel_here thread id q at =
    let here_ : (q.loop_thread == thread) ≡ true = ground (arith, at) in
    ap
      (λ (b : Bool).
        if b then cancel_in_loop thread id q else ok (queue_in_loop (cancel_functor id) q))
      here_

-- A run that ends with valid timers which are live.
abbrev Lives : Result TimerQueue → Type 0
Lives run = (q' : TimerQueue) × (run ≡ ok q') × AllLive q'.heap q'.valid_timers

cancel-Lives :
    (thread : ℕ) (id : TimerId) (q : TimerQueue) → IsLive thread q → Lives (cancel thread id q)
cancel-Lives thread id q w =
    rw (cancel_here thread id q w.at) (elim (Bool-cases (find id q.valid_timers)) [
      | inl found ↦
          let (q', ran, live, _, _) = (cancel_in_loop_lem thread id q w.at w.live).1 found in
          (q', ran, live)
      | inr none_ ↦ (q, missed thread id q w.at none_, w.live)
    ])

act-Lives :
    (thread : ℕ) (a : Act) (q : TimerQueue)
    → IsLive thread q
    → IsAllowed a q
    → Lives (act thread a q)
unfolding act
act-Lives thread (adds address) q w free =
    let (q', ran, _, live, _, _) = add_timer_lem thread address q w.at free w.live in
    (q', ran, live)
act-Lives thread (cancels id) q w free = cancel-Lives thread id q w
act-Lives thread (expires address) q w free =
    (expire address q, refl, expire-AllLive (q.heap address) address q refl w.live)
act-Lives thread clears q w free =
    let (q', ran, live, _, _, _) = clear_expired_timer_lem q w.live in (q', ran, live)

Reach-IsLive : {thread : ℕ} {q : TimerQueue} → Reach thread (init thread) q → IsLive thread q
Reach-IsLive here = record { at = refl; live = all_nil }
Reach-IsLive {thread} {q} (next {q' = d} a r free e) =
    let w = Reach-IsLive r in
    let (q', ran, live) = act-Lives thread a d w free in
    record {
      at = act-SameLoop thread a d q e ∙ w.at;
      live =
          subst (λ (t : TimerQueue). AllLive t.heap t.valid_timers) (ok-injective (sym ran ∙ e))
            live;
    }

-- The timers of a new queue after any history in the loop's thread of `addTimer` with free memory, `cancel`
-- with any name, also of a timer that was deleted, timers that are due, and `clearExpiredTimer`:
-- whatever comes next ends without a use of a deleted timer, and every valid timer still names a live
-- one, no two the same. The destructor deletes the valid timers, and nothing else, each once.
pub Reach-AllLive :
    {thread : ℕ} {q : TimerQueue} (a : Act)
    → Reach thread (init thread) q
    → IsAllowed a q
    → ((q' : TimerQueue) × (act thread a q ≡ ok q') × AllLive q'.heap q'.valid_timers)
      × ((q' : TimerQueue) × (destroy q ≡ ok q')
          × ((x : ℕ)
              → q'.heap x
                ≡ (if leb 1 (count x (addresses q.valid_timers)) then none else q.heap x)))
Reach-AllLive {thread} {q} a r free =
    let w = Reach-IsLive r in (act-Lives thread a q w free, destroy_lem q w.live)
