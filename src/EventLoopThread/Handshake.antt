-- ===== src/EventLoopThread/Handshake.antt =====
-- How `startLoop` of EventLoopThread.cc and the new thread hand the loop over.
use simplev.Prelude.{
  ◌+◌, ◌≡◌, ◌≢◌, ◌≤◌, ◌⊎◌, inl, inr, ap, ◌∙◌, Bool, true, false, arith, ok, err, out_of_range,
  if◌then◌else◌, ◌<◌, dec_lt,
}
use simplev.Thread
use simplev.EventLoopThread.{
  EventLoopThread, Caller, idle, waiting, returned, Worker, not_started, fresh, looping, ended,
  init, start_loop, look, publish, finish, destroy, Step, starts, looks, looks_again, wakes,
  publishes, quits, finishes, Reach, here, next,
}

abbrev is_waiting : Caller → Bool
is_waiting waiting = true
is_waiting _ = false

abbrev is_looping : Worker → Bool
is_looping looping = true
is_looping _ = false

abbrev is_started : Worker → Bool
is_started not_started = false
is_started _ = true

record IsReady (e : EventLoopThread) : Type 0 where
  sum : e.cond.asleep + e.cond.awake ≡ (if is_waiting e.caller then 1 else 0)
  sleeper : 1 ≤ e.cond.asleep → e.worker ≡ fresh
  has_loop : e.loop ≡ is_looping e.worker
  begun : e.thread.started ≡ is_started e.worker
  calls : e.caller ≢ idle → e.worker ≢ not_started
  early : e.worker ≡ ended → e.quit ≡ true
  quiet : e.caller ≢ returned → e.quit ≡ false
  got : e.caller ≡ returned → e.worker ≢ fresh
  uncalled : e.caller ≡ idle → e.worker ≡ not_started
  unjoined : e.thread.joined ≡ false

Step-IsReady : {e e' : EventLoopThread} → IsReady e → Step e e' → IsReady e'
unfolding start_loop look publish finish Thread.start
Step-IsReady {e} {e'} r (starts h) = ground (arith, r, h)
Step-IsReady {e} r (looks at) = ground (arith, r, at)
Step-IsReady {e} r (looks_again at up) = ground (arith, r, at, up)
Step-IsReady {e} r wakes = ground (arith, r)
Step-IsReady {e} r (publishes at) = ground (arith, r, at)
Step-IsReady {e} r (quits at) = ground (arith, r, at)
Step-IsReady {e} r (finishes at q) = ground (arith, r, at, q)

Reach-IsReady : {e e' : EventLoopThread} → IsReady e → Reach e e' → IsReady e'
Reach-IsReady r here = r
Reach-IsReady r (next path st) = Step-IsReady (Reach-IsReady r path) st

init-IsReady : IsReady init
init-IsReady = ground arith

-- However the two threads take turns, from a new EventLoopThread on: while `startLoop` waits, the new
-- thread has still to publish its loop, or the caller was woken up already, so no notify is lost. A
-- caller that returned finds the loop set until it tells it to quit, and the destructor then succeeds.
-- The destructor of one that was never started, or whose loop has ended, dereferences null.
pub Reach-destroy :
    {e : EventLoopThread}
    → Reach init e
    → (e.caller ≡ waiting → (e.worker ≡ fresh) ⊎ (1 ≤ e.cond.awake))
      × (e.caller ≡ returned
          → e.quit ≡ false
          → (e.loop ≡ true) × ((e' : EventLoopThread) × (destroy e ≡ ok e')))
      × (e.caller ≡ idle → destroy e ≡ err out_of_range)
      × (e.worker ≡ ended → destroy e ≡ err out_of_range)
unfolding destroy Thread.join
Reach-destroy {e} path =
    let r = Reach-IsReady init-IsReady path in
    (
      λ at. published r at (dec_lt 0 e.cond.asleep),
      λ at going.
          let set : e.loop ≡ true = ground (arith, r, at, going) in
          let on : e.thread.started ≡ true = ground (arith, r, at) in
          (
            set,
            (
              record e {
                exiting = true;
                quit = true;
                thread = record e.thread { joined = true; joins = 1 + e.thread.joins };
              },
              ground (arith, set, on, r.unjoined),
            ),
          ),
      λ at. ground (arith, r, at),
      λ at. ground (arith, r, at),
    )
  where
    published :
        IsReady e
        → e.caller ≡ waiting
        → Dec (0 < e.cond.asleep)
        → (e.worker ≡ fresh) ⊎ (1 ≤ e.cond.awake)
    published r at (yes h) = inl (r.sleeper h)
    published r at (no h) =
        let one : e.cond.asleep + e.cond.awake ≡ 1 =
          r.sum ∙ ap (λ c. if is_waiting c then 1 else 0) at in
        inr (omega (arith, one, h))
