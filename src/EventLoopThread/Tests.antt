-- ===== src/EventLoopThread/Tests.antt =====
-- Runs of EventLoopThread.cc.
use simplev.Prelude.{arith, ◌≡◌, ◌≤◌, ◌⊎◌, refl, true, false, ok, err, out_of_range}
use simplev.Thread
use simplev.EventLoopThread.{
  EventLoopThread, init, start_loop, look, publish, destroy, waiting, fresh, returned, idle, ended,
  Reach, here, next, starts, looks, publishes, looks_again, look_again,
}
use simplev.EventLoopThread.Handshake.{Reach-destroy}

begun : (e : EventLoopThread) × (start_loop init ≡ ok e)
unfolding start_loop Thread.start
begun = (_, refl)

-- The caller waits before the new thread has its loop.
abbrev handed : EventLoopThread
unfolding begun look publish start_loop Thread.start
handed = look_again (publish (look begun.0))

handed-Reach : Reach init handed
unfolding begun look publish start_loop Thread.start handed
handed-Reach =
    next (next (next (next here (starts begun.1)) (looks refl)) (publishes refl))
      (looks_again refl (omega arith))

Reach-destroy_example :
    (handed.caller ≡ waiting → (handed.worker ≡ fresh) ⊎ (1 ≤ handed.cond.awake))
    × (handed.caller ≡ returned
        → handed.quit ≡ false
        → (handed.loop ≡ true) × ((e : EventLoopThread) × (destroy handed ≡ ok e)))
    × (handed.caller ≡ idle → destroy handed ≡ err out_of_range)
    × (handed.worker ≡ ended → destroy handed ≡ err out_of_range)
Reach-destroy_example = Reach-destroy handed-Reach

is_back : handed.caller ≡ returned
unfolding handed look publish begun start_loop Thread.start
is_back = refl

never_started : destroy init ≡ err out_of_range
unfolding destroy
never_started = refl
