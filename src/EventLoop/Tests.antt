-- ===== src/EventLoop/Tests.antt =====
-- Runs of EventLoop.cc.
use simplev.Prelude.{ℕ, ◌≡◌, ◌≢◌, ◌≤◌, inl, refl, true, List, [], ◌∷◌, ok}
use simplev.TimerQueue
use simplev.TimerQueue.Clearing.{all_nil}
use simplev.EventLoop.{
  EventLoop, Access, init, idle, dispatching, polling, Call, queues, quits, access,
  queue_in_loop_body, pushes, wakes_if_needed, begin_pending_functors, run_functor,
  end_pending_functors, check_quit, prepare_call_back, wakeup, run_in_loop, run_body, queue_in_loop,
}
use simplev.EventLoop.Order.{
  System, set_rest, accesses, begins, runs, ends, checks, Reach, here, next, other, IsOrdered,
  functors, pushed, Reach-functors,
}
use simplev.EventLoop.Order
use simplev.EventLoop.Wakeups.{IsReadable, Reach-counter}
use simplev.EventLoop.Functors.{calls_of, queued_by, stopped_by}
use simplev.EventLoop.Iteration.{prepare_call_back_lem}

-- Thread 1's loop while it handles events, with functor 7 in its queue, and nobody in a call.
abbrev busy : EventLoop
busy = record (init 1) { looping = true; phase = dispatching; pending_functors = 7 ∷ [] }

abbrev start : System
start = record { loop = busy; rest = λ t. [] }

-- Thread 2 puts functor 8 into the queue while the loop, about to poll, has already taken out
-- functor 7; and it is interrupted before its wake-up.
abbrev asked : ℕ → List Access
asked = set_rest 2 (queue_in_loop_body 8) (λ t. [])

abbrev caught : System
caught = record {
  loop =
      check_quit (
        end_pending_functors
          (run_functor 7 [] (access 2 (pushes 8) (begin_pending_functors busy))));
  rest = set_rest 2 (wakes_if_needed ∷ []) asked;
}

caught-Reach : Reach start (8 ∷ []) caught
unfolding check_quit access queue_in_loop_body pushed
caught-Reach =
    next
      (next
        (next
          (next (next (next here (Order.queues 2 8 refl (other refl))) (begins refl refl))
            (accesses 2 (pushes 8) (wakes_if_needed ∷ []) refl))
          (runs 7 [] refl refl refl))
        (ends refl refl refl))
      (checks refl refl)

start-IsOrdered : IsOrdered start.loop
start-IsOrdered = λ _. refl

Reach-functors_example : functors caught.loop ≡ 7 ∷ 8 ∷ []
Reach-functors_example = Reach-functors start-IsOrdered caught-Reach

caught-polling : caught.loop.phase ≡ polling
unfolding check_quit access
caught-polling = refl

caught_waiting : caught.loop.pending_functors ≡ [] → ⊥
unfolding check_quit access
caught_waiting h = cc

Reach-counter_example : IsReadable caught
Reach-counter_example =
    Reach-counter refl (λ t. refl) caught-Reach caught-polling (inl caught_waiting)

-- Another thread's `runInLoop` queues; the loop's own runs the functor at once.
queued_elsewhere : (run_in_loop 2 8 busy).pending_functors ≡ 7 ∷ 8 ∷ []
unfolding run_in_loop queue_in_loop run_body queue_in_loop_body access wakeup
queued_elsewhere = refl

-- Functor 7 queues functor 8 and quits.
abbrev follows : ℕ → List Call
follows f = queues 8 ∷ quits ∷ []

prepare_call_back_lem_example :
    (d : EventLoop) × (prepare_call_back follows busy ≡ ok d)
    × (TimerQueue.clear_expired_timer busy.timers ≡ ok d.timers)
    × (d.ran ≡ 7 ∷ [])
    × (d.pending_functors ≡ 8 ∷ [])
    × (queued_by (calls_of follows (7 ∷ [])) ≢ [] → 1 ≤ d.counter)
    × (d.phase ≡ idle)
unfolding queued_by calls_of stopped_by
prepare_call_back_lem_example = prepare_call_back_lem follows busy all_nil
