-- ===== src/EventLoop.antt =====
-- simplev/src/simplev/net/EventLoop.h and EventLoop.cc: a loop's queue of functors, its wake-ups and
-- its end. A functor is named by a number; what ran is kept, the latest last. `phase` is the place of
-- the loop's thread in an iteration of libev: the prepare watcher's callback, with the functors that it
-- took out in `batch`, then the poll, then the callbacks of events. Timers are in TimerQueue.antt.
pub mod Order
pub mod Parts
pub mod Awake
pub mod Wakeups
pub mod Functors
pub mod Iteration
mod Tests
use simplev.Prelude.{
  ℕ, zero, suc, ◌+◌, ◌^◌, Bool, true, false, not, ◌||◌, List, [], ◌∷◌, ◌++◌, Result, ok, assert,
  ensure, fatal, ◌>>=◌, ◌>>◌, ◌==◌, ltb, if◌then◌else◌,
}
use simplev.TimerQueue
use simplev.TimerQueue.{TimerQueue}

pub data Phase : Type 0 where
  idle dispatching running checking polling : Phase

pub record EventLoop : Type 0 where
  pub thread_id : ℕ
  pub looping : Bool
  pub quit : Bool  -- `quit_`
  pub calling_pending_functors : Bool
  pub pending_functors : List ℕ
  pub counter : ℕ  -- the value of the event descriptor `wakeupFd_`
  pub phase : Phase
  pub batch : List ℕ  -- `functors` of `doPendingFunctors`, from the next one on
  pub ran : List ℕ
  pub ran_directly : List ℕ
  pub timers : TimerQueue  -- `timerQueue_`

abbrev pub init : ℕ → EventLoop
init thread = record {
  thread_id = thread;
  looping = false;
  quit = false;
  calling_pending_functors = false;
  pending_functors = [];
  counter = 0;
  phase = idle;
  batch = [];
  ran = [];
  ran_directly = [];
  timers = TimerQueue.init thread;
}

abbrev pub is_in_loop_thread : ℕ → EventLoop → Bool
is_in_loop_thread thread e = e.thread_id == thread

-- An event descriptor refuses to grow beyond `max_counter`; the failure is only logged.
abbrev pub max_counter : ℕ
max_counter = 18446744073709551614

-- Adds one to the event descriptor.
unfoldable pub wakeup : EventLoop → EventLoop
wakeup e = record e { counter = if ltb e.counter max_counter then 1 + e.counter else e.counter }

-- Reads the event descriptor, which sets it to zero.
unfoldable pub handle_read : EventLoop → EventLoop
handle_read e = record e { counter = 0 }

abbrev pub push_back : ℕ → EventLoop → EventLoop
push_back f e = record e { pending_functors = e.pending_functors ++ f ∷ [] }

-- One access of `queueInLoop` or `quit` to the loop; other threads and the loop run between two of them.
pub data Access : Type 0 where
  pushes : ℕ → Access  -- `pendingFunctors_.push_back`, under the lock
  wakes_if_needed : Access  -- `wakeup`, if `queueInLoop` finds that the loop may sleep
  sets_quit : Access
  wakes_elsewhere : Access  -- `wakeup`, if `quit` finds itself in another thread

unfoldable pub access : ℕ → Access → EventLoop → EventLoop
unfolding wakeup
access thread (pushes f) e = push_back f e
access thread wakes_if_needed e =
    if not (is_in_loop_thread thread e) || e.calling_pending_functors then wakeup e else e
access thread sets_quit e = record e { quit = true }
access thread wakes_elsewhere e = if is_in_loop_thread thread e then e else wakeup e

-- The bodies of `queueInLoop` and `quit`.
unfoldable pub queue_in_loop_body : ℕ → List Access
queue_in_loop_body f = pushes f ∷ wakes_if_needed ∷ []

unfoldable pub quit_body : List Access
quit_body = sets_quit ∷ wakes_elsewhere ∷ []

-- A body that nothing interrupts.
unfoldable pub run_body : ℕ → List Access → EventLoop → EventLoop
unfolding access
run_body thread [] e = e
run_body thread (a ∷ rest) e = run_body thread rest (access thread a e)

unfoldable pub queue_in_loop : ℕ → ℕ → EventLoop → EventLoop
unfolding run_body queue_in_loop_body
queue_in_loop thread f e = run_body thread (queue_in_loop_body f) e

unfoldable pub run_in_loop : ℕ → ℕ → EventLoop → EventLoop
unfolding queue_in_loop
run_in_loop thread f e =
    if is_in_loop_thread thread e
    then record e { ran_directly = e.ran_directly ++ f ∷ [] }
    else queue_in_loop thread f e

unfoldable pub quit : ℕ → EventLoop → EventLoop
unfolding run_body quit_body
quit thread e = run_body thread quit_body e

-- Up to the swap of `doPendingFunctors`.
abbrev pub begin_pending_functors : EventLoop → EventLoop
begin_pending_functors e = record e {
  calling_pending_functors = true;
  batch = e.pending_functors;
  pending_functors = [];
  phase = running;
}

-- `functors[i]()`, with the functors behind it.
abbrev pub run_functor : ℕ → List ℕ → EventLoop → EventLoop
run_functor f rest e = record e { ran = e.ran ++ f ∷ []; batch = rest }

abbrev pub end_pending_functors : EventLoop → EventLoop
end_pending_functors e = record e { calling_pending_functors = false; phase = checking }

-- What a functor asks of its loop.
pub data Call : Type 0 where
  queues : ℕ → Call
  quits : Call

unfoldable pub run_call : Call → EventLoop → EventLoop
unfolding queue_in_loop quit
run_call (queues f) e = queue_in_loop e.thread_id f e
run_call quits e = quit e.thread_id e

unfoldable pub run_calls : List Call → EventLoop → EventLoop
unfolding run_call
run_calls [] e = e
run_calls (c ∷ cs) e = run_calls cs (run_call c e)

-- The loop of `doPendingFunctors`, where `body` says what each functor calls.
unfoldable pub run_functors : (ℕ → List Call) → List ℕ → EventLoop → EventLoop
unfolding run_calls
run_functors body [] e = e
run_functors body (f ∷ fs) e = run_functors body fs (run_calls (body f) (run_functor f fs e))

unfoldable pub do_pending_functors : (ℕ → List Call) → EventLoop → EventLoop
unfolding run_functors
do_pending_functors body e =
    end_pending_functors (run_functors body e.pending_functors (begin_pending_functors e))

-- `evLoop_.break_loop()` lets `loop` return.
abbrev pub break_loop : EventLoop → EventLoop
break_loop e = record e { phase = idle; looping = false }

-- The end of `prepareCallBack`.
unfoldable pub check_quit : EventLoop → EventLoop
check_quit e = if e.quit then break_loop e else record e { phase = polling }

unfoldable pub prepare_call_back : (ℕ → List Call) → EventLoop → Result EventLoop
unfolding do_pending_functors check_quit
prepare_call_back body e = do
  timers ← TimerQueue.clear_expired_timer e.timers
  ok (check_quit (do_pending_functors body (record e { timers = timers })))

-- The poll returns, and events are handled.
abbrev pub dispatch : EventLoop → EventLoop
dispatch e = record e { phase = dispatching }

-- Up to the first iteration.
unfoldable pub loop : ℕ → EventLoop → Result EventLoop
loop thread e = do
  assert (not e.looping)
  ensure (is_in_loop_thread thread e) fatal
  ok (record e { looping = true; phase = dispatching })
