-- ===== src/EventLoopThread.antt =====
-- simplev/src/simplev/net/EventLoopThread.h and EventLoopThread.cc: a thread that runs a loop, and hands
-- it to the caller of `startLoop` under a mutex. What a thread does with the mutex is one step, as in
-- BoundedBlockingQueue.antt, whose conditions these are. `loop` says whether `loop_` is set.
pub mod Handshake
mod Tests
use simplev.Prelude.{
  ℕ, zero, suc, ◌+◌, ◌≡◌, ◌≤◌, Bool, true, false, not, Result, ok, assert, ensure, out_of_range,
  ◌>>=◌, ◌>>◌, if◌then◌else◌,
}
use simplev.BoundedBlockingQueue
use simplev.BoundedBlockingQueue.{Condition, notify, get_up, wake}
use simplev.Thread
use simplev.Thread.{Thread}

-- Where the caller of `startLoop` is.
pub data Caller : Type 0 where
  idle looking waiting returned : Caller

-- Where the new thread is in `threadFunc`.
pub data Worker : Type 0 where
  not_started fresh looping ended : Worker

pub record EventLoopThread : Type 0 where
  pub loop : Bool
  pub exiting : Bool
  pub thread : Thread
  pub cond : Condition
  pub quit : Bool  -- the loop was told to quit
  pub caller : Caller
  pub worker : Worker

abbrev pub init : EventLoopThread
init = record {
  loop = false;
  exiting = false;
  thread = Thread.init;
  cond = record { asleep = 0; awake = 0 };
  quit = false;
  caller = idle;
  worker = not_started;
}

-- `startLoop` up to its mutex.
unfoldable pub start_loop : EventLoopThread → Result EventLoopThread
start_loop e = do
  assert (not e.thread.started)
  thread ← Thread.start true e.thread
  ok (record e { thread = thread; caller = looking; worker = fresh })

-- Its loop: it waits until `loop_` is set, and returns it.
unfoldable pub look : EventLoopThread → EventLoopThread
look e =
    if not e.loop
    then record e { cond = BoundedBlockingQueue.wait e.cond; caller = waiting }
    else record e { caller = returned }

-- The same by the caller that was woken up.
abbrev pub look_again : EventLoopThread → EventLoopThread
look_again e = look (record e { cond = get_up e.cond; caller = looking })

-- `threadFunc` with its new loop, under the mutex.
unfoldable pub publish : EventLoopThread → EventLoopThread
publish e = record e { loop = true; cond = notify e.cond; worker = looping }

-- Its end, behind `loop.loop()`.
unfoldable pub finish : EventLoopThread → EventLoopThread
finish e = record e { loop = false; worker = ended }

-- The destructor up to the `join`: without a loop it dereferences null.
unfoldable pub destroy : EventLoopThread → Result EventLoopThread
destroy e = do
  ensure e.loop out_of_range
  (_, thread) ← Thread.join 0 e.thread
  ok (record e { exiting = true; quit = true; thread = thread })

-- A step. Only who got the loop from `startLoop` tells it to quit.
pub data Step (e : EventLoopThread) : EventLoopThread → Type 0 where
  starts : {e' : EventLoopThread} → start_loop e ≡ ok e' → Step e e'
  looks : e.caller ≡ looking → Step e (look e)
  looks_again : e.caller ≡ waiting → 1 ≤ e.cond.awake → Step e (look_again e)
  wakes : Step e (record e { cond = wake e.cond })
  publishes : e.worker ≡ fresh → Step e (publish e)
  quits : e.caller ≡ returned → Step e (record e { quit = true })
  finishes : e.worker ≡ looping → e.quit ≡ true → Step e (finish e)

pub data Reach (e : EventLoopThread) : EventLoopThread → Type 0 where
  here : Reach e e
  next : {e' e'' : EventLoopThread} → Reach e e' → Step e' e'' → Reach e e''
