-- ===== src/TimerQueue.antt =====
-- simplev/src/simplev/net/TimerQueue.h, TimerQueue.cc, Timer.h, Timer.cc and TimerId.h: the timers of a
-- loop. A timer is an object on the heap, which is a function from addresses; `new` answers with an
-- address that is an argument. Reading an object that was deleted is a fault. libev starts and stops a
-- timer's watcher, and lets it expire, which `active` says.
pub mod Clearing
pub mod Cancelling
pub mod Adding
pub mod Destroying
pub mod History
mod Tests
use simplev.Prelude.{
  ℕ, zero, suc, ◌+◌, Bool, true, false, ◌&&◌, ◌||◌, List, [], ◌∷◌, ◌++◌, Option, none, some, Result,
  ok, err, ensure, fatal, out_of_range, ◌>>=◌, ◌>>◌, ◌==◌, if◌then◌else◌,
}

pub record TimerId : Type 0 where
  pub timer : ℕ
  pub sequence : ℕ

pub record Timer : Type 0 where
  pub sequence : ℕ
  pub active : Bool

abbrev pub Heap : Type 0
Heap = ℕ → Option Timer

pub data Functor : Type 0 where
  add_functor cancel_functor : TimerId → Functor

pub record TimerQueue : Type 0 where
  pub loop_thread : ℕ
  pub num_created : ℕ
  pub heap : Heap
  pub valid_timers : List TimerId
  pub queued : List Functor

abbrev pub init : ℕ → TimerQueue
init thread = record {
  loop_thread = thread;
  num_created = 0;
  heap = λ _. none;
  valid_timers = [];
  queued = [];
}

abbrev pub set : ℕ → Option Timer → Heap → Heap
set address timer heap = λ a. if a == address then timer else heap a

abbrev pub deref : Option Timer → Result Timer
deref none = err out_of_range
deref (some timer) = ok timer

-- `validTimers_.find`, which compares addresses and sequence numbers.
abbrev pub find : TimerId → List TimerId → Bool
find id [] = false
find id (x ∷ xs) = (x.timer == id.timer && (x.sequence == id.sequence)) || find id xs

abbrev pub insert : TimerId → List TimerId → List TimerId
insert id ids = if find id ids then ids else id ∷ ids

-- Starts or stops the watcher of a timer.
abbrev pub set_active : Bool → ℕ → TimerQueue → Result TimerQueue
set_active active address q = do
  timer ← deref (q.heap address)
  ok (record q { heap = set address (some (record timer { active = active })) q.heap })

unfoldable pub add_timer_in_loop : ℕ → TimerId → TimerQueue → Result TimerQueue
add_timer_in_loop thread id q = do
  ensure (q.loop_thread == thread) fatal
  q' ← set_active true id.timer q
  ok (record q' { valid_timers = insert id q'.valid_timers })

abbrev pub queue_in_loop : Functor → TimerQueue → TimerQueue
queue_in_loop f q = record q { queued = q.queued ++ f ∷ [] }

-- The new timer's name.
abbrev pub next_id : ℕ → TimerQueue → TimerId
next_id address q = record { timer = address; sequence = 1 + q.num_created }

unfoldable pub add_timer : ℕ → ℕ → TimerQueue → Result TimerQueue
unfolding add_timer_in_loop
add_timer thread address q =
    let id = next_id address q in
    let q' : TimerQueue = record q {
      num_created = 1 + q.num_created;
      heap = set address (some (record { sequence = 1 + q.num_created; active = false })) q.heap;
    } in
    if q.loop_thread == thread
    then add_timer_in_loop thread id q'
    else ok (queue_in_loop (add_functor id) q')

unfoldable pub cancel_in_loop : ℕ → TimerId → TimerQueue → Result TimerQueue
cancel_in_loop thread id q = do
  ensure (q.loop_thread == thread) fatal
  if find id q.valid_timers then set_active false id.timer q else ok q

unfoldable pub cancel : ℕ → TimerId → TimerQueue → Result TimerQueue
unfolding cancel_in_loop
cancel thread id q =
    if q.loop_thread == thread
    then cancel_in_loop thread id q
    else ok (queue_in_loop (cancel_functor id) q)

-- The loop over the valid timers, from here on.
unfoldable pub clear_timers : List TimerId → Heap → Result (List TimerId × Heap)
clear_timers [] heap = ok ([], heap)
clear_timers (id ∷ ids) heap = do
  timer ← deref (heap id.timer)
  rest ← clear_timers ids (if timer.active then heap else set id.timer none heap)
  ok ((if timer.active then id ∷ rest.0 else rest.0), rest.1)

unfoldable pub clear_expired_timer : TimerQueue → Result TimerQueue
unfolding clear_timers
clear_expired_timer q = do
  rest ← clear_timers q.valid_timers q.heap
  ok (record q { valid_timers = rest.0; heap = rest.1 })

-- The destructor deletes the timers that are valid; a second `delete` would be a fault.
unfoldable pub delete_timers : List TimerId → Heap → Result Heap
delete_timers [] heap = ok heap
delete_timers (id ∷ ids) heap = do
  timer ← deref (heap id.timer)
  delete_timers ids (set id.timer none heap)

unfoldable pub destroy : TimerQueue → Result TimerQueue
unfolding delete_timers
destroy q = do heap ← delete_timers q.valid_timers q.heap; ok (record q { heap = heap })
