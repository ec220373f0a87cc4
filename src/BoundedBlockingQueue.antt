-- ===== src/BoundedBlockingQueue.antt =====
-- simplev/src/simplev/base/BoundedBlockingQueue.h: a queue with room for `capacity` elements. The mutex
-- makes what a thread does between two waits one step, so that a method is the step of a thread that
-- comes in, and of one that was woken up and looks again. Threads that wait on a condition are
-- counted, as are the ones woken up that did not get the mutex yet. What was taken is kept.
pub mod Progress
pub mod Order
mod Tests
use simplev.Prelude.{
  ℕ, zero, suc, ◌+◌, ◌-◌, Bool, true, false, List, [], ◌∷◌, ◌++◌, length, ◌==◌, if◌then◌else◌,
}

-- The threads of one condition.
pub record Condition : Type 0 where
  pub asleep : ℕ
  pub awake : ℕ

pub record BoundedBlockingQueue : Type 0 where
  pub capacity : ℕ
  pub queue : List ℕ
  pub not_empty : Condition
  pub not_full : Condition
  pub taken : List ℕ

abbrev pub init : ℕ → BoundedBlockingQueue
init max_size = record {
  capacity = max_size;
  queue = [];
  not_empty = record { asleep = 0; awake = 0 };
  not_full = record { asleep = 0; awake = 0 };
  taken = [];
}

-- `pthread_cond_signal` wakes one thread, if one sleeps.
abbrev pub notify : Condition → Condition
notify c = record { asleep = c.asleep - 1; awake = (if c.asleep == 0 then 0 else 1) + c.awake }

-- `wait`, and getting the mutex again.
abbrev pub wait : Condition → Condition
wait c = record c { asleep = 1 + c.asleep }

abbrev pub get_up : Condition → Condition
get_up c = record c { awake = c.awake - 1 }

abbrev pub full : BoundedBlockingQueue → Bool
full q = length q.queue == q.capacity

-- `put` from the test of the loop on: the thread waits, or puts `x` in.
unfoldable pub put : ℕ → BoundedBlockingQueue → BoundedBlockingQueue
put x q =
    if full q
    then record q { not_full = wait q.not_full }
    else record q { queue = q.queue ++ x ∷ []; not_empty = notify q.not_empty }

abbrev pub take_front : List ℕ → BoundedBlockingQueue → BoundedBlockingQueue
take_front [] q = record q { not_empty = wait q.not_empty }
take_front (x ∷ xs) q = record q {
  queue = xs;
  taken = q.taken ++ x ∷ [];
  not_full = notify q.not_full;
}

-- `take` from the test of the loop on.
unfoldable pub take : BoundedBlockingQueue → BoundedBlockingQueue
take q = take_front q.queue q

-- The same by a thread that was woken up.
abbrev pub put_again : ℕ → BoundedBlockingQueue → BoundedBlockingQueue
put_again x q = put x (record q { not_full = get_up q.not_full })

abbrev pub take_again : BoundedBlockingQueue → BoundedBlockingQueue
take_again q = take (record q { not_empty = get_up q.not_empty })

-- A condition may wake a thread for no reason.
abbrev pub wake : Condition → Condition
wake c = notify c
