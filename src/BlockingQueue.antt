-- ===== src/BlockingQueue.antt =====
-- simplev/src/simplev/base/BlockingQueue.h: a queue without a bound. As in BoundedBlockingQueue.antt, what
-- a thread does with the mutex is one step.
pub mod Order
mod Tests
use simplev.Prelude.{ℕ, ◌+◌, ◌-◌, List, [], ◌∷◌, ◌++◌}
use simplev.BoundedBlockingQueue.{Condition, notify, wait, get_up}

pub record BlockingQueue : Type 0 where
  pub not_empty : Condition
  pub queue : List ℕ
  pub taken : List ℕ

abbrev pub init : BlockingQueue
init = record { not_empty = record { asleep = 0; awake = 0 }; queue = []; taken = [] }

unfoldable pub put : ℕ → BlockingQueue → BlockingQueue
put x q = record q { queue = q.queue ++ x ∷ []; not_empty = notify q.not_empty }

abbrev pub take_front : List ℕ → BlockingQueue → BlockingQueue
take_front [] q = record q { not_empty = wait q.not_empty }
take_front (x ∷ xs) q = record q { queue = xs; taken = q.taken ++ x ∷ [] }

-- `take` from the test of the loop on.
unfoldable pub take : BlockingQueue → BlockingQueue
take q = take_front q.queue q

-- The same by a thread that was woken up.
abbrev pub take_again : BlockingQueue → BlockingQueue
take_again q = take (record q { not_empty = get_up q.not_empty })
