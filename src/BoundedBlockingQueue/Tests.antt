-- ===== src/BoundedBlockingQueue/Tests.antt =====
-- Runs of BoundedBlockingQueue.h.
use simplev.Prelude.{◌-◌, ◌≡◌, ◌≤◌, refl, [], ◌∷◌, ◌++◌, length}
use simplev.BoundedBlockingQueue.{BoundedBlockingQueue, init, put, take, take_again}
use simplev.BoundedBlockingQueue.Progress.{Reach, here, next, puts, takes, Reach-IsLive}
use simplev.BoundedBlockingQueue.Order.{Reach-stored}

-- A thread waits in `take` of an empty queue with room for one element; another puts 7 in, and a third
-- waits to put in 8.
abbrev crowded : BoundedBlockingQueue
crowded = put 8 (put 7 (take (init 1)))

crowded-Reach : Reach (init 1) (7 ∷ []) crowded
unfolding put take
crowded-Reach = next (next (next here takes) (puts 7)) (puts 8)

Reach-IsLive_example :
    (length crowded.queue ≤ crowded.capacity)
    × (1 ≤ crowded.not_empty.asleep → length crowded.queue ≤ crowded.not_empty.awake)
    × (1 ≤ crowded.not_full.asleep
        → crowded.capacity - length crowded.queue ≤ crowded.not_full.awake)
Reach-IsLive_example = Reach-IsLive 1 crowded-Reach

Reach-stored_example : crowded.taken ++ crowded.queue ≡ 7 ∷ []
Reach-stored_example = Reach-stored crowded-Reach

served : (take_again crowded).taken ≡ 7 ∷ []
unfolding put take
served = refl
