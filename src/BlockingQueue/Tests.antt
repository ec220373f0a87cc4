-- ===== src/BlockingQueue/Tests.antt =====
-- Runs of BlockingQueue.h.
use simplev.Prelude.{◌≡◌, ◌≤◌, refl, [], ◌∷◌, ◌++◌, length}
use simplev.BlockingQueue.{BlockingQueue, init, put, take, take_again}
use simplev.BlockingQueue.Order.{Reach, here, next, puts, takes, Reach-elements}

-- A thread waits in `take`; then 7 and 8 are put in.
abbrev waiting : BlockingQueue
waiting = put 8 (put 7 (take init))

waiting-Reach : Reach init (7 ∷ 8 ∷ []) waiting
waiting-Reach = next (next (next here takes) (puts 7)) (puts 8)

Reach-elements_example :
    (waiting.taken ++ waiting.queue ≡ 7 ∷ 8 ∷ [])
    × (1 ≤ waiting.not_empty.asleep → length waiting.queue ≤ waiting.not_empty.awake)
Reach-elements_example = Reach-elements waiting-Reach

served : (take_again waiting).taken ≡ 7 ∷ []
unfolding put take
served = refl
