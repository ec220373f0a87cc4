-- ===== src/CountDownLatch.antt =====
-- simplev/src/simplev/base/CountDownLatch.h and CountDownLatch.cc: threads wait until a count is down to
-- zero. As in BoundedBlockingQueue.antt, what a thread does with the mutex is one step. `passed` counts
-- the threads that came out of `wait`. `count_`, an int, is an integer without bounds here: it would
-- take 2 ^ 31 calls of `countDown` beyond zero to overflow it.
pub mod Opening
mod Tests
use simplev.Prelude.{ℕ, zero, suc, ◌+◌, Bool, true, false, if◌then◌else◌}
use simplev.Prelude.Int.{ℤ, pos, negsuc}
use simplev.BoundedBlockingQueue.{Condition, get_up}
use simplev.BoundedBlockingQueue

pub record CountDownLatch : Type 0 where
  pub condition : Condition
  pub count : ℤ
  pub passed : ℕ

abbrev pub init : ℤ → CountDownLatch
init count = record { condition = record { asleep = 0; awake = 0 }; count = count; passed = 0 }

-- `count_ > 0`
abbrev pub is_positive : ℤ → Bool
is_positive (pos (suc n)) = true
is_positive (pos zero) = false
is_positive (negsuc n) = false

abbrev pub is_zero : ℤ → Bool
is_zero (pos (suc n)) = false
is_zero (pos zero) = true
is_zero (negsuc n) = false

abbrev pub minus_one : ℤ → ℤ
minus_one (pos (suc n)) = pos n
minus_one (pos zero) = negsuc zero
minus_one (negsuc n) = negsuc (suc n)

-- `pthread_cond_broadcast`
abbrev pub notify_all : Condition → Condition
notify_all c = record { asleep = 0; awake = c.asleep + c.awake }

-- `wait` from the test of the loop on.
unfoldable pub wait : CountDownLatch → CountDownLatch
wait l =
    if is_positive l.count
    then record l { condition = BoundedBlockingQueue.wait l.condition }
    else record l { passed = 1 + l.passed }

-- The same by a thread that was woken up.
abbrev pub wait_again : CountDownLatch → CountDownLatch
wait_again l = wait (record l { condition = get_up l.condition })

unfoldable pub count_down : CountDownLatch → CountDownLatch
count_down l =
    let l' = record l { count = minus_one l.count } in
    if is_zero l'.count then record l' { condition = notify_all l'.condition } else l'
