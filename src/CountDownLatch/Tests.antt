-- ===== src/CountDownLatch/Tests.antt =====
-- Runs of CountDownLatch.cc.
use simplev.Prelude.{◌≡◌, ◌≤◌, refl, true, false}
use simplev.Prelude.Int.{pos}
use simplev.CountDownLatch.{CountDownLatch, init, is_positive, wait, wait_again, count_down}
use simplev.CountDownLatch.Opening.{here, next, waits, counts_down, Reach-sleepers}

-- A thread waits for one `count_down`.
abbrev opened : CountDownLatch
opened = wait (count_down (wait (init (pos 1))))

Reach-sleepers_example :
    (1 ≤ opened.condition.asleep → is_positive opened.count ≡ true)
    × (1 ≤ opened.passed → is_positive opened.count ≡ false)
Reach-sleepers_example = Reach-sleepers (pos 1) (next (next (next here waits) counts_down) waits)

both : (wait_again opened).passed ≡ 2
unfolding wait count_down
both = refl
