-- ===== src/MutexLock/Tests.antt =====
-- Runs of Mutex.h and Condition.h.
use simplev.Prelude.{◌≡◌, ◌≢◌, ◌↔◌, ℕ, refl, ok, err, assertion, arith}
use simplev.MutexLock.{
  System, start, inside, assert_locked, assign_holder, unassign_holder, destroy, locks, locked,
  waits, sleeps, lock, assign, wait, sleep, Reach, here, next,
}
use simplev.MutexLock.Holder.{Reach-assert_locked}

-- Thread 7 locks and waits, and thread 8 locks while it sleeps.
abbrev changed : System
unfolding locks locked waits sleeps
changed = locked 8 (locks 8 (sleeps 7 (waits 7 (locked 7 (locks 7 start)))))

changed-Reach : Reach start changed
unfolding changed locks locked waits sleeps assign_holder unassign_holder
changed-Reach =
    next
      (next
        (next
          (next (next (next here (lock 7 (omega arith) refl refl)) (assign 7 refl)) (wait 7 refl))
          (sleep 7 refl))
        (lock 8 (omega arith) refl refl))
      (assign 8 refl)

Reach-assert_locked_example :
    ((assert_locked 8 changed.mutex ≡ ok tt) ↔ (changed.place 8 ≡ inside))
    × ((u : ℕ) → changed.place 8 ≡ inside → changed.place u ≡ inside → 8 ≡ u)
    × (destroy changed.mutex ≡ ok tt → changed.place 8 ≢ inside)
    × (((u : ℕ) → changed.place u ≢ inside) → destroy changed.mutex ≡ ok tt)
Reach-assert_locked_example = Reach-assert_locked changed-Reach 8 (omega arith)

only_the_holder : assert_locked 7 changed.mutex ≡ err assertion
unfolding changed locks locked waits sleeps assign_holder unassign_holder assert_locked
only_the_holder = refl
