-- ===== src/MutexLock/Holder.antt =====
-- The holder of a mutex of Mutex.h among the threads that lock it.
use simplev.Prelude.{ℕ, ◌≡◌, ◌≢◌, ◌≤◌, ◌↔◌, refl, sym, ◌∙◌, Bool, true, false, some, arith, ok}
use simplev.MutexLock.{
  is_locked_by_this_thread, assert_locked, assign_holder, unassign_holder, destroy, System, Place,
  outside, locking, inside, unlocking, waiting, asleep, start, locks, locked, unlocks, unlocked,
  waits, sleeps, Step, lock, assign, unassign, unlock, wait, sleep, wake, Reach, here, next,
}

-- The places where a thread has the pthread mutex.
abbrev pub owns : Place → Bool
owns outside = false
owns locking = true
owns inside = true
owns unlocking = true
owns waiting = true
owns asleep = false

record IsHeld (s : System) : Type 0 where
  owned : (t : ℕ) → owns (s.place t) ≡ true → s.mutex.owner ≡ some t
  holds : (t : ℕ) → s.place t ≡ inside → s.mutex.holder ≡ t
  held : s.mutex.holder ≢ 0 → s.place s.mutex.holder ≡ inside
  no_zero : s.place 0 ≡ outside

Step-IsHeld : {s s' : System} → IsHeld s → Step s s' → IsHeld s'
unfolding locks locked unlocks unlocked waits sleeps assign_holder unassign_holder
Step-IsHeld {s} h (lock tid pos out free) = record {
  owned = λ t o. ground (arith, h.owned t);
  holds = λ t o. ground (arith, h.holds t);
  held = λ o. ground (arith, h.held o);
  no_zero = ground (arith, h.no_zero);
}
Step-IsHeld {s} h (assign tid at) = record {
  owned = λ t o. ground (arith, h.owned t, h.owned tid);
  holds = λ t o. ground (arith, h.holds t, h.owned t, h.owned tid);
  held = λ o. ground (arith, h.held, h.holds tid);
  no_zero = ground (arith, h.no_zero);
}
Step-IsHeld {s} h (unassign tid at) = record {
  owned = λ t o. ground (arith, h.owned t, h.owned tid);
  holds = λ t o. ground (arith, h.holds t, h.owned t, h.owned tid);
  held = λ o. ground (arith, h.held, h.holds tid);
  no_zero = ground (arith, h.no_zero);
}
Step-IsHeld {s} h (unlock tid at) = record {
  owned = λ t o. ground (arith, h.owned t, h.owned tid);
  holds = λ t o. ground (arith, h.holds t, h.owned t, h.owned tid);
  held = λ o. ground (arith, h.held, h.holds tid);
  no_zero = ground (arith, h.no_zero);
}
Step-IsHeld {s} h (wait tid at) = record {
  owned = λ t o. ground (arith, h.owned t, h.owned tid);
  holds = λ t o. ground (arith, h.holds t, h.owned t, h.owned tid);
  held = λ o. ground (arith, h.held, h.holds tid);
  no_zero = ground (arith, h.no_zero);
}
Step-IsHeld {s} h (sleep tid at) = record {
  owned = λ t o. ground (arith, h.owned t, h.owned tid);
  holds = λ t o. ground (arith, h.holds t, h.owned t, h.owned tid);
  held = λ o. ground (arith, h.held, h.holds tid);
  no_zero = ground (arith, h.no_zero);
}
Step-IsHeld {s} h (wake tid at free) = record {
  owned = λ t o. ground (arith, h.owned t, h.owned tid);
  holds = λ t o. ground (arith, h.holds t, h.owned t, h.owned tid);
  held = λ o. ground (arith, h.held, h.holds tid);
  no_zero = ground (arith, h.no_zero);
}

Reach-IsHeld : {s s' : System} → IsHeld s → Reach s s' → IsHeld s'
Reach-IsHeld h here = h
Reach-IsHeld h (next r st) = Step-IsHeld (Reach-IsHeld h r) st

start-IsHeld : IsHeld start
start-IsHeld = record {
  owned = λ t o. cc;
  holds = λ t o. cc;
  held = λ o. absurd (o refl);
  no_zero = refl;
}

-- However threads lock and unlock a new mutex and wait under it: `assertLocked` succeeds in a thread
-- exactly when it is between `lock` and `unlock`, not counting its waits, whatever other threads do in
-- the meantime; two threads are never there together; and the destructor's assertion holds
-- exactly when no thread is there.
pub Reach-assert_locked :
    {s : System}
    → Reach start s
    → (t : ℕ) → 1 ≤ t
    → ((assert_locked t s.mutex ≡ ok tt) ↔ (s.place t ≡ inside))
      × ((u : ℕ) → s.place t ≡ inside → s.place u ≡ inside → t ≡ u)
      × (destroy s.mutex ≡ ok tt → s.place t ≢ inside)
      × (((u : ℕ) → s.place u ≢ inside) → destroy s.mutex ≡ ok tt)
unfolding assert_locked destroy is_locked_by_this_thread
Reach-assert_locked {s} r t pos =
    let h = Reach-IsHeld start-IsHeld r in
    (
      (λ e. ground (arith, e, h.held), λ i. ground (arith, h.holds t i)),
      λ u i j. sym (h.holds t i) ∙ h.holds u j,
      λ e i. ground (arith, e, h.holds t i),
      λ free. ground (arith, h.held, free s.mutex.holder),
    )
