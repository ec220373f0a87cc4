-- ===== src/TimerQueue/Tests.antt =====
-- Runs of TimerQueue.cc.
use simplev.Prelude.{
  ℕ, leb, ◌≡◌, ◌≤◌, refl, true, false, [], ◌∷◌, none, some, count, ok, ◌==◌, if◌then◌else◌,
}
use simplev.TimerQueue.History
use simplev.TimerQueue.History.{act, expire, Reach-AllLive}
use simplev.TimerQueue.{
  destroy, set, TimerQueue, Timer, TimerId, init, add_timer, add_timer_in_loop, cancel_in_loop,
  clear_expired_timer, find,
}
use simplev.TimerQueue.Clearing.{AllLive, all_nil, all_cons, addresses, clear_expired_timer_lem}
use simplev.TimerQueue.Cancelling.{Names, cancel_in_loop_lem}

-- Thread 1's timers: the one at address 70 is active, the one at 80 expired.
abbrev two : TimerQueue
two = record (init 1) {
  num_created = 2;
  heap = λ a.
      if a == 70
      then some (record { sequence = 1; active = true })
      else if a == 80
      then some (record { sequence = 2; active = false })
      else none;
  valid_timers = record { timer = 80; sequence = 2 } ∷ record { timer = 70; sequence = 1 } ∷ [];
}

two-AllLive : AllLive two.heap two.valid_timers
two-AllLive =
    all_cons (record { sequence = 2; active = false }) refl refl refl
      (all_cons (record { sequence = 1; active = true }) refl refl refl all_nil)

clear_expired_timer_lem_example :
    (q' : TimerQueue) × (clear_expired_timer two ≡ ok q')
    × AllLive q'.heap q'.valid_timers
    × ((a : ℕ) → count a (addresses two.valid_timers) ≡ 0 → q'.heap a ≡ two.heap a)
    × ((a : ℕ) (timer : Timer)
        → 1 ≤ count a (addresses two.valid_timers)
        → two.heap a ≡ some timer
        → timer.active ≡ true
        → (q'.heap a ≡ some timer) × (count a (addresses q'.valid_timers) ≡ 1))
    × ((a : ℕ) (timer : Timer)
        → 1 ≤ count a (addresses two.valid_timers)
        → two.heap a ≡ some timer
        → timer.active ≡ false
        → (q'.heap a ≡ none) × (count a (addresses q'.valid_timers) ≡ 0))
clear_expired_timer_lem_example = clear_expired_timer_lem two two-AllLive

abbrev old : TimerId
old = record { timer = 70; sequence = 0 }

cancel_in_loop_lem_example :
    ((Names old two.heap → ⊥) → cancel_in_loop 1 old two ≡ ok two)
    × (find old two.valid_timers ≡ true
        → (q' : TimerQueue) × (cancel_in_loop 1 old two ≡ ok q')
          × AllLive q'.heap q'.valid_timers
          × ((timer : Timer) × (q'.heap 70 ≡ some timer) × (timer.active ≡ false))
          × ((a : ℕ) → (a == 70) ≡ false → q'.heap a ≡ two.heap a))
cancel_in_loop_lem_example = cancel_in_loop_lem 1 old two refl two-AllLive

-- A new timer at address 90 is started and valid at once.
added : (q : TimerQueue) × (add_timer 1 90 two ≡ ok q)
unfolding add_timer add_timer_in_loop
added = (_, refl)

-- A timer at address 70 that is due.
abbrev due : TimerQueue
due = record (init 1) {
  num_created = 1;
  heap = set 70 (some (record { sequence = 1; active = false })) (
      set 70 (some (record { sequence = 1; active = true }))
        (set 70 (some (record { sequence = 1; active = false })) (λ _. none)));
  valid_timers = record { timer = 70; sequence = 1 } ∷ [];
}

due-Reach : History.Reach 1 (init 1) due
unfolding act add_timer add_timer_in_loop
due-Reach =
    History.next (History.expires 70) (History.next (History.adds 70) History.here refl refl) tt
      refl

Reach-AllLive_example :
    ((q' : TimerQueue) × (act 1 History.clears due ≡ ok q') × AllLive q'.heap q'.valid_timers)
    × ((q' : TimerQueue) × (destroy due ≡ ok q')
        × ((x : ℕ)
            → q'.heap x
              ≡ (if leb 1 (count x (addresses due.valid_timers)) then none else due.heap x)))
Reach-AllLive_example = Reach-AllLive History.clears due-Reach tt
