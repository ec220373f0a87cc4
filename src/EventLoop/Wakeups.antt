-- ===== src/EventLoop/Wakeups.antt =====
-- When a loop of EventLoop.cc sleeps: a functor that waits, or the wish to quit, leaves the event
-- descriptor readable, or another thread is about to make it so.
use simplev.Prelude.{
  ℕ, ◌≡◌, ◌≤◌, refl, sym, ap, subst, true, false, List, [], ◌∷◌, ◌⊎◌, inl, inr, arith,
}
use simplev.EventLoop.{
  EventLoop, dispatching, polling, is_in_loop_thread, Access, pushes, wakes_if_needed, sets_quit,
  wakes_elsewhere, access, queue_in_loop_body, quit_body, wakeup, handle_read, check_quit, dispatch,
  break_loop,
}
use simplev.EventLoop.Order.{
  System, Step, queues, quits, accesses, begins, runs, ends, checks, polls, reads, Reach, here,
  next, if-case,
}
use simplev.EventLoop.Parts.{IsPart, done, IsProper, RunsUserCode-cases, Reach-IsProper}
use simplev.EventLoop.Awake.{
  is_past_swap, is_waking, Woken, IsAwake, before_swap-IsAwake, begun-IsAwake, accessed-IsAwake,
}

Step-IsAwake :
    {s : System} {queued : List ℕ} {s' : System}
    → IsProper s
    → IsAwake s
    → Step s queued s'
    → IsAwake s'
unfolding check_quit handle_read
Step-IsAwake {s} p a (queues thread f free c) = begun-IsAwake thread (queue_in_loop_body f) s free a
Step-IsAwake {s} p a (quits thread free c) = begun-IsAwake thread quit_body s free a
Step-IsAwake {s} p a (accesses thread b behind e) =
    accessed-IsAwake thread s (subst IsPart e (p.part thread)) e p a
Step-IsAwake {s} p a (begins free at) = record {
  calls = λ _. refl;
  wakes = λ _ waiting. absurd (waiting refl);
  stops = λ h. absurd cc;
}
Step-IsAwake {s} p a (runs f fs free at split) = record {
  calls = a.calls;
  wakes = a.wakes;
  stops = a.stops;
}
Step-IsAwake {s} p a (ends free at empty) = record {
  calls = λ h. absurd cc;
  wakes = λ _ waiting. a.wakes (ap is_past_swap at) waiting;
  stops = λ h. absurd cc;
}
Step-IsAwake {s} p a (checks free at) =
    if-case (λ d. IsAwake (record s { loop = d })) s.loop.quit
      (λ _. before_swap-IsAwake (record s { loop = break_loop s.loop }) refl)
      (λ stays. record {
        calls = λ h. absurd cc;
        wakes = λ _ waiting. a.wakes (ap is_past_swap at) waiting;
        stops = λ _ stopped. absurd cc;
      })
Step-IsAwake {s} p a (polls free at) =
    before_swap-IsAwake (record s { loop = dispatch s.loop }) refl
Step-IsAwake {s} p a (reads free at) =
    before_swap-IsAwake (record s { loop = record s.loop { counter = 0 } }) (ap is_past_swap at)

Reach-IsAwake :
    {s : System} {queued : List ℕ} {s' : System}
    → IsProper s
    → IsAwake s
    → Reach s queued s'
    → IsAwake s'
Reach-IsAwake p a here = a
Reach-IsAwake p a (next r st) = Step-IsAwake (Reach-IsProper p r) (Reach-IsAwake p a r) st

-- The wake-up that is owed makes the event descriptor readable.
counter-access :
    (t : ℕ) (a : Access) (e : EventLoop)
    → is_in_loop_thread t e ≡ false
    → is_waking a ≡ true
    → 1 ≤ (access t a e).counter
unfolding access wakeup
counter-access t (pushes f) e away w = absurd cc
counter-access t wakes_if_needed e away w = ground arith
counter-access t sets_quit e away w = absurd cc
counter-access t wakes_elsewhere e away w = ground arith

-- The event descriptor is readable, or the last access of a call in another thread makes it so.
abbrev pub IsReadable : System → Type 0
IsReadable s =
    (1 ≤ s.loop.counter)
    ⊎ ((t : ℕ) × (a : Access) × (is_in_loop_thread t s.loop ≡ false)
        × (s.rest t ≡ a ∷ [])
        × (1 ≤ (access t a s.loop).counter))

Woken-IsReadable : (s : System) → Woken s → IsReadable s
Woken-IsReadable s (inl up) = inl up
Woken-IsReadable s (inr (t, a, away, last, w)) =
    inr (t, a, away, last, counter-access t a s.loop away w)

-- No wake-up is lost. However the accesses of threads and the steps of the loop take turns from the
-- start of an iteration on, when no thread was in `queueInLoop` or `quit`: while the loop polls, and a
-- functor waits or the loop is to quit, the event descriptor is readable, so that the poll returns, or
-- another thread has one access of its call left, and that access makes it readable.
pub Reach-counter :
    {s : System} {queued : List ℕ} {s' : System}
    → s.loop.phase ≡ dispatching
    → ((t : ℕ) → s.rest t ≡ [])
    → Reach s queued s'
    → s'.loop.phase ≡ polling
    → ((s'.loop.pending_functors ≡ [] → ⊥) ⊎ (s'.loop.quit ≡ true))
    → IsReadable s'
Reach-counter {s} {queued} {s'} at free r sleeps = by_wish
  where
    proper : IsProper s
    proper = record {
      part = λ t. subst IsPart (sym (free t)) done;
      at_work = inl (free s.loop.thread_id);
    }

    awake : IsAwake s'
    awake = Reach-IsAwake proper (before_swap-IsAwake s (ap is_past_swap at)) r

    not_own : s'.rest s'.loop.thread_id ≡ wakes_if_needed ∷ [] → ⊥
    not_own e = elim (Reach-IsProper proper r).at_work [
      | inl none ↦ cc
      | inr h ↦ elim (RunsUserCode-cases h) [ inl early ↦ cc | inr late ↦ cc ]
    ]

    by_wish : ((s'.loop.pending_functors ≡ [] → ⊥) ⊎ (s'.loop.quit ≡ true)) → IsReadable s'
    by_wish (inl waiting) = elim (awake.wakes (ap is_past_swap sleeps) waiting) [
      | inl w ↦ Woken-IsReadable s' w
      | inr e ↦ absurd (not_own e)
    ]
    by_wish (inr stopped) = Woken-IsReadable s' (awake.stops sleeps stopped)
