-- ===== src/EventLoop/Iteration.antt =====
-- `prepareCallBack` of EventLoop.cc without other threads in between, with functors that call
-- `queueInLoop` and `quit` themselves.
use simplev.Prelude.{
  ℕ, ◌≡◌, ◌≤◌, refl, sym, ap, ◌∙◌, Bool, true, false, ◌||◌, List, [], ◌++◌, arith, ok,
  if◌then◌else◌,
}
use simplev.TimerQueue
use simplev.TimerQueue.{TimerQueue}
use simplev.TimerQueue.Clearing.{AllLive, clear_expired_timer_lem}
use simplev.EventLoop.{
  EventLoop, idle, polling, Call, begin_pending_functors, end_pending_functors, run_functors,
  check_quit, do_pending_functors, prepare_call_back,
}
use simplev.EventLoop.Order.{if-case}
use simplev.EventLoop.Functors.{queued_by, stopped_by, calls_of, run_functors-After}

-- Whether the loop polls.
check_quit-phase : (e : EventLoop) → (check_quit e).phase ≡ (if e.quit then idle else polling)
unfolding check_quit
check_quit-phase e = by_quit e.quit
  where
    by_quit :
        (b : Bool)
        → (if b
            then record e { phase = idle; looping = false }
            else record e { phase = polling }).phase
          ≡ (if b then idle else polling)
    by_quit true = refl
    by_quit false = refl

check_quit-kept :
    (e : EventLoop)
    → ((check_quit e).ran ≡ e.ran)
      × ((check_quit e).pending_functors ≡ e.pending_functors)
      × ((check_quit e).counter ≡ e.counter)
      × ((check_quit e).timers ≡ e.timers)
unfolding check_quit
check_quit-kept e =
    if-case
      (λ d.
        (d.ran ≡ e.ran)
        × (d.pending_functors ≡ e.pending_functors)
        × (d.counter ≡ e.counter)
        × (d.timers ≡ e.timers))
      e.quit (λ _. (refl, refl, refl, refl)) (λ _. (refl, refl, refl, refl))

-- When the valid timers are live: the callback of the prepare watcher ends, with the expired timers
-- cleared, and every functor that waited has run, once and in order. What they queued meanwhile waits, in
-- order, for the next iteration, and the event descriptor is readable if there is any; and the loop
-- ends if it was to quit or one of them called `quit`, and otherwise polls.
pub prepare_call_back_lem :
    (body : ℕ → List Call) (e : EventLoop)
    → AllLive e.timers.heap e.timers.valid_timers
    → let cs = calls_of body e.pending_functors in
      (d : EventLoop) × (prepare_call_back body e ≡ ok d)
      × (TimerQueue.clear_expired_timer e.timers ≡ ok d.timers)
      × (d.ran ≡ e.ran ++ e.pending_functors)
      × (d.pending_functors ≡ queued_by cs)
      × ((queued_by cs ≡ [] → ⊥) → 1 ≤ d.counter)
      × (d.phase ≡ (if e.quit || stopped_by cs then idle else polling))
unfolding prepare_call_back do_pending_functors
prepare_call_back_lem body e live =
    let (timers, cleared, _, _, _, _) = clear_expired_timer_lem e.timers live in
    let e₁ = begin_pending_functors (record e { timers = timers }) in
    let e₂ = run_functors body e.pending_functors e₁ in
    let a = run_functors-After body e.pending_functors e₁ refl in
    let e₃ = end_pending_functors e₂ in
    let (ran, waiting, counter, timers_kept) = check_quit-kept e₃ in
    (
      check_quit e₃,
      rw cleared refl,
      cleared ∙ ap (λ (q : TimerQueue). ok q) (sym (timers_kept ∙ a.timers)),
      ran ∙ a.ran,
      waiting ∙ a.waiting,
      λ some_. let w = a.woken some_ in omega (arith, w, counter),
      check_quit-phase e₃ ∙ ap (λ (b : Bool). if b then idle else polling) a.stopped,
    )
