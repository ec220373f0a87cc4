-- ===== src/TimerQueue/Adding.antt =====
-- `addTimer` of TimerQueue.cc in the loop's thread.
use simplev.Prelude.{
  ℕ, ◌+◌, ◌≡◌, ◌≤◌, refl, sym, ap, ◌∙◌, Bool, true, false, List, [], ◌∷◌, ◌++◌, Option, none, some,
  count, arith, Result, ok, ensure-true, fatal, ◌>>=◌, ◌==◌, if◌then◌else◌, Bool-cases, inl, inr,
}
use simplev.TimerQueue.{
  TimerQueue, Timer, TimerId, Heap, set, deref, find, insert, add_functor, set_active, next_id,
  add_timer, add_timer_in_loop,
}
use simplev.TimerQueue.Clearing.{
  AllLive, all_nil, all_cons, addresses, set-same, set-other, AllLive-agree,
}
use simplev.TimerQueue.Cancelling.{find-Names}

-- An address without an object is the address of no valid timer.
count-free :
    (p : ℕ) (ids : List TimerId) {heap : Heap}
    → heap p ≡ none
    → AllLive heap ids
    → count p (addresses ids) ≡ 0
count-free p [] free all_nil = refl
count-free p (id ∷ ids) {heap} free (all_cons timer e s fresh rest) =
    let ih = count-free p ids free rest in
    elim (Bool-cases (p == id.timer)) [
      | inl h ↦ absurd (
          let same : p ≡ id.timer = ground arith in
          let e' : none ≡ some timer = sym free ∙ (ap heap same ∙ e) in cc)
      | inr h ↦ ground (arith, h, ih)
    ]

-- `addTimer` in the loop's thread, with a new object at an address that had none: the timer is started,
-- and its name, with a new sequence number, is valid with the others, which all still name live
-- objects, no two the same.
pub add_timer_lem :
    (thread address : ℕ) (q : TimerQueue)
    → q.loop_thread ≡ thread
    → q.heap address ≡ none
    → AllLive q.heap q.valid_timers
    → (q' : TimerQueue) × (add_timer thread address q ≡ ok q')
      × (q'.valid_timers ≡ next_id address q ∷ q.valid_timers)
      × AllLive q'.heap q'.valid_timers
      × (q'.heap address ≡ some (record { sequence = 1 + q.num_created; active = true }))
      × ((a : ℕ) → (a == address) ≡ false → q'.heap a ≡ q.heap a)
unfolding add_timer add_timer_in_loop
add_timer_lem thread address q at free all_live = (
  record q { num_created = 1 + q.num_created; heap = heap₂; valid_timers = id ∷ q.valid_timers },
  runs,
  refl,
  all_cons fresh_timer at_address refl unused
      (AllLive-agree q.valid_timers (λ a there. others a (away a there)) all_live),
  at_address,
  others,
)
  where
    id : TimerId
    id = next_id address q

    fresh_timer : Timer
    fresh_timer = record { sequence = 1 + q.num_created; active = true }

    heap₁ : Heap
    heap₁ = set address (some (record { sequence = 1 + q.num_created; active = false })) q.heap

    heap₂ : Heap
    heap₂ = set address (some fresh_timer) heap₁

    here_ : (q.loop_thread == thread) ≡ true
    here_ = ground arith

    own : (address == address) ≡ true
    own = ground arith

    at_address : heap₂ address ≡ some fresh_timer
    at_address = set-same address address (some fresh_timer) heap₁ own

    others : (a : ℕ) → (a == address) ≡ false → heap₂ a ≡ q.heap a
    others a h =
        set-other address a (some fresh_timer) heap₁ h
        ∙ set-other address a (some (record { sequence = 1 + q.num_created; active = false }))
            q.heap h

    unused : count address (addresses q.valid_timers) ≡ 0
    unused = count-free address q.valid_timers free all_live

    away : (a : ℕ) → 1 ≤ count a (addresses q.valid_timers) → (a == address) ≡ false
    away a there = elim (Bool-cases (a == address)) [
      | inl h ↦ absurd (
          let same : a ≡ address = ground arith in
          let none_there = ap (λ (x : ℕ). count x (addresses q.valid_timers)) same ∙ unused in
          omega (arith, there, none_there))
      | inr h ↦ h
    ]

    new : find id q.valid_timers ≡ false
    new = elim (Bool-cases (find id q.valid_timers)) [
      | inl h ↦ absurd (
          let (timer, e, _) = find-Names id q.valid_timers all_live h in
          let e' : none ≡ some timer = sym free ∙ e in cc)
      | inr h ↦ h
    ]

    q₁ : TimerQueue
    q₁ = record q { num_created = 1 + q.num_created; heap = heap₁ }

    started : set_active true address q₁ ≡ ok (record q₁ { heap = heap₂ })
    started =
        ap
          (λ (o : Option Timer). deref o >>= λ t.
            ok (record q₁ { heap = set address (some (record t { active = true })) heap₁ }))
          (set-same address address (some (record { sequence = 1 + q.num_created; active = false }))
            q.heap own)

    runs :
        add_timer thread address q
        ≡ ok (record q {
          num_created = 1 + q.num_created;
          heap = heap₂;
          valid_timers = id ∷ q.valid_timers;
        })
    runs =
        ap
          (λ (b : Bool).
            if b
            then add_timer_in_loop thread id q₁
            else ok (record q₁ { queued = q.queued ++ add_functor id ∷ [] }))
          here_
        ∙ (ensure-true here_ fatal _
            ∙ (ap
                  (λ (m : Result TimerQueue).
                    m >>= λ q'. ok (record q' { valid_timers = insert id q'.valid_timers }))
                  started
                ∙ ap
                    (λ (b : Bool). ok (record q₁ {
                      heap = heap₂;
                      valid_timers = if b then q.valid_timers else id ∷ q.valid_timers;
                    }))
                    new))
