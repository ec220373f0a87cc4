-- ===== src/TimerQueue/Cancelling.antt =====
-- `cancelInLoop` of TimerQueue.cc: a name that is out of date does nothing.
use simplev.Prelude.{
  ℕ, ◌≡◌, refl, sym, ap, ◌∙◌, Bool, true, false, ◌&&◌, List, [], ◌∷◌, Option, some, arith, ok,
  ensure-true, fatal, ◌>>=◌, ◌==◌, if◌then◌else◌, Bool-cases, inl, inr,
}
use simplev.TimerQueue.{
  TimerQueue, Timer, TimerId, Heap, set, deref, find, set_active, cancel_in_loop,
}
use simplev.TimerQueue.Clearing.{AllLive, all_nil, all_cons, set-same, set-other}

-- The object that a name stands for.
abbrev pub Names : TimerId → Heap → Type 0
Names id heap = (timer : Timer) × (heap id.timer ≡ some timer) × (timer.sequence ≡ id.sequence)

pub find-Names :
    (id : TimerId) (ids : List TimerId) {heap : Heap}
    → AllLive heap ids
    → find id ids ≡ true
    → Names id heap
find-Names id [] all_nil found = cc
find-Names id (x ∷ ids) {heap} (all_cons timer e s fresh rest) found =
    elim (Bool-cases (x.timer == id.timer && (x.sequence == id.sequence))) [
      | inl h ↦
          let same : x.timer ≡ id.timer = ground arith in
          let same_sequence : x.sequence ≡ id.sequence = ground arith in
          (timer, ap heap (sym same) ∙ e, s ∙ same_sequence)
      | inr h ↦ find-Names id ids rest (ground (arith, h, found))
    ]

-- Starting or stopping a watcher keeps the objects that names stand for.
pub set_active-AllLive :
    (p : ℕ) (active : Bool) (timer : Timer) (ids : List TimerId) {heap : Heap}
    → heap p ≡ some timer
    → AllLive heap ids
    → AllLive (set p (some (record timer { active = active })) heap) ids
set_active-AllLive p active timer [] e all_nil = all_nil
set_active-AllLive p active timer (id ∷ ids) {heap} e (all_cons t e' s fresh rest) =
    let rest' = set_active-AllLive p active timer ids e rest in
    elim (Bool-cases (id.timer == p)) [
      | inl h ↦
          let same : id.timer ≡ p = ground arith in
          let same_timer : some timer ≡ some t = sym e ∙ (ap heap (sym same) ∙ e') in
          all_cons (record timer { active = active })
            (set-same p id.timer (some (record timer { active = active })) heap h)
            (let is_t : timer ≡ t = cc in ap (λ (u : Timer). u.sequence) is_t ∙ s) fresh rest'
      | inr h ↦
          all_cons t (set-other p id.timer (some (record timer { active = active })) heap h ∙ e') s
            fresh rest'
    ]

-- `cancelInLoop` in the loop's thread, when every valid timer names a live object: a name whose object was
-- deleted does nothing, even if its address was given to a newer timer since; and the name of a
-- valid timer stops that timer's watcher, whose object is there, and no other.
pub cancel_in_loop_lem :
    (thread : ℕ) (id : TimerId) (q : TimerQueue)
    → q.loop_thread ≡ thread
    → AllLive q.heap q.valid_timers
    → ((Names id q.heap → ⊥) → cancel_in_loop thread id q ≡ ok q)
      × (find id q.valid_timers ≡ true
          → (q' : TimerQueue) × (cancel_in_loop thread id q ≡ ok q')
            × AllLive q'.heap q'.valid_timers
            × ((timer : Timer) × (q'.heap id.timer ≡ some timer) × (timer.active ≡ false))
            × ((a : ℕ) → (a == id.timer) ≡ false → q'.heap a ≡ q.heap a))
unfolding cancel_in_loop
cancel_in_loop_lem thread id q at all_live =
    let here_ : (q.loop_thread == thread) ≡ true = ground arith in
    (
      λ stale.
          ensure-true here_ fatal _
          ∙ missed (λ found. stale (find-Names id q.valid_timers all_live found)),
      λ found.
          let (timer, e, s) = find-Names id q.valid_timers all_live found in
          let stopped = some (record timer { active = false }) in
          (
            record q { heap = set id.timer stopped q.heap },
            ensure-true here_ fatal _
                ∙ (ap (λ (b : Bool). if b then set_active false id.timer q else ok q) found
                    ∙ ap
                        (λ (o : Option Timer). deref o >>= λ t. ok (record q {
                          heap = set id.timer (some (record t { active = false })) q.heap;
                        }))
                        e),
            set_active-AllLive id.timer false timer q.valid_timers e all_live,
            (
              record timer { active = false },
              set-same id.timer id.timer stopped q.heap (ground arith),
              refl,
            ),
            λ a away. set-other id.timer a stopped q.heap away,
          ),
    )
  where
    missed :
        ((find id q.valid_timers ≡ true) → ⊥)
        → (if find id q.valid_timers then set_active false id.timer q else ok q) ≡ ok q
    missed never = elim (Bool-cases (find id q.valid_timers)) [
      | inl h ↦ absurd (never h)
      | inr h ↦ ap (λ (b : Bool). if b then set_active false id.timer q else ok q) h
    ]
