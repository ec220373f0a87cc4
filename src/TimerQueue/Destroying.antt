-- ===== src/TimerQueue/Destroying.antt =====
-- The destructor of TimerQueue.cc.
use simplev.Prelude.{
  ℕ, ◌≡◌, ◌≤◌, refl, ap, ◌∙◌, false, List, [], ◌∷◌, none, ok, ◌>>=◌, ◌==◌, if◌then◌else◌, inl, inr,
  Bool-cases, arith, count, leb,
}
use simplev.TimerQueue.{TimerId, Heap, TimerQueue, set, deref, delete_timers, destroy}
use simplev.TimerQueue.Clearing.{AllLive, all_nil, all_cons, AllLive-agree, addresses, set-other}

delete_timers_lem :
    (ids : List TimerId) (heap : Heap)
    → AllLive heap ids
    → (heap' : Heap) × (delete_timers ids heap ≡ ok heap')
      × ((a : ℕ) → heap' a ≡ (if leb 1 (count a (addresses ids)) then none else heap a))
unfolding delete_timers
delete_timers_lem [] heap all_nil = (heap, refl, λ a. refl)
delete_timers_lem (id ∷ ids) heap (all_cons timer e s fresh rest) =
    let rest' = AllLive-agree ids (λ a there. set-other id.timer a none heap (away a there)) rest in
    let (heap', ran, left) = delete_timers_lem ids (set id.timer none heap) rest' in
    (
      heap',
      ap (λ t. deref t >>= λ _. delete_timers ids (set id.timer none heap)) e ∙ ran,
      λ a. left a ∙ ground arith,
    )
  where
    away : (a : ℕ) → 1 ≤ count a (addresses ids) → (a == id.timer) ≡ false
    away a there = elim (Bool-cases (a == id.timer)) [
      | inl h ↦ absurd (
          let same : a ≡ id.timer = ground arith in
          let alone = ap (λ (x : ℕ). count x (addresses ids)) same ∙ fresh in
          omega (arith, there, alone))
      | inr h ↦ h
    ]

-- When every valid timer names a live object and no two the same: the destructor deletes exactly these
-- objects, each once.
pub destroy_lem :
    (q : TimerQueue)
    → AllLive q.heap q.valid_timers
    → (q' : TimerQueue) × (destroy q ≡ ok q')
      × ((a : ℕ)
          → q'.heap a ≡ (if leb 1 (count a (addresses q.valid_timers)) then none else q.heap a))
unfolding destroy
destroy_lem q all_live =
    let (heap', ran, left) = delete_timers_lem q.valid_timers q.heap all_live in
    (record q { heap = heap' }, rw ran refl, left)
