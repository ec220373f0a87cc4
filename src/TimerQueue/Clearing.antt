-- ===== src/TimerQueue/Clearing.antt =====
-- `clearExpiredTimer` and `cancelInLoop` of TimerQueue.cc: which timers are deleted, and that no deleted
-- one is read.
use simplev.Prelude.{
  ℕ, ◌≡◌, ◌≤◌, refl, sym, ap, ◌∙◌, Bool, true, false, List, [], ◌∷◌, Option, none, some, count,
  arith, ok, ◌==◌, if◌then◌else◌, Bool-cases, inl, inr, map,
}
use simplev.TimerQueue.{TimerQueue, Timer, TimerId, Heap, set, clear_timers, clear_expired_timer}

abbrev pub addresses : List TimerId → List ℕ
addresses ids = map (λ (id : TimerId). id.timer) ids

-- Each of these names a live timer, and no two the same.
pub data AllLive (heap : Heap) : List TimerId → Type 0 where
  all_nil : AllLive heap []
  all_cons :
      {id : TimerId} {ids : List TimerId} (timer : Timer)
      → heap id.timer ≡ some timer
      → timer.sequence ≡ id.sequence
      → count id.timer (addresses ids) ≡ 0
      → AllLive heap ids
      → AllLive heap (id ∷ ids)

-- Another heap with the same timers at their addresses.
pub AllLive-agree :
    (ids : List TimerId) {heap heap' : Heap}
    → ((a : ℕ) → 1 ≤ count a (addresses ids) → heap' a ≡ heap a)
    → AllLive heap ids
    → AllLive heap' ids
AllLive-agree [] same all_nil = all_nil
AllLive-agree (id ∷ ids) same (all_cons timer e s fresh rest) =
    all_cons timer (same id.timer (ground arith) ∙ e) s fresh
      (AllLive-agree ids (λ a h. same a (omega (arith, h))) rest)

-- What the loop makes of the names and the heap.
record Cleared (ids : List TimerId) (heap : Heap) (ids' : List TimerId) (heap' : Heap)
    : Type 0 where
  run : clear_timers ids heap ≡ ok (ids', heap')
  live : AllLive heap' ids'
  others :
      (a : ℕ) → count a (addresses ids) ≡ 0 → (heap' a ≡ heap a) × (count a (addresses ids') ≡ 0)
  kept :
      (a : ℕ) (timer : Timer)
      → 1 ≤ count a (addresses ids)
      → heap a ≡ some timer
      → timer.active ≡ true
      → (heap' a ≡ some timer) × (count a (addresses ids') ≡ 1)
  deleted :
      (a : ℕ) (timer : Timer)
      → 1 ≤ count a (addresses ids)
      → heap a ≡ some timer
      → timer.active ≡ false
      → (heap' a ≡ none) × (count a (addresses ids') ≡ 0)

pub set-same : (p a : ℕ) (t : Option Timer) (heap : Heap) → (a == p) ≡ true → set p t heap a ≡ t
set-same p a t heap e = ap (λ (b : Bool). if b then t else heap a) e

pub set-other :
    (p a : ℕ) (t : Option Timer) (heap : Heap) → (a == p) ≡ false → set p t heap a ≡ heap a
set-other p a t heap e = ap (λ (b : Bool). if b then t else heap a) e

some-injective : {t u : Timer} → ◌≡◌ {A = Option Timer} (some t) (some u) → t ≡ u
some-injective h = cc

clear_timers-step :
    (id : TimerId) (ids ids' : List TimerId) (heap heap' : Heap) (timer : Timer)
    → heap id.timer ≡ some timer
    → clear_timers ids (if timer.active then heap else set id.timer none heap) ≡ ok (ids', heap')
    → clear_timers (id ∷ ids) heap ≡ ok ((if timer.active then id ∷ ids' else ids'), heap')
unfolding clear_timers
clear_timers-step id ids ids' heap heap' timer e h = rw e (rw h refl)

module _ (id : TimerId) (ids ids' : List TimerId) (heap heap' : Heap) (timer : Timer)
    (e : heap id.timer ≡ some timer) (s : timer.sequence ≡ id.sequence)
    (fresh : count id.timer (addresses ids) ≡ 0) where
  at_timer :
      (a : ℕ) → (a == id.timer) ≡ true → (count a (addresses ids) ≡ 0) × (heap a ≡ some timer)
  at_timer a h =
      let same : a ≡ id.timer = ground arith in
      (ap (λ (x : ℕ). count x (addresses ids)) same ∙ fresh, ap heap same ∙ e)

  -- A timer whose watcher is active stays.
  keep-Cleared :
      timer.active ≡ true → Cleared ids heap ids' heap' → Cleared (id ∷ ids) heap (id ∷ ids') heap'
  keep-Cleared on c = record {
    run =
        clear_timers-step id ids ids' heap heap' timer e (goes timer.active on)
        ∙ ap (λ (b : Bool). ok ((if b then id ∷ ids' else ids'), heap')) on;
    live = all_cons timer ((c.others id.timer fresh).0 ∙ e) s (c.others id.timer fresh).1 c.live;
    others = λ a none_there.
        let (same, gone) = c.others a (ground arith) in (same, ground (arith, gone, none_there));
    kept = λ a t there has runs. elim (Bool-cases (a == id.timer)) [
      | inl here_ ↦
          let (alone, is_timer) = at_timer a here_ in
          let (same, gone) = c.others a alone in (same ∙ has, ground (arith, here_, gone))
      | inr away ↦
          let (same, once) = c.kept a t (ground (arith, away, there)) has runs in
          (same, ground (arith, away, once))
    ];
    deleted = λ a t there has stopped. elim (Bool-cases (a == id.timer)) [
      | inl here_ ↦
          let (alone, is_timer) = at_timer a here_ in
          absurd (let same : t ≡ timer = some-injective (sym has ∙ is_timer) in cc)
      | inr away ↦
          let (same, gone) = c.deleted a t (ground (arith, away, there)) has stopped in
          (same, ground (arith, away, gone))
    ];
  }
    where
      goes :
          (b : Bool)
          → b ≡ true
          → clear_timers ids (if b then heap else set id.timer none heap) ≡ ok (ids', heap')
      goes true h = c.run
      goes false h = cc

  -- One whose watcher is not is deleted.
  drop-Cleared :
      timer.active ≡ false
      → Cleared ids (set id.timer none heap) ids' heap'
      → Cleared (id ∷ ids) heap ids' heap'
  drop-Cleared off c = record {
    run =
        clear_timers-step id ids ids' heap heap' timer e (goes timer.active off)
        ∙ ap (λ (b : Bool). ok ((if b then id ∷ ids' else ids'), heap')) off;
    live = c.live;
    others = λ a none_there.
        let (same, gone) = c.others a (ground (arith, none_there)) in
        let away : (a == id.timer) ≡ false = ground (arith, none_there) in
        (same ∙ set-other id.timer a none heap away, gone);
    kept = λ a t there has runs. elim (Bool-cases (a == id.timer)) [
      | inl here_ ↦
          let (alone, is_timer) = at_timer a here_ in
          absurd (let same : t ≡ timer = some-injective (sym has ∙ is_timer) in cc)
      | inr away ↦
          c.kept a t (ground (arith, away, there)) (set-other id.timer a none heap away ∙ has) runs
    ];
    deleted = λ a t there has stopped. elim (Bool-cases (a == id.timer)) [
      | inl here_ ↦
          let (alone, is_timer) = at_timer a here_ in
          let (same, gone) = c.others a alone in (same ∙ set-same id.timer a none heap here_, gone)
      | inr away ↦
          c.deleted a t (ground (arith, away, there)) (set-other id.timer a none heap away ∙ has)
            stopped
    ];
  }
    where
      goes :
          (b : Bool)
          → b ≡ false
          → clear_timers ids (if b then heap else set id.timer none heap) ≡ ok (ids', heap')
      goes false h = c.run
      goes true h = cc

clear_timers-Cleared :
    (ids : List TimerId) (heap : Heap)
    → AllLive heap ids
    → (ids' : List TimerId) × (heap' : Heap) × Cleared ids heap ids' heap'
unfolding clear_timers
clear_timers-Cleared [] heap all_nil = (
  [],
  heap,
  record {
    run = refl;
    live = all_nil;
    others = λ a _. (refl, refl);
    kept = λ a t there _ _. absurd (omega (arith, there));
    deleted = λ a t there _ _. absurd (omega (arith, there));
  },
)
clear_timers-Cleared (id ∷ ids) heap (all_cons timer e s fresh rest) =
    let (kept, kept_heap, k) = clear_timers-Cleared ids heap rest in
    let rest' =
      AllLive-agree ids (λ a there. set-other id.timer a none heap (away_from_timer a there))
        rest in
    let (left, left_heap, d) = clear_timers-Cleared ids (set id.timer none heap) rest' in
    elim (Bool-cases timer.active) [
      | inl on ↦
          (id ∷ kept, kept_heap, keep-Cleared id ids kept heap kept_heap timer e s fresh on k)
      | inr off ↦ (left, left_heap, drop-Cleared id ids left heap left_heap timer e s fresh off d)
    ]
  where
    away_from_timer : (a : ℕ) → 1 ≤ count a (addresses ids) → (a == id.timer) ≡ false
    away_from_timer a there = elim (Bool-cases (a == id.timer)) [
      | inl h ↦ absurd (
          let same : a ≡ id.timer = ground arith in
          let alone = ap (λ (x : ℕ). count x (addresses ids)) same ∙ fresh in
          omega (arith, there, alone))
      | inr h ↦ h
    ]

-- When every valid timer names a live object and no two the same: `clearExpiredTimer` ends without
-- reading a deleted one, deletes exactly the valid timers whose watcher is not active and takes them out
-- of the set, and leaves every other object on the heap as it was; and valid timers still name
-- live objects, no two the same.
pub clear_expired_timer_lem :
    (q : TimerQueue)
    → AllLive q.heap q.valid_timers
    → (q' : TimerQueue) × (clear_expired_timer q ≡ ok q')
      × AllLive q'.heap q'.valid_timers
      × ((a : ℕ) → count a (addresses q.valid_timers) ≡ 0 → q'.heap a ≡ q.heap a)
      × ((a : ℕ) (timer : Timer)
          → 1 ≤ count a (addresses q.valid_timers)
          → q.heap a ≡ some timer
          → timer.active ≡ true
          → (q'.heap a ≡ some timer) × (count a (addresses q'.valid_timers) ≡ 1))
      × ((a : ℕ) (timer : Timer)
          → 1 ≤ count a (addresses q.valid_timers)
          → q.heap a ≡ some timer
          → timer.active ≡ false
          → (q'.heap a ≡ none) × (count a (addresses q'.valid_timers) ≡ 0))
unfolding clear_expired_timer
clear_expired_timer_lem q all_live =
    let (ids', heap', c) = clear_timers-Cleared q.valid_timers q.heap all_live in
    (
      record q { valid_timers = ids'; heap = heap' },
      rw c.run refl,
      c.live,
      λ a h. (c.others a h).0,
      c.kept,
      c.deleted,
    )
