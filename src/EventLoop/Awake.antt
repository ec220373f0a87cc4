-- ===== src/EventLoop/Awake.antt =====
-- What keeps a loop of EventLoop.cc from sleeping through a call, and that each access of a thread keeps
-- it.
use simplev.Prelude.{
  ℕ, ◌≡◌, ◌≤◌, refl, sym, ap, ◌∙◌, Bool, true, false, not, ◌||◌, List, [], ◌∷◌, ◌⊎◌, inl, inr,
  arith, ◌==◌, Bool-cases,
}
use simplev.EventLoop.{
  Phase, idle, dispatching, running, checking, polling, is_in_loop_thread, Access, pushes,
  wakes_if_needed, sets_quit, wakes_elsewhere, access, wakeup, push_back,
}
use simplev.EventLoop.Order.{System, set_rest, RunsUserCode, if-case}
use simplev.EventLoop.Parts.{
  IsPart, queueing, waking, quitting, waking_elsewhere, IsProper, RunsUserCode-cases, set_rest-own,
  set_rest-other, own-RunsUserCode,
}

-- From the swap of `doPendingFunctors` on until the poll returns.
abbrev pub is_past_swap : Phase → Bool
is_past_swap idle = false
is_past_swap dispatching = false
is_past_swap running = true
is_past_swap checking = true
is_past_swap polling = true

abbrev pub is_waking : Access → Bool
is_waking (pushes f) = false
is_waking wakes_if_needed = true
is_waking sets_quit = false
is_waking wakes_elsewhere = true

-- A thread other than the loop's, `id`, has only a wake-up left to make.
abbrev pub Owed : ℕ → (ℕ → List Access) → Type 0
Owed id rest =
    (t : ℕ) × (a : Access) × ((id == t) ≡ false) × (rest t ≡ a ∷ []) × (is_waking a ≡ true)

abbrev pub Woken : System → Type 0
Woken s = (1 ≤ s.loop.counter) ⊎ Owed s.loop.thread_id s.rest

pub record IsAwake (s : System) : Type 0 where
  pub calls : s.loop.phase ≡ running → s.loop.calling_pending_functors ≡ true
  pub wakes :
      is_past_swap s.loop.phase ≡ true
      → (s.loop.pending_functors ≡ [] → ⊥)
      → Woken s ⊎ (s.rest s.loop.thread_id ≡ wakes_if_needed ∷ [])
  pub stops : s.loop.phase ≡ polling → s.loop.quit ≡ true → Woken s

-- A thread moves on that owes no wake-up, or that is the loop's.
Owed-set_rest :
    (thread id : ℕ) (part : List Access) (rest : ℕ → List Access)
    → ((a : Access) → rest thread ≡ a ∷ [] → is_waking a ≡ true → (id == thread) ≡ true)
    → Owed id rest
    → Owed id (set_rest thread part rest)
Owed-set_rest thread id part rest calm (t, a, away, last, w) = elim (Bool-cases (t == thread)) [
  | inl h ↦ absurd (
      let same : t ≡ thread = ground arith in
      let clash = calm a (ap rest (sym same) ∙ last) w in
      let e : (id == t) ≡ (id == thread) = ap (λ (u : ℕ). id == u) same in cc)
  | inr h ↦ (t, a, away, set_rest-other thread t part rest h ∙ last, w)
]

own-set_rest :
    (thread id : ℕ) (part own_part : List Access) (rest : ℕ → List Access)
    → (rest thread ≡ own_part → ⊥)
    → rest id ≡ own_part
    → set_rest thread part rest id ≡ own_part
own-set_rest thread id part own_part rest apart e = elim (Bool-cases (id == thread)) [
  | inl h ↦ absurd (let same : id ≡ thread = ground arith in apart (ap rest (sym same) ∙ e))
  | inr h ↦ set_rest-other thread id part rest h ∙ e
]

Woken-set_rest :
    (thread : ℕ) (part : List Access) (s : System)
    → ((a : Access)
        → s.rest thread ≡ a ∷ []
        → is_waking a ≡ true
        → (s.loop.thread_id == thread) ≡ true)
    → Woken s
    → Woken (record s { rest = set_rest thread part s.rest })
Woken-set_rest thread part s calm (inl up) = inl up
Woken-set_rest thread part s calm (inr owed) =
    inr (Owed-set_rest thread s.loop.thread_id part s.rest calm owed)

-- Nothing is asked for before the swap.
pub before_swap-IsAwake : (s : System) → is_past_swap s.loop.phase ≡ false → IsAwake s
before_swap-IsAwake s early = record {
  calls = λ at. absurd (let e' = ap is_past_swap at in cc);
  wakes = λ late. absurd cc;
  stops = λ at. absurd (let e' = ap is_past_swap at in cc);
}

-- After a wake-up, only the flag of `doPendingFunctors` is left to keep.
wakeup-IsAwake :
    (s : System)
    → IsAwake s
    → (rest : ℕ → List Access) → IsAwake (record { loop = wakeup s.loop; rest = rest })
unfolding wakeup
wakeup-IsAwake s a rest =
    let up : 1 ≤ (wakeup s.loop).counter = ground arith in
    record { calls = a.calls; wakes = λ _ _. inl (inl up); stops = λ _ _. inl up }

-- A thread that was in no call begins one.
pub begun-IsAwake :
    (thread : ℕ) (part : List Access) (s : System)
    → s.rest thread ≡ []
    → IsAwake s
    → IsAwake (record s { rest = set_rest thread part s.rest })
begun-IsAwake thread part s free a = record {
  calls = a.calls;
  wakes = λ late waiting. elim (a.wakes late waiting) [
    | inl w ↦ inl (Woken-set_rest thread part s (λ b e h. absurd cc) w)
    | inr e ↦
        inr (own-set_rest thread s.loop.thread_id part (wakes_if_needed ∷ []) s.rest (λ e'. cc) e)
  ];
  stops = λ at stopped. Woken-set_rest thread part s (λ b e h. absurd cc) (a.stops at stopped);
}

-- The loop's thread is at work, before the swap or in a functor.
at_work-IsAwake :
    (s : System) → RunsUserCode s.loop.phase → (s.loop.phase ≡ running → IsAwake s) → IsAwake s
at_work-IsAwake s at_work in_functor_ = elim (RunsUserCode-cases at_work) [
  | inl early ↦ before_swap-IsAwake s (ap is_past_swap early)
  | inr late ↦ in_functor_ late
]

pushed-IsAwake :
    (thread f : ℕ) (s : System)
    → s.rest thread ≡ pushes f ∷ wakes_if_needed ∷ []
    → IsAwake s
    → IsAwake
        (record { loop = push_back f s.loop; rest = set_rest thread (wakes_if_needed ∷ []) s.rest })
pushed-IsAwake thread f s e a = record {
  calls = a.calls;
  wakes = λ _ _. elim (Bool-cases (is_in_loop_thread thread s.loop)) [
    | inl here_ ↦ inr (rw here_ refl)
    | inr away ↦ inl (
        inr
          (thread, wakes_if_needed, away, set_rest-own thread (wakes_if_needed ∷ []) s.rest, refl))
  ];
  stops = λ at stopped.
      Woken-set_rest thread (wakes_if_needed ∷ []) s (λ b e' h. absurd cc) (a.stops at stopped);
}

quit-IsAwake :
    (thread : ℕ) (s : System)
    → s.rest thread ≡ sets_quit ∷ wakes_elsewhere ∷ []
    → IsProper s
    → IsAwake s
    → IsAwake (record {
      loop = record s.loop { quit = true };
      rest = set_rest thread (wakes_elsewhere ∷ []) s.rest;
    })
quit-IsAwake thread s e p a = record {
  calls = a.calls;
  wakes = λ late waiting. elim (a.wakes late waiting) [
    | inl w ↦ inl (Woken-set_rest thread (wakes_elsewhere ∷ []) s (λ b e' h. absurd cc) w)
    | inr e' ↦ inr (
        own-set_rest thread s.loop.thread_id (wakes_elsewhere ∷ []) (wakes_if_needed ∷ []) s.rest
          (λ e''. cc) e')
  ];
  stops = λ at _. elim (Bool-cases (is_in_loop_thread thread s.loop)) [
    | inl here_ ↦
        absurd
          (elim (RunsUserCode-cases
            (own-RunsUserCode thread sets_quit (wakes_elsewhere ∷ []) s p e here_)) [
              | inl early ↦ cc
              | inr late ↦ cc
            ])
    | inr away ↦
        inr (thread, wakes_elsewhere, away, set_rest-own thread (wakes_elsewhere ∷ []) s.rest, refl)
  ];
}

pub accessed-IsAwake :
    (thread : ℕ) (s : System) {b : Access} {behind : List Access}
    → IsPart (b ∷ behind)
    → s.rest thread ≡ b ∷ behind
    → IsProper s
    → IsAwake s
    → IsAwake (record { loop = access thread b s.loop; rest = set_rest thread behind s.rest })
unfolding access
accessed-IsAwake thread s (queueing f) e p a = pushed-IsAwake thread f s e a
accessed-IsAwake thread s waking e p a =
    if-case (λ d. IsAwake (record { loop = d; rest = set_rest thread [] s.rest }))
      (not (is_in_loop_thread thread s.loop) || s.loop.calling_pending_functors)
      (λ _. wakeup-IsAwake s a (set_rest thread [] s.rest))
      (λ asleep.
        let here_ : is_in_loop_thread thread s.loop ≡ true = ground arith in
        at_work-IsAwake (record s { rest = set_rest thread [] s.rest })
          (own-RunsUserCode thread wakes_if_needed [] s p e here_)
          (λ late. absurd (let on = a.calls late in ground arith)))
accessed-IsAwake thread s quitting e p a = quit-IsAwake thread s e p a
accessed-IsAwake thread s waking_elsewhere e p a =
    if-case (λ d. IsAwake (record { loop = d; rest = set_rest thread [] s.rest }))
      (is_in_loop_thread thread s.loop)
      (λ here_.
        at_work-IsAwake (record s { rest = set_rest thread [] s.rest })
          (own-RunsUserCode thread wakes_elsewhere [] s p e here_)
          (λ late. record {
            calls = a.calls;
            wakes = λ past waiting. elim (a.wakes past waiting) [
              | inl w ↦ inl (Woken-set_rest thread [] s (λ b e' h. here_) w)
              | inr e' ↦ inr (
                  own-set_rest thread s.loop.thread_id [] (wakes_if_needed ∷ []) s.rest (λ e''. cc)
                    e')
            ];
            stops = λ at. absurd cc;
          }))
      (λ _. wakeup-IsAwake s a (set_rest thread [] s.rest))
