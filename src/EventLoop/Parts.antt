-- ===== src/EventLoop/Parts.antt =====
-- How far the threads that use a loop of EventLoop.cc can be in its methods.
use simplev.Prelude.{
  ℕ, ◌≡◌, refl, sym, ap, subst, ◌∙◌, true, false, not, ◌||◌, List, [], ◌∷◌, ◌⊎◌, inl, inr, arith,
  ◌==◌, Bool-cases,
}
use simplev.EventLoop.{
  EventLoop, Phase, dispatching, running, is_in_loop_thread, Access, pushes, wakes_if_needed,
  sets_quit, wakes_elsewhere, access, queue_in_loop_body, quit_body, wakeup, handle_read,
  check_quit,
}
use simplev.EventLoop.Order.{
  System, set_rest, IsFree, Step, queues, quits, accesses, begins, runs, ends, checks, polls, reads,
  Reach, here, next, Caller, other, own, RunsUserCode, in_callback, in_functor, if-case,
}

-- What can be left of a call: after its change it still has its wake-up to make.
pub data IsPart : List Access → Type 0 where
  done : IsPart []
  queueing : (f : ℕ) → IsPart (pushes f ∷ wakes_if_needed ∷ [])
  waking : IsPart (wakes_if_needed ∷ [])
  quitting : IsPart (sets_quit ∷ wakes_elsewhere ∷ [])
  waking_elsewhere : IsPart (wakes_elsewhere ∷ [])

-- Every thread is in such a part, and the loop's own only while it runs code of the user.
pub record IsProper (s : System) : Type 0 where
  pub part : (thread : ℕ) → IsPart (s.rest thread)
  pub at_work : IsFree s ⊎ RunsUserCode s.loop.phase

pub RunsUserCode-cases : {p : Phase} → RunsUserCode p → (p ≡ dispatching) ⊎ (p ≡ running)
RunsUserCode-cases in_callback = inl refl
RunsUserCode-cases in_functor = inr refl

set_rest-IsPart :
    (thread : ℕ) (part : List Access) (rest : ℕ → List Access)
    → IsPart part
    → ((t : ℕ) → IsPart (rest t))
    → (t : ℕ) → IsPart (set_rest thread part rest t)
set_rest-IsPart thread part rest p ps t = elim (Bool-cases (t == thread)) [
  | inl h ↦ rw h p
  | inr h ↦ rw h (ps t)
]

pub set_rest-own :
    (thread : ℕ) (part : List Access) (rest : ℕ → List Access)
    → set_rest thread part rest thread ≡ part
set_rest-own thread part rest = let h : (thread == thread) ≡ true = ground arith in rw h refl

pub set_rest-other :
    (thread t : ℕ) (part : List Access) (rest : ℕ → List Access)
    → (t == thread) ≡ false
    → set_rest thread part rest t ≡ rest t
set_rest-other thread t part rest h = rw h refl

-- A call that begins.
begun-IsProper :
    (thread : ℕ) (part : List Access) (s : System)
    → IsPart part
    → Caller s.loop thread
    → IsProper s
    → IsProper (record s { rest = set_rest thread part s.rest })
begun-IsProper thread part s p (other away) w = record {
  part = set_rest-IsPart thread part s.rest p w.part;
  at_work = elim w.at_work [
    | inl free ↦ inl (set_rest-other thread s.loop.thread_id part s.rest away ∙ free)
    | inr h ↦ inr h
  ];
}
begun-IsProper thread part s p (own here_ h) w = record {
  part = set_rest-IsPart thread part s.rest p w.part;
  at_work = inr h;
}

IsPart-behind : {a : Access} {behind : List Access} → IsPart (a ∷ behind) → IsPart behind
IsPart-behind (queueing f) = waking
IsPart-behind waking = done
IsPart-behind quitting = waking_elsewhere
IsPart-behind waking_elsewhere = done

pub access-phase : (thread : ℕ) (a : Access) (e : EventLoop) → (access thread a e).phase ≡ e.phase
unfolding access wakeup
access-phase thread (pushes f) e = refl
access-phase thread wakes_if_needed e =
    if-case (λ d. d.phase ≡ e.phase)
      (not (is_in_loop_thread thread e) || e.calling_pending_functors) (λ _. refl) (λ _. refl)
access-phase thread sets_quit e = refl
access-phase thread wakes_elsewhere e =
    if-case (λ d. d.phase ≡ e.phase) (is_in_loop_thread thread e) (λ _. refl) (λ _. refl)

pub access-thread_id :
    (thread : ℕ) (a : Access) (e : EventLoop) → (access thread a e).thread_id ≡ e.thread_id
unfolding access wakeup
access-thread_id thread (pushes f) e = refl
access-thread_id thread wakes_if_needed e =
    if-case (λ d. d.thread_id ≡ e.thread_id)
      (not (is_in_loop_thread thread e) || e.calling_pending_functors) (λ _. refl) (λ _. refl)
access-thread_id thread sets_quit e = refl
access-thread_id thread wakes_elsewhere e =
    if-case (λ d. d.thread_id ≡ e.thread_id) (is_in_loop_thread thread e) (λ _. refl) (λ _. refl)

-- The loop's thread makes an access only in code of the user.
pub own-RunsUserCode :
    (thread : ℕ) (a : Access) (behind : List Access) (s : System)
    → IsProper s
    → s.rest thread ≡ a ∷ behind
    → is_in_loop_thread thread s.loop ≡ true
    → RunsUserCode s.loop.phase
own-RunsUserCode thread a behind s w e here_ = elim w.at_work [
  | inl free ↦ absurd (
      let same : s.loop.thread_id ≡ thread = ground arith in
      let r : s.rest s.loop.thread_id ≡ s.rest thread = ap s.rest same in
      let clash : ◌≡◌ {A = List Access} [] (a ∷ behind) = sym free ∙ (r ∙ e) in cc)
  | inr h ↦ h
]

accessed-IsProper :
    (thread : ℕ) (a : Access) (behind : List Access) (s : System)
    → s.rest thread ≡ a ∷ behind
    → IsProper s
    → IsProper (record { loop = access thread a s.loop; rest = set_rest thread behind s.rest })
accessed-IsProper thread a behind s e w = record {
  part =
      set_rest-IsPart thread behind s.rest (IsPart-behind (subst IsPart e (w.part thread))) w.part;
  at_work = elim (Bool-cases (is_in_loop_thread thread s.loop)) [
    | inl here_ ↦ inr (
        subst RunsUserCode (sym (access-phase thread a s.loop))
          (own-RunsUserCode thread a behind s w e here_))
    | inr away ↦ elim w.at_work [
      | inl free ↦ inl (
          ap (set_rest thread behind s.rest) (access-thread_id thread a s.loop)
          ∙ (set_rest-other thread s.loop.thread_id behind s.rest away ∙ free))
      | inr h ↦ inr (subst RunsUserCode (sym (access-phase thread a s.loop)) h)
    ]
  ];
}

check_quit-thread_id : (e : EventLoop) → (check_quit e).thread_id ≡ e.thread_id
unfolding check_quit
check_quit-thread_id e = if-case (λ d. d.thread_id ≡ e.thread_id) e.quit (λ _. refl) (λ _. refl)

Step-IsProper :
    {s : System} {queued : List ℕ} {s' : System} → IsProper s → Step s queued s' → IsProper s'
unfolding queue_in_loop_body quit_body handle_read
Step-IsProper {s} w (queues thread f free c) =
    begun-IsProper thread (pushes f ∷ wakes_if_needed ∷ []) s (queueing f) c w
Step-IsProper {s} w (quits thread free c) =
    begun-IsProper thread (sets_quit ∷ wakes_elsewhere ∷ []) s quitting c w
Step-IsProper {s} w (accesses thread a behind e) = accessed-IsProper thread a behind s e w
Step-IsProper {s} w (begins free at) = record { part = w.part; at_work = inl free }
Step-IsProper {s} w (runs f fs free at split) = record { part = w.part; at_work = inl free }
Step-IsProper {s} w (ends free at empty) = record { part = w.part; at_work = inl free }
Step-IsProper {s} w (checks free at) = record {
  part = w.part;
  at_work = inl (ap s.rest (check_quit-thread_id s.loop) ∙ free);
}
Step-IsProper {s} w (polls free at) = record { part = w.part; at_work = inl free }
Step-IsProper {s} w (reads free at) = record { part = w.part; at_work = inl free }

pub Reach-IsProper :
    {s : System} {queued : List ℕ} {s' : System} → IsProper s → Reach s queued s' → IsProper s'
Reach-IsProper w here = w
Reach-IsProper w (next r st) = Step-IsProper (Reach-IsProper w r) st
