-- ===== src/EventLoop/Functors.antt =====
-- The loop of `doPendingFunctors` in EventLoop.cc, with functors that call `queueInLoop` and `quit`.
use simplev.Prelude.{
  ℕ, ◌≡◌, ◌≤◌, refl, sym, ap, ◌∙◌, Bool, true, false, not, ◌||◌, List, [], ◌∷◌, ◌++◌, append-nil,
  append_assoc, arith, ◌==◌,
}
use simplev.EventLoop.{
  EventLoop, Call, queues, quits, wakeup, access, run_body, queue_in_loop_body, quit_body,
  queue_in_loop, quit, run_call, run_calls, run_functor, run_functors,
}

-- The functors that calls queue, and whether one of them is `quit`.
unfoldable pub queued_by : List Call → List ℕ
queued_by [] = []
queued_by (queues f ∷ cs) = f ∷ queued_by cs
queued_by (quits ∷ cs) = queued_by cs

unfoldable pub stopped_by : List Call → Bool
stopped_by [] = false
stopped_by (queues f ∷ cs) = stopped_by cs
stopped_by (quits ∷ cs) = true

-- The calls that functors make, one functor after the other.
unfoldable pub calls_of : (ℕ → List Call) → List ℕ → List Call
calls_of body [] = []
calls_of body (f ∷ fs) = body f ++ calls_of body fs

-- `d` is `e` after the functors `fs` ran and the calls `cs` were made, inside `doPendingFunctors`.
pub record After (fs : List ℕ) (cs : List Call) (e d : EventLoop) : Type 0 where
  pub ran : d.ran ≡ e.ran ++ fs
  pub waiting : d.pending_functors ≡ e.pending_functors ++ queued_by cs
  pub stopped : d.quit ≡ (e.quit || stopped_by cs)
  pub calling : d.calling_pending_functors ≡ true
  pub timers : d.timers ≡ e.timers
  pub grows : e.counter ≤ d.counter
  pub woken : (queued_by cs ≡ [] → ⊥) → 1 ≤ d.counter

or-false : (b : Bool) → b ≡ (b || false)
or-false true = refl
or-false false = refl

or-true : (b : Bool) → true ≡ (b || true)
or-true true = refl
or-true false = refl

or_assoc : (a b c : Bool) → ((a || b) || c) ≡ (a || (b || c))
or_assoc true b c = refl
or_assoc false b c = refl

queued_by-++ : (cs ds : List Call) → queued_by (cs ++ ds) ≡ queued_by cs ++ queued_by ds
unfolding queued_by
queued_by-++ [] ds = refl
queued_by-++ (queues f ∷ cs) ds = ap (◌∷◌ f) (queued_by-++ cs ds)
queued_by-++ (quits ∷ cs) ds = queued_by-++ cs ds

stopped_by-++ : (cs ds : List Call) → stopped_by (cs ++ ds) ≡ (stopped_by cs || stopped_by ds)
unfolding stopped_by
stopped_by-++ [] ds = refl
stopped_by-++ (queues f ∷ cs) ds = stopped_by-++ cs ds
stopped_by-++ (quits ∷ cs) ds = refl

either_queues :
    (qs rs : List ℕ) {n : ℕ}
    → ((qs ≡ [] → ⊥) → 1 ≤ n)
    → ((rs ≡ [] → ⊥) → 1 ≤ n)
    → (qs ++ rs ≡ [] → ⊥)
    → 1 ≤ n
either_queues [] rs p q some_ = q some_
either_queues (x ∷ qs) rs p q some_ = p (λ e. cc)

same-After : (e : EventLoop) → e.calling_pending_functors ≡ true → After [] [] e e
unfolding queued_by stopped_by
same-After e on = record {
  ran = sym (append-nil e.ran);
  waiting = sym (append-nil e.pending_functors);
  stopped = or-false e.quit;
  calling = on;
  timers = refl;
  grows = omega arith;
  woken = λ n. absurd (n refl);
}

After-After :
    {fs gs : List ℕ} {cs ds : List Call} {e₁ e₂ e₃ : EventLoop}
    → After fs cs e₁ e₂
    → After gs ds e₂ e₃
    → After (fs ++ gs) (cs ++ ds) e₁ e₃
After-After {fs} {gs} {cs} {ds} {e₁} {e₂} {e₃} a b = record {
  ran = b.ran ∙ (ap (λ (t : List ℕ). t ++ gs) a.ran ∙ append_assoc e₁.ran fs gs);
  waiting =
      b.waiting
      ∙ (ap (λ (t : List ℕ). t ++ queued_by ds) a.waiting
          ∙ (append_assoc e₁.pending_functors (queued_by cs) (queued_by ds)
              ∙ ap (◌++◌ e₁.pending_functors) (sym (queued_by-++ cs ds))));
  stopped =
      b.stopped
      ∙ (ap (λ (t : Bool). t || stopped_by ds) a.stopped
          ∙ (or_assoc e₁.quit (stopped_by cs) (stopped_by ds)
              ∙ ap (λ (t : Bool). e₁.quit || t) (sym (stopped_by-++ cs ds))));
  calling = b.calling;
  timers = b.timers ∙ a.timers;
  grows = omega (arith, a.grows, b.grows);
  woken = λ some_.
      either_queues (queued_by cs) (queued_by ds)
        (λ n. let w = a.woken n in omega (arith, w, b.grows)) b.woken
        (λ none. some_ (queued_by-++ cs ds ∙ none));
}

counter-wakeup : (e : EventLoop) → (1 ≤ (wakeup e).counter) × (e.counter ≤ (wakeup e).counter)
unfolding wakeup
counter-wakeup e = (ground arith, ground arith)

run_call-After :
    (c : Call) (e : EventLoop)
    → e.calling_pending_functors ≡ true
    → After [] (c ∷ []) e (run_call c e)
unfolding run_call queue_in_loop quit run_body queue_in_loop_body quit_body access queued_by
    stopped_by
run_call-After (queues f) e on =
    let tested : (not (e.thread_id == e.thread_id) || e.calling_pending_functors) ≡ true =
      ground (arith, on) in
    let (up, more) = counter-wakeup e in
    rw tested (record {
      ran = sym (append-nil e.ran);
      waiting = refl;
      stopped = or-false e.quit;
      calling = on;
      timers = refl;
      grows = unfold wakeup in (ground arith);
      woken = λ _. unfold wakeup in (ground arith);
    })
run_call-After quits e on =
    let tested : (e.thread_id == e.thread_id) ≡ true = ground arith in
    rw tested (record {
      ran = sym (append-nil e.ran);
      waiting = sym (append-nil e.pending_functors);
      stopped = or-true e.quit;
      calling = on;
      timers = refl;
      grows = omega arith;
      woken = λ n. absurd (n refl);
    })

run_calls-After :
    (cs : List Call) (e : EventLoop)
    → e.calling_pending_functors ≡ true
    → After [] cs e (run_calls cs e)
unfolding run_calls
run_calls-After [] e on = same-After e on
run_calls-After (c ∷ cs) e on =
    let a = run_call-After c e on in After-After a (run_calls-After cs (run_call c e) a.calling)

run_functor-After :
    (f : ℕ) (fs : List ℕ) (e : EventLoop)
    → e.calling_pending_functors ≡ true
    → After (f ∷ []) [] e (run_functor f fs e)
unfolding queued_by stopped_by
run_functor-After f fs e on = record {
  ran = refl;
  waiting = sym (append-nil e.pending_functors);
  stopped = or-false e.quit;
  calling = on;
  timers = refl;
  grows = omega arith;
  woken = λ n. absurd (n refl);
}

pub run_functors-After :
    (body : ℕ → List Call) (fs : List ℕ) (e : EventLoop)
    → e.calling_pending_functors ≡ true
    → After fs (calls_of body fs) e (run_functors body fs e)
unfolding run_functors calls_of
run_functors-After body [] e on = same-After e on
run_functors-After body (f ∷ fs) e on =
    let a = run_functor-After f fs e on in
    let b = run_calls-After (body f) (run_functor f fs e) a.calling in
    After-After (After-After a b)
      (run_functors-After body fs (run_calls (body f) (run_functor f fs e)) b.calling)
