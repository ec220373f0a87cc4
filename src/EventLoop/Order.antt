-- ===== src/EventLoop/Order.antt =====
-- The steps of a loop of EventLoop.cc and of the threads that use it, and the order in which queued
-- functors run. The bodies of `queueInLoop` and `quit` are interrupted between any two accesses.
use simplev.Prelude.{
  ℕ, ◌≡◌, refl, sym, ap, ◌∙◌, Bool, true, false, not, ◌||◌, List, [], ◌∷◌, ◌++◌, append-nil,
  append_assoc, if◌then◌else◌, ◌==◌,
}
use simplev.EventLoop.{
  EventLoop, Phase, dispatching, running, checking, polling, is_in_loop_thread, Access, pushes,
  wakes_if_needed, sets_quit, wakes_elsewhere, access, queue_in_loop_body, quit_body, wakeup,
  handle_read, begin_pending_functors, run_functor, end_pending_functors, check_quit, dispatch,
}

-- A loop, and what each thread still has to do of the call that it is in.
pub record System : Type 0 where
  pub loop : EventLoop
  pub rest : ℕ → List Access

abbrev pub set_rest : ℕ → List Access → (ℕ → List Access) → ℕ → List Access
set_rest thread accesses rest t = if t == thread then accesses else rest t

-- The loop's thread runs code of the user in event callbacks and in functors.
pub data RunsUserCode : Phase → Type 0 where
  in_callback : RunsUserCode dispatching
  in_functor : RunsUserCode running

-- Who calls a method of the loop: another thread, at any time, or the loop's own.
pub data Caller (e : EventLoop) (thread : ℕ) : Type 0 where
  other : is_in_loop_thread thread e ≡ false → Caller e thread
  own : is_in_loop_thread thread e ≡ true → RunsUserCode e.phase → Caller e thread

-- The functors that an access queues.
unfoldable pub pushed : Access → List ℕ
pushed (pushes f) = f ∷ []
pushed wakes_if_needed = []
pushed sets_quit = []
pushed wakes_elsewhere = []

-- The loop's thread is not inside a call of its own.
abbrev pub IsFree : System → Type 0
IsFree s = s.rest s.loop.thread_id ≡ []

-- A step, with the functors that it queues: a thread that is in no call begins one, or makes its next
-- access; or the loop's thread, outside its own calls, goes on.
pub data Step (s : System) : List ℕ → System → Type 0 where
  queues :
      (thread f : ℕ)
      → s.rest thread ≡ []
      → Caller s.loop thread
      → Step s [] (record s { rest = set_rest thread (queue_in_loop_body f) s.rest })
  quits :
      (thread : ℕ)
      → s.rest thread ≡ []
      → Caller s.loop thread
      → Step s [] (record s { rest = set_rest thread quit_body s.rest })
  accesses :
      (thread : ℕ) (a : Access) (behind : List Access)
      → s.rest thread ≡ a ∷ behind
      → Step s
          (pushed a)
          (record { loop = access thread a s.loop; rest = set_rest thread behind s.rest })
  begins :
      IsFree s
      → s.loop.phase ≡ dispatching
      → Step s [] (record s { loop = begin_pending_functors s.loop })
  runs :
      (f : ℕ) (fs : List ℕ)
      → IsFree s
      → s.loop.phase ≡ running
      → s.loop.batch ≡ f ∷ fs
      → Step s [] (record s { loop = run_functor f fs s.loop })
  ends :
      IsFree s
      → s.loop.phase ≡ running
      → s.loop.batch ≡ []
      → Step s [] (record s { loop = end_pending_functors s.loop })
  checks : IsFree s → s.loop.phase ≡ checking → Step s [] (record s { loop = check_quit s.loop })
  polls : IsFree s → s.loop.phase ≡ polling → Step s [] (record s { loop = dispatch s.loop })
  reads : IsFree s → s.loop.phase ≡ dispatching → Step s [] (record s { loop = handle_read s.loop })

pub data Reach (s : System) : List ℕ → System → Type 0 where
  here : Reach s [] s
  next :
      {queued queued' : List ℕ} {s' s'' : System}
      → Reach s queued s'
      → Step s' queued' s''
      → Reach s (queued ++ queued') s''

-- A batch is only there while functors run.
abbrev pub IsOrdered : EventLoop → Type 0
IsOrdered e = (e.phase ≡ running → ⊥) → e.batch ≡ []

-- The queued functors: those that ran, those taken out to run, and those that wait.
abbrev pub functors : EventLoop → List ℕ
functors e = e.ran ++ (e.batch ++ e.pending_functors)

pub if-case :
    (P : EventLoop → Type 0) (b : Bool) {d e : EventLoop}
    → (b ≡ true → P d)
    → (b ≡ false → P e)
    → P (if b then d else e)
if-case P true p q = p refl
if-case P false p q = q refl

pub if-property :
    (P : EventLoop → Type 0) (b : Bool) {d e : EventLoop} → P d → P e → P (if b then d else e)
if-property P b p q = if-case P b (λ _. p) (λ _. q)

-- `d` has the functors of `e` and then `queued`, and is as well ordered.
Adds : EventLoop → List ℕ → EventLoop → Type 0
Adds e queued d = (functors d ≡ functors e ++ queued) × (IsOrdered e → IsOrdered d)

access-Adds : (thread : ℕ) (a : Access) (e : EventLoop) → Adds e (pushed a) (access thread a e)
unfolding access wakeup Adds pushed
access-Adds thread (pushes f) e = (
  ap (◌++◌ e.ran) (sym (append_assoc e.batch e.pending_functors (f ∷ [])))
      ∙ sym (append_assoc e.ran (e.batch ++ e.pending_functors) (f ∷ [])),
  λ o. o,
)
access-Adds thread wakes_if_needed e =
    let same = sym (append-nil (functors e)) in
    if-property (λ d. Adds e [] d) (not (is_in_loop_thread thread e) || e.calling_pending_functors)
      (same, λ o. o) (same, λ o. o)
access-Adds thread sets_quit e = (sym (append-nil (functors e)), λ o. o)
access-Adds thread wakes_elsewhere e =
    let same = sym (append-nil (functors e)) in
    if-property (λ d. Adds e [] d) (is_in_loop_thread thread e) (same, λ o. o) (same, λ o. o)

Step-Adds :
    {s : System} {queued : List ℕ} {s' : System}
    → IsOrdered s.loop
    → Step s queued s'
    → Adds s.loop queued s'.loop
unfolding Adds check_quit handle_read
Step-Adds {s} o (queues thread f free c) = (sym (append-nil (functors s.loop)), λ p. p)
Step-Adds {s} o (quits thread free c) = (sym (append-nil (functors s.loop)), λ p. p)
Step-Adds {s} o (accesses thread a behind next_) = access-Adds thread a s.loop
Step-Adds {s} o (begins free at) =
    let e = s.loop in
    let empty : e.batch ≡ [] = o (λ r. cc) in
    let same : functors e ≡ e.ran ++ e.pending_functors =
      ap (λ (b : List ℕ). e.ran ++ (b ++ e.pending_functors)) empty in
    (
      ap (◌++◌ e.ran) (append-nil e.pending_functors) ∙ (sym same ∙ sym (append-nil (functors e))),
      λ _ n. absurd (n refl),
    )
Step-Adds {s} o (runs f fs free at split) =
    let e = s.loop in
    let same : functors e ≡ e.ran ++ (f ∷ fs ++ e.pending_functors) =
      ap (λ (b : List ℕ). e.ran ++ (b ++ e.pending_functors)) split in
    (
      append_assoc e.ran (f ∷ []) (fs ++ e.pending_functors)
          ∙ (sym same ∙ sym (append-nil (functors e))),
      λ _ n. absurd (n at),
    )
Step-Adds {s} o (ends free at empty) = (sym (append-nil (functors s.loop)), λ _ _. empty)
Step-Adds {s} o (checks free at) =
    let e = s.loop in
    let empty : e.batch ≡ [] = o (λ r. cc) in
    if-property (λ d. Adds e [] d) e.quit (sym (append-nil (functors e)), λ _ _. empty)
      (sym (append-nil (functors e)), λ _ _. empty)
Step-Adds {s} o (polls free at) =
    let empty : s.loop.batch ≡ [] = o (λ r. cc) in
    (sym (append-nil (functors s.loop)), λ _ _. empty)
Step-Adds {s} o (reads free at) = (sym (append-nil (functors s.loop)), λ p. p)

Reach-IsOrdered :
    {s : System} {queued : List ℕ} {s' : System}
    → IsOrdered s.loop
    → Reach s queued s'
    → IsOrdered s'.loop
unfolding Adds
Reach-IsOrdered o here = o
Reach-IsOrdered {s} o (next r st) = let o' = Reach-IsOrdered o r in (Step-Adds o' st).1 o'

-- However the accesses of threads and the steps of the loop take turns, from a loop that holds no batch
-- outside `doPendingFunctors`: the functors that ran, those taken out and those that wait are, in this
-- order, the ones there were and then the ones queued since, in the order in which they were queued. So
-- each runs at most once, and none overtakes another.
pub Reach-functors :
    {s : System} {queued : List ℕ} {s' : System}
    → IsOrdered s.loop
    → Reach s queued s'
    → functors s'.loop ≡ functors s.loop ++ queued
unfolding Adds
Reach-functors {s} o here = sym (append-nil (functors s.loop))
Reach-functors {s} o (next {queued} {queued'} r st) =
    let o' = Reach-IsOrdered o r in
    (Step-Adds o' st).0
    ∙ (ap (λ (fs : List ℕ). fs ++ queued') (Reach-functors o r)
        ∙ append_assoc (functors s.loop) queued queued')
