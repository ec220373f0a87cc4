-- ===== src/EventLoopThreadPool/Rounds.antt =====
-- `getNextLoop` of EventLoopThreadPool.cc: the order in which loops are handed out.
use simplev.Prelude.{
  ℕ, zero, suc, ◌+◌, ◌*◌, ◌≡◌, ◌≤◌, refl, sym, ap, ap₂, ◌∙◌, Bool, true, false, List, [], ◌∷◌, ◌++◌,
  some, get_elem?, length, length-append, append_assoc, arith, Result, ok, err, ◌>>=◌, ◌==◌, leb,
  if◌then◌else◌, ensure-true, >>=-eq-ok, fatal, assertion,
}
use simplev.EventLoopThreadPool.{
  EventLoopThreadPool, init, set_thread_num, start, start_loops, step, pick, get_next_loop,
}

-- The next `k` connections' loops.
unfoldable pub get_next_loops : ℕ → ℕ → EventLoopThreadPool → Result (List ℕ × EventLoopThreadPool)
get_next_loops thread zero p = ok ([], p)
get_next_loops thread (suc k) p = do
  (loop, p') ← get_next_loop thread p
  (loops, p'') ← get_next_loops thread k p'
  ok (loop ∷ loops, p'')

get_elem?-append :
    (xs : List ℕ) (y : ℕ) (ys : List ℕ) → get_elem? (xs ++ y ∷ ys) (length xs) ≡ some y
get_elem?-append [] y ys = refl
get_elem?-append (x ∷ xs) y ys = get_elem?-append xs y ys

pick-at :
    (loops : List ℕ) (loop : ℕ) (p : EventLoopThreadPool)
    → get_elem? loops p.next ≡ some loop
    → pick loops p ≡ ok (loop, step p)
pick-at [] loop p e = cc
pick-at (l ∷ ls) loop p e = rw e refl

-- The loop at `next`, behind those of `before`.
get_next_loop-at :
    (before after : List ℕ) (loop : ℕ) (p : EventLoopThreadPool)
    → p.started ≡ true
    → p.loops ≡ before ++ loop ∷ after
    → p.next ≡ length before
    → get_next_loop p.base_loop p ≡ ok (loop, step p)
unfolding get_next_loop
get_next_loop-at before after loop p on split at =
    let here_ : (p.base_loop == p.base_loop) ≡ true = ground arith in
    let found : get_elem? p.loops p.next ≡ some loop =
      ap₂ get_elem? split at ∙ get_elem?-append before loop after in
    ensure-true here_ fatal _ ∙ (ensure-true on assertion _ ∙ pick-at p.loops loop p found)

step-last : (p : EventLoopThreadPool) → p.num_threads ≡ 1 + p.next → step p ≡ record p { next = 0 }
step-last p e =
    let last : leb p.num_threads (1 + p.next) ≡ true = ground arith in
    ap (λ (b : Bool). record p { next = if b then 0 else 1 + p.next }) last

step-more :
    (p : EventLoopThreadPool) → 2 + p.next ≤ p.num_threads → step p ≡ record p { next = 1 + p.next }
step-more p h =
    let more : leb p.num_threads (1 + p.next) ≡ false = ground arith in
    ap (λ (b : Bool). record p { next = if b then 0 else 1 + p.next }) more

-- From the loop behind those of `before` to the last one.
get_next_loops-from :
    (before after : List ℕ) (loop : ℕ) (p : EventLoopThreadPool)
    → p.started ≡ true
    → p.num_threads ≡ length p.loops
    → p.loops ≡ before ++ loop ∷ after
    → p.next ≡ length before
    → get_next_loops p.base_loop (suc (length after)) p ≡ ok (loop ∷ after, record p { next = 0 })
unfolding get_next_loops
get_next_loops-from before [] loop p on matches split at =
    let e = ap length split in
    let last = step-last p (omega (arith, e, length-append before (loop ∷ []))) in
    let got =
      get_next_loop-at before [] loop p on split at
      ∙ ap (λ (q : EventLoopThreadPool). ok (loop, q)) last in
    rw got refl
get_next_loops-from before (l ∷ after) loop p on matches split at =
    let e = ap length split in
    let more = step-more p (omega (arith, e, length-append before (loop ∷ l ∷ after))) in
    let got =
      get_next_loop-at before (l ∷ after) loop p on split at
      ∙ ap (λ (q : EventLoopThreadPool). ok (loop, q)) more in
    let rest =
      get_next_loops-from (before ++ loop ∷ []) after l (record p { next = 1 + p.next }) on matches
        (split ∙ sym (append_assoc before (loop ∷ []) (l ∷ after)))
        (omega (arith, length-append before (loop ∷ []))) in
    rw got (rw rest refl)

-- The loops `n` times over.
unfoldable pub rounds : ℕ → List ℕ → List ℕ
rounds zero loops = []
rounds (suc n) loops = loops ++ rounds n loops

-- A pool as `start` leaves it, with one loop for each thread.
pub record IsStarted (p : EventLoopThreadPool) : Type 0 where
  pub on : p.started ≡ true
  pub matches : p.num_threads ≡ length p.loops
  pub first : p.next ≡ 0

length-start_loops : (start_loop : ℕ → ℕ) (i n : ℕ) → length (start_loops start_loop i n) ≡ n
unfolding start_loops
length-start_loops start_loop i zero = refl
length-start_loops start_loop i (suc n) = ap suc (length-start_loops start_loop (suc i) n)

-- `start` in the base loop's thread leaves a new pool started, with the loops of its new threads, in
-- order; a second call fails its assertion.
pub start_lem :
    (base n : ℕ) (start_loop : ℕ → ℕ)
    → (p : EventLoopThreadPool) × (start base start_loop (set_thread_num n (init base)) ≡ ok p)
      × (p.loops ≡ start_loops start_loop 0 n)
      × IsStarted p
      × (start base start_loop p ≡ err assertion)
unfolding start
start_lem base n start_loop =
    let here_ : (base == base) ≡ true = ground arith in
    let p = record (set_thread_num n (init base)) {
      started = true;
      loops = start_loops start_loop 0 n;
    } in
    (
      p,
      ensure-true here_ fatal _,
      refl,
      record { on = refl; matches = sym (length-start_loops start_loop 0 n); first = refl },
      refl,
    )

zero_calls :
    (thread b : ℕ) (p q : EventLoopThreadPool) (xs : List ℕ)
    {r : Result (List ℕ × EventLoopThreadPool)}
    → ◌≡◌ {A = Result (List ℕ × EventLoopThreadPool)} (ok ([], p)) (ok (xs, q))
    → get_next_loops thread b q ≡ r
    → get_next_loops thread b p ≡ r
zero_calls thread b p q xs h k = let e : q ≡ p = cc in ap (get_next_loops thread b) (sym e) ∙ k

-- `b` calls after `a` calls.
get_next_loops-add :
    (thread a b : ℕ) (p : EventLoopThreadPool) {q r : EventLoopThreadPool} {xs ys : List ℕ}
    → get_next_loops thread a p ≡ ok (xs, q)
    → get_next_loops thread b q ≡ ok (ys, r)
    → get_next_loops thread (a + b) p ≡ ok (xs ++ ys, r)
unfolding get_next_loops
get_next_loops-add thread zero b p {q} {r} {xs} {ys} h k =
    let none_yet : xs ≡ [] = cc in
    ap (λ (n : ℕ). get_next_loops thread n p) (omega arith)
    ∙ (zero_calls thread b p q xs h k ∙ ap (λ (zs : List ℕ). ok (zs ++ ys, r)) (sym none_yet))
get_next_loops-add thread (suc a) b p {q} {r} {xs} {ys} h k =
    let ((l, p'), e, h') = >>=-eq-ok (get_next_loop thread p) _ h in
    let ((ls, p''), e', h'') = >>=-eq-ok (get_next_loops thread a p') _ h' in
    let same : p'' ≡ q = cc in
    let all_ : l ∷ ls ≡ xs = cc in
    let ih = get_next_loops-add thread a b p' e' (ap (get_next_loops thread b) same ∙ k) in
    let more : suc a + b ≡ suc (a + b) = omega arith in rw more (rw e (rw ih (rw (← all_) refl)))

-- One round.
get_next_loops-round :
    (p : EventLoopThreadPool)
    → IsStarted p
    → get_next_loops p.base_loop (length p.loops) p ≡ ok (p.loops, p)
unfolding get_next_loops
get_next_loops-round p s = go p.loops refl
  where
    reset : record p { next = 0 } ≡ p
    reset = ap (λ (i : ℕ). record p { next = i }) (sym s.first)

    go :
        (loops : List ℕ)
        → p.loops ≡ loops
        → get_next_loops p.base_loop (length loops) p ≡ ok (loops, p)
    go [] e = refl
    go (l ∷ ls) e =
        get_next_loops-from [] ls l p s.on s.matches e s.first
        ∙ ap (λ (q : EventLoopThreadPool). ok (l ∷ ls, q)) reset

-- Connections get the loops of a started pool in turn: `n` rounds of `getNextLoop`, of as many calls
-- as there are loops, hand out the loops in order, `n` times over, and leave the pool at its first loop
-- again.
pub get_next_loops_lem :
    (n : ℕ) (p : EventLoopThreadPool)
    → IsStarted p
    → get_next_loops p.base_loop (n * length p.loops) p ≡ ok (rounds n p.loops, p)
unfolding get_next_loops rounds
get_next_loops_lem zero p s =
    let none_left : 0 * length p.loops ≡ 0 = omega arith in
    ap (λ (k : ℕ). get_next_loops p.base_loop k p) none_left
get_next_loops_lem (suc n) p s =
    let e : suc n * length p.loops ≡ length p.loops + n * length p.loops = omega arith in
    ap (λ (k : ℕ). get_next_loops p.base_loop k p) e
    ∙ get_next_loops-add p.base_loop (length p.loops) (n * length p.loops) p
        (get_next_loops-round p s) (get_next_loops_lem n p s)
