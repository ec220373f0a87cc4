-- ===== src/BlockingQueue/Order.antt =====
-- The order of the elements of BlockingQueue.h, and who waits for them.
use simplev.Prelude.{
  ℕ, ◌+◌, ◌-◌, ◌≡◌, ◌≤◌, refl, sym, ap, ◌∙◌, List, [], ◌∷◌, ◌++◌, append-nil, append_assoc, length,
  length-append, arith,
}
use simplev.BoundedBlockingQueue.{notify, get_up, wake}
use simplev.BoundedBlockingQueue.Progress.{
  Serves, notify-Serves, wake-Serves, get_up-Serves, fewer-Serves, nothing_left, none_asleep,
  Serves-awake,
}
use simplev.BlockingQueue.{BlockingQueue, init, put, take, take_front, take_again}

-- A step, with the elements that it puts in.
pub data Step (q : BlockingQueue) : List ℕ → BlockingQueue → Type 0 where
  puts : (x : ℕ) → Step q (x ∷ []) (put x q)
  takes : Step q [] (take q)
  takes_again : 1 ≤ q.not_empty.awake → Step q [] (take_again q)
  wakes : Step q [] (record q { not_empty = wake q.not_empty })

pub data Reach (q : BlockingQueue) : List ℕ → BlockingQueue → Type 0 where
  here : Reach q [] q
  next :
      {xs ys : List ℕ} {q' q'' : BlockingQueue}
      → Reach q xs q'
      → Step q' ys q''
      → Reach q (xs ++ ys) q''

-- What a step does to the elements, and whom it leaves asleep.
record Grows (q : BlockingQueue) (xs : List ℕ) (q' : BlockingQueue) : Type 0 where
  elements : q'.taken ++ q'.queue ≡ (q.taken ++ q.queue) ++ xs
  takers : Serves (length q'.queue) q'.not_empty

take-Grows : (q : BlockingQueue) → Serves (length q.queue - 1) q.not_empty → Grows q [] (take q)
unfolding take
take-Grows q s = front q.queue refl
  where
    same : (q.taken ++ q.queue) ≡ (q.taken ++ q.queue) ++ []
    same = sym (append-nil (q.taken ++ q.queue))

    front : (xs : List ℕ) → q.queue ≡ xs → Grows q [] (take_front xs q)
    front [] e = record {
      elements = same;
      takers = nothing_left (length q.queue) q.not_empty (ap length e);
    }
    front (x ∷ xs) e =
        let l = ap length e in
        record {
          elements = append_assoc q.taken (x ∷ []) xs ∙ (ap (◌++◌ q.taken) (sym e) ∙ same);
          takers = fewer-Serves (length xs) (length q.queue - 1) q.not_empty (omega (arith, l)) s;
        }

Step-Grows :
    {q : BlockingQueue} {xs : List ℕ} {q' : BlockingQueue}
    → Serves (length q.queue) q.not_empty
    → Step q xs q'
    → Grows q xs q'
unfolding put
Step-Grows {q} s (puts x) = record {
  elements = sym (append_assoc q.taken q.queue (x ∷ []));
  takers =
      fewer-Serves (length (q.queue ++ x ∷ [])) (1 + length q.queue) (notify q.not_empty)
        (let l = length-append q.queue (x ∷ []) in omega (arith, l))
        (notify-Serves (length q.queue) q.not_empty s);
}
Step-Grows {q} s takes =
    take-Grows q (fewer-Serves (length q.queue - 1) (length q.queue) q.not_empty (omega arith) s)
Step-Grows {q} s (takes_again up) =
    let g =
      take-Grows (record q { not_empty = get_up q.not_empty })
        (get_up-Serves (length q.queue) q.not_empty s) in
    record { elements = g.elements; takers = g.takers }
Step-Grows {q} s wakes = record {
  elements = sym (append-nil (q.taken ++ q.queue));
  takers = wake-Serves (length q.queue) q.not_empty s;
}

Reach-Grows :
    {q : BlockingQueue} {xs : List ℕ} {q' : BlockingQueue}
    → Serves (length q.queue) q.not_empty
    → Reach q xs q'
    → Grows q xs q'
Reach-Grows {q} s here = record { elements = sym (append-nil (q.taken ++ q.queue)); takers = s }
Reach-Grows {q} s (next {xs} {ys} r st) =
    let g = Reach-Grows s r in
    let g' = Step-Grows g.takers st in
    record {
      elements =
          g'.elements
          ∙ (ap (λ (t : List ℕ). t ++ ys) g.elements ∙ append_assoc (q.taken ++ q.queue) xs ys);
      takers = g'.takers;
    }

-- However threads take turns at a new queue: the elements taken, followed by those in the queue, are the
-- ones put in, in the order in which they were put in; and while a thread sleeps in `take`, each element
-- of the queue has a thread that was woken up to take it.
pub Reach-elements :
    {xs : List ℕ} {q : BlockingQueue}
    → Reach init xs q
    → (q.taken ++ q.queue ≡ xs) × (1 ≤ q.not_empty.asleep → length q.queue ≤ q.not_empty.awake)
Reach-elements r = let g = Reach-Grows (none_asleep 0 0) r in (g.elements, Serves-awake g.takers)
