-- ===== src/BoundedBlockingQueue/Order.antt =====
-- The order of the elements of BoundedBlockingQueue.h.
use simplev.Prelude.{
  ℕ, ◌≡◌, refl, sym, ap, ◌∙◌, Bool, true, false, List, [], ◌∷◌, ◌++◌, append-nil, append_assoc,
  if◌then◌else◌,
}
use simplev.BoundedBlockingQueue.{
  BoundedBlockingQueue, full, wait, notify, get_up, put, take, take_front,
}
use simplev.BoundedBlockingQueue.Progress.{
  Step, accepted, puts, takes, puts_again, takes_again, wakes_taker, wakes_putter, Reach, here,
  next,
}

-- All elements that ever got in.
abbrev pub elements : BoundedBlockingQueue → List ℕ
elements q = q.taken ++ q.queue

abbrev pub Grows : BoundedBlockingQueue → List ℕ → BoundedBlockingQueue → Type 0
Grows q more q' = elements q' ≡ elements q ++ more

same-Grows : (q : BoundedBlockingQueue) → Grows q [] q
same-Grows q = sym (append-nil (elements q))

put-Grows : (x : ℕ) (q : BoundedBlockingQueue) → Grows q (accepted x q) (put x q)
unfolding put
put-Grows x q = by_room (full q)
  where
    by_room :
        (b : Bool)
        → Grows q (if b then [] else x ∷ []) (
            if b
            then record q { not_full = wait q.not_full }
            else record q { queue = q.queue ++ x ∷ []; not_empty = notify q.not_empty })
    by_room true = same-Grows q
    by_room false = sym (append_assoc q.taken q.queue (x ∷ []))

take-Grows : (q : BoundedBlockingQueue) → Grows q [] (take q)
unfolding take
take-Grows q = front q.queue refl
  where
    front : (xs : List ℕ) → q.queue ≡ xs → Grows q [] (take_front xs q)
    front [] e = same-Grows q
    front (x ∷ xs) e =
        append_assoc q.taken (x ∷ []) xs
        ∙ (ap (◌++◌ q.taken) (sym e) ∙ sym (append-nil (elements q)))

Step-Grows :
    {q : BoundedBlockingQueue} {xs : List ℕ} {q' : BoundedBlockingQueue}
    → Step q xs q'
    → Grows q xs q'
Step-Grows {q} (puts x) = put-Grows x q
Step-Grows {q} takes = take-Grows q
Step-Grows {q} (puts_again x up) = put-Grows x (record q { not_full = get_up q.not_full })
Step-Grows {q} (takes_again up) = take-Grows (record q { not_empty = get_up q.not_empty })
Step-Grows {q} wakes_taker = same-Grows q
Step-Grows {q} wakes_putter = same-Grows q

-- However threads take turns at a queue: the elements taken, followed by those in the queue, are the
-- ones there were, followed by the ones that `put` put in, in the order in which it did. So no element
-- is lost, taken twice or overtaken.
pub Reach-stored :
    {q : BoundedBlockingQueue} {xs : List ℕ} {q' : BoundedBlockingQueue}
    → Reach q xs q'
    → q'.taken ++ q'.queue ≡ (q.taken ++ q.queue) ++ xs
Reach-stored {q} here = same-Grows q
Reach-stored {q} (next {xs} {ys} r s) =
    Step-Grows s ∙ (ap (λ (t : List ℕ). t ++ ys) (Reach-stored r) ∙ append_assoc (elements q) xs ys)
