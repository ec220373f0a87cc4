-- ===== src/BoundedBlockingQueue/Progress.antt =====
-- The bound of BoundedBlockingQueue.h, the order of its elements, and that no thread sleeps on while
-- what it waits for is there for nobody else.
use simplev.Prelude.{
  ℕ, ◌+◌, ◌-◌, ◌≡◌, ◌≤◌, refl, ap, Bool, true, false, List, [], ◌∷◌, ◌++◌, length, length-append,
  arith, if◌then◌else◌,
}
use simplev.BoundedBlockingQueue.{
  BoundedBlockingQueue, Condition, init, notify, wait, get_up, full, put, take, take_front,
  put_again, take_again, wake,
}

-- What a call of `put` puts in: nothing, when it has to wait.
abbrev pub accepted : ℕ → BoundedBlockingQueue → List ℕ
accepted x q = if full q then [] else x ∷ []

-- A step, with the elements that it puts in.
pub data Step (q : BoundedBlockingQueue) : List ℕ → BoundedBlockingQueue → Type 0 where
  puts : (x : ℕ) → Step q (accepted x q) (put x q)
  takes : Step q [] (take q)
  puts_again : (x : ℕ) → 1 ≤ q.not_full.awake → Step q (accepted x q) (put_again x q)
  takes_again : 1 ≤ q.not_empty.awake → Step q [] (take_again q)
  wakes_taker : Step q [] (record q { not_empty = wake q.not_empty })
  wakes_putter : Step q [] (record q { not_full = wake q.not_full })

pub data Reach (q : BoundedBlockingQueue) : List ℕ → BoundedBlockingQueue → Type 0 where
  here : Reach q [] q
  next :
      {xs ys : List ℕ} {q' q'' : BoundedBlockingQueue}
      → Reach q xs q'
      → Step q' ys q''
      → Reach q (xs ++ ys) q''

-- `n` things are there for threads of the condition: a thread sleeps only if each is
-- somebody else's, who is awake.
pub Serves : ℕ → Condition → Type 0
Serves n c = 1 ≤ c.asleep → n ≤ c.awake

pub record IsLive (q : BoundedBlockingQueue) : Type 0 where
  pub bounded : length q.queue ≤ q.capacity
  pub takers : Serves (length q.queue) q.not_empty
  pub putters : Serves (q.capacity - length q.queue) q.not_full

pub notify-Serves : (n : ℕ) (c : Condition) → Serves n c → Serves (1 + n) (notify c)
unfolding Serves
notify-Serves n c s = ground arith

pub wake-Serves : (n : ℕ) (c : Condition) → Serves n c → Serves n (wake c)
unfolding Serves
wake-Serves n c s = ground arith

-- A thread that gets up is awake no more, and has one thing less to leave to others.
pub get_up-Serves : (n : ℕ) (c : Condition) → Serves n c → Serves (n - 1) (get_up c)
unfolding Serves
get_up-Serves n c s = ground arith

pub fewer-Serves : (m n : ℕ) (c : Condition) → m ≤ n → Serves n c → Serves m c
unfolding Serves
fewer-Serves m n c le s = ground arith

if-IsLive :
    (b : Bool) {d e : BoundedBlockingQueue}
    → (b ≡ true → IsLive d)
    → (b ≡ false → IsLive e)
    → IsLive (if b then d else e)
if-IsLive true p q = p refl
if-IsLive false p q = q refl

-- `put` needs one free place less to be somebody's than there are.
put_lem :
    (x : ℕ) (q : BoundedBlockingQueue)
    → length q.queue ≤ q.capacity
    → Serves (length q.queue) q.not_empty
    → Serves (q.capacity - length q.queue - 1) q.not_full
    → IsLive (put x q)
unfolding put Serves
put_lem x q bounded takers putters =
    let longer = length-append q.queue (x ∷ []) in
    if-IsLive (full q)
      (λ is_full. record { bounded = bounded; takers = takers; putters = none_left (ground arith) })
      (λ has_room.
        let room : length q.queue + 1 ≤ q.capacity = ground arith in
        record {
          bounded = omega (arith, longer);
          takers =
              fewer-Serves (length (q.queue ++ x ∷ [])) (1 + length q.queue) (notify q.not_empty)
                (omega (arith, longer)) (notify-Serves (length q.queue) q.not_empty takers);
          putters =
              fewer-Serves (q.capacity - length (q.queue ++ x ∷ []))
                (q.capacity - length q.queue - 1) q.not_full (omega (arith, longer)) putters;
        })
  where
    none_left :
        q.capacity - length q.queue ≡ 0 → Serves (q.capacity - length q.queue) (wait q.not_full)
    none_left e = λ _. omega arith

take_lem :
    (q : BoundedBlockingQueue)
    → length q.queue ≤ q.capacity
    → Serves (length q.queue - 1) q.not_empty
    → Serves (q.capacity - length q.queue) q.not_full
    → IsLive (take q)
unfolding take Serves
take_lem q bounded takers putters = front q.queue refl
  where
    front : (xs : List ℕ) → q.queue ≡ xs → IsLive (take_front xs q)
    front [] e = record {
      bounded = bounded;
      takers = λ _. omega (arith, ap length e);
      putters = putters;
    }
    front (x ∷ xs) e =
        let l = ap length e in
        record {
          bounded = omega (arith, l);
          takers =
              fewer-Serves (length xs) (length q.queue - 1) q.not_empty (omega (arith, l)) takers;
          putters =
              fewer-Serves (q.capacity - length xs) (1 + (q.capacity - length q.queue))
                (notify q.not_full) (omega (arith, l))
                (notify-Serves (q.capacity - length q.queue) q.not_full putters);
        }

Step-IsLive :
    {q : BoundedBlockingQueue} {xs : List ℕ} {q' : BoundedBlockingQueue}
    → IsLive q
    → Step q xs q'
    → IsLive q'
Step-IsLive {q} l (puts x) = put_lem x q l.bounded l.takers (
    fewer-Serves (q.capacity - length q.queue - 1) (q.capacity - length q.queue) q.not_full
      (omega arith) l.putters)
Step-IsLive {q} l takes =
    take_lem q l.bounded
      (fewer-Serves (length q.queue - 1) (length q.queue) q.not_empty (omega arith) l.takers)
      l.putters
Step-IsLive {q} l (puts_again x up) =
    put_lem x (record q { not_full = get_up q.not_full }) l.bounded l.takers
      (get_up-Serves (q.capacity - length q.queue) q.not_full l.putters)
Step-IsLive {q} l (takes_again up) =
    take_lem (record q { not_empty = get_up q.not_empty }) l.bounded
      (get_up-Serves (length q.queue) q.not_empty l.takers) l.putters
Step-IsLive {q} l wakes_taker = record {
  bounded = l.bounded;
  takers = wake-Serves (length q.queue) q.not_empty l.takers;
  putters = l.putters;
}
Step-IsLive {q} l wakes_putter = record {
  bounded = l.bounded;
  takers = l.takers;
  putters = wake-Serves (q.capacity - length q.queue) q.not_full l.putters;
}

Reach-keeps :
    {q : BoundedBlockingQueue} {xs : List ℕ} {q' : BoundedBlockingQueue}
    → IsLive q
    → Reach q xs q'
    → IsLive q'
Reach-keeps l here = l
Reach-keeps {q} l (next r s) = Step-IsLive (Reach-keeps l r) s

init-IsLive : (n : ℕ) → IsLive (init n)
unfolding Serves
init-IsLive n = record {
  bounded = omega arith;
  takers = λ h. omega (arith, h);
  putters = λ h. omega (arith, h);
}

-- However threads take turns at a queue: it never holds more than its capacity; while a thread sleeps
-- in `take`, each element of the queue has a thread that was woken up to take it, so that none sleeps
-- on with an element left for it; and while a thread sleeps in `put`, the same is true of each free
-- place.
pub Reach-IsLive :
    (max_size : ℕ) {xs : List ℕ} {q : BoundedBlockingQueue}
    → Reach (init max_size) xs q
    → (length q.queue ≤ q.capacity)
      × (1 ≤ q.not_empty.asleep → length q.queue ≤ q.not_empty.awake)
      × (1 ≤ q.not_full.asleep → q.capacity - length q.queue ≤ q.not_full.awake)
unfolding Serves
Reach-IsLive max_size r =
    let l = Reach-keeps (init-IsLive max_size) r in (l.bounded, l.takers, l.putters)

pub nothing_left : (n : ℕ) (c : Condition) → n ≡ 0 → Serves n (wait c)
unfolding Serves
nothing_left n c e = λ _. omega (arith, e)

pub none_asleep : (n awake : ℕ) → Serves n (record { asleep = 0; awake = awake })
unfolding Serves
none_asleep n awake = λ h. omega (arith, h)

pub Serves-awake : {n : ℕ} {c : Condition} → Serves n c → 1 ≤ c.asleep → n ≤ c.awake
unfolding Serves
Serves-awake s = s
