-- ===== src/CountDownLatch/Opening.antt =====
-- When the threads that wait for a latch of CountDownLatch.cc go on.
use simplev.Prelude.{zero, suc, ◌≡◌, ◌≤◌, refl, Bool, true, false, arith, if◌then◌else◌}
use simplev.Prelude.Int.{ℤ, pos, negsuc}
use simplev.BoundedBlockingQueue.{wake}
use simplev.CountDownLatch.{
  CountDownLatch, init, is_positive, is_zero, minus_one, wait, wait_again, count_down,
}

-- A step.
pub data Step (l : CountDownLatch) : CountDownLatch → Type 0 where
  waits : Step l (wait l)
  waits_again : 1 ≤ l.condition.awake → Step l (wait_again l)
  counts_down : Step l (count_down l)
  wakes : Step l (record l { condition = wake l.condition })

pub data Reach (l : CountDownLatch) : CountDownLatch → Type 0 where
  here : Reach l l
  next : {l' l'' : CountDownLatch} → Reach l l' → Step l' l'' → Reach l l''

-- Threads sleep only before a shut latch, and pass only through an open one.
record IsFair (l : CountDownLatch) : Type 0 where
  sleepers : 1 ≤ l.condition.asleep → is_positive l.count ≡ true
  passers : 1 ≤ l.passed → is_positive l.count ≡ false

if-IsFair :
    (b : Bool) {d e : CountDownLatch}
    → (b ≡ true → IsFair d)
    → (b ≡ false → IsFair e)
    → IsFair (if b then d else e)
if-IsFair true p q = p refl
if-IsFair false p q = q refl

-- A latch that is open stays so, and one that is shut stays so or gets to zero.
minus_one-open : (z : ℤ) → is_positive z ≡ false → is_positive (minus_one z) ≡ false
minus_one-open (pos zero) h = refl
minus_one-open (pos (suc n)) h = cc
minus_one-open (negsuc n) h = refl

minus_one-shut :
    (z : ℤ)
    → is_positive z ≡ true
    → is_zero (minus_one z) ≡ false
    → is_positive (minus_one z) ≡ true
minus_one-shut (pos zero) h e = cc
minus_one-shut (pos (suc zero)) h e = cc
minus_one-shut (pos (suc (suc n))) h e = refl
minus_one-shut (negsuc n) h e = cc

zero-open : (z : ℤ) → is_zero z ≡ true → is_positive z ≡ false
zero-open (pos zero) h = refl
zero-open (pos (suc n)) h = cc
zero-open (negsuc n) h = cc

-- `wait`, where threads sleep at most before a shut latch.
wait_lem :
    (l : CountDownLatch)
    → (1 ≤ l.condition.asleep → is_positive l.count ≡ true)
    → (1 ≤ l.passed → is_positive l.count ≡ false)
    → IsFair (wait l)
unfolding wait
wait_lem l sleepers passers =
    if-IsFair (is_positive l.count) (λ shut. record { sleepers = λ _. shut; passers = passers })
      (λ is_open. record { sleepers = sleepers; passers = λ _. is_open })

Step-IsFair : {l l' : CountDownLatch} → IsFair l → Step l l' → IsFair l'
unfolding count_down
Step-IsFair {l} f waits = wait_lem l f.sleepers f.passers
Step-IsFair {l} f (waits_again up) = wait_lem (record l { condition = _ }) f.sleepers f.passers
Step-IsFair {l} f counts_down =
    if-IsFair (is_zero (minus_one l.count))
      (λ z. record {
        sleepers = λ h. absurd (omega (arith, h));
        passers = λ _. zero-open (minus_one l.count) z;
      })
      (λ z. record {
        sleepers = λ h. minus_one-shut l.count (f.sleepers h) z;
        passers = λ h. minus_one-open l.count (f.passers h);
      })
Step-IsFair {l} f wakes = record {
  sleepers = λ h. f.sleepers (omega (arith, h));
  passers = f.passers;
}

Reach-IsFair : {l l' : CountDownLatch} → IsFair l → Reach l l' → IsFair l'
Reach-IsFair f here = f
Reach-IsFair f (next r s) = Step-IsFair (Reach-IsFair f r) s

-- However threads take turns at a new latch: while one sleeps in `wait`, the count is still positive, so
-- that none sleeps on when it is not; and once one came out of `wait`, the count is not positive
-- any more.
pub Reach-sleepers :
    (count : ℤ) {l : CountDownLatch}
    → Reach (init count) l
    → (1 ≤ l.condition.asleep → is_positive l.count ≡ true)
      × (1 ≤ l.passed → is_positive l.count ≡ false)
Reach-sleepers count r =
    let f =
      Reach-IsFair
        (record {
          sleepers = λ h. absurd (omega (arith, h));
          passers = λ h. absurd (omega (arith, h));
        })
        r in
    (f.sleepers, f.passers)
