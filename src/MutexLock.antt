-- ===== src/MutexLock.antt =====
-- simplev/src/simplev/base/Mutex.h and Condition.h: a mutex that knows its holder, so that code can
-- assert that its thread has locked it. `owner` is the thread that the pthread mutex belongs to. What a
-- thread does to the pthread mutex and to `holder_` are steps of their own, which other threads may
-- come between. A thread is its `tid`, which is not 0.
pub mod Holder
mod Tests
use simplev.Prelude.{
  ℕ, ◌≡◌, ◌≤◌, Bool, Option, none, some, Result, ok, assert, ◌>>=◌, ◌>>◌, ◌==◌, if◌then◌else◌,
}

pub record MutexLock : Type 0 where
  pub owner : Option ℕ
  pub holder : ℕ

abbrev pub init : MutexLock
init = record { owner = none; holder = 0 }

unfoldable pub is_locked_by_this_thread : ℕ → MutexLock → Bool
is_locked_by_this_thread tid m = m.holder == tid

unfoldable pub assert_locked : ℕ → MutexLock → Result (Unit {0})
unfolding is_locked_by_this_thread
assert_locked tid m = assert (is_locked_by_this_thread tid m)

-- The destructor.
unfoldable pub destroy : MutexLock → Result (Unit {0})
destroy m = assert (m.holder == 0)

unfoldable pub assign_holder : ℕ → MutexLock → MutexLock
assign_holder tid m = record m { holder = tid }

unfoldable pub unassign_holder : MutexLock → MutexLock
unassign_holder m = record m { holder = 0 }

-- `pthread_mutex_lock` when it returns, and `pthread_mutex_unlock`.
abbrev pub pthread_lock : ℕ → MutexLock → MutexLock
pthread_lock tid m = record m { owner = some tid }

abbrev pub pthread_unlock : MutexLock → MutexLock
pthread_unlock m = record m { owner = none }

-- Where a thread is: outside; in `lock`, with the pthread mutex and not yet the holder; between `lock` and
-- `unlock`; in `unlock`, no more the holder; in `Condition::wait` before it sleeps; and asleep there.
pub data Place : Type 0 where
  outside locking inside unlocking waiting asleep : Place

pub record System : Type 0 where
  pub mutex : MutexLock
  pub place : ℕ → Place

abbrev pub move : ℕ → Place → (ℕ → Place) → ℕ → Place
move tid p place = λ t. if t == tid then p else place t

abbrev pub start : System
start = record { mutex = init; place = λ t. outside }

-- `lock`: it returns from the pthread call when the mutex is free.
unfoldable pub locks : ℕ → System → System
locks tid s = record { mutex = pthread_lock tid s.mutex; place = move tid locking s.place }

unfoldable pub locked : ℕ → System → System
unfolding assign_holder
locked tid s = record { mutex = assign_holder tid s.mutex; place = move tid inside s.place }

-- `unlock`
unfoldable pub unlocks : ℕ → System → System
unfolding unassign_holder
unlocks tid s = record { mutex = unassign_holder s.mutex; place = move tid unlocking s.place }

unfoldable pub unlocked : ℕ → System → System
unlocked tid s = record { mutex = pthread_unlock s.mutex; place = move tid outside s.place }

-- `Condition::wait`, and `waitForSeconds`: UnassignGuard takes the holder away, and gives it back when
-- `pthread_cond_wait` has the mutex again.
unfoldable pub waits : ℕ → System → System
unfolding unassign_holder
waits tid s = record { mutex = unassign_holder s.mutex; place = move tid waiting s.place }

unfoldable pub sleeps : ℕ → System → System
sleeps tid s = record { mutex = pthread_unlock s.mutex; place = move tid asleep s.place }

-- A step of the thread `tid`.
pub data Step (s : System) : System → Type 0 where
  lock : (tid : ℕ) → 1 ≤ tid → s.place tid ≡ outside → s.mutex.owner ≡ none → Step s (locks tid s)
  assign : (tid : ℕ) → s.place tid ≡ locking → Step s (locked tid s)
  unassign : (tid : ℕ) → s.place tid ≡ inside → Step s (unlocks tid s)
  unlock : (tid : ℕ) → s.place tid ≡ unlocking → Step s (unlocked tid s)
  wait : (tid : ℕ) → s.place tid ≡ inside → Step s (waits tid s)
  sleep : (tid : ℕ) → s.place tid ≡ waiting → Step s (sleeps tid s)
  wake : (tid : ℕ) → s.place tid ≡ asleep → s.mutex.owner ≡ none → Step s (locks tid s)

pub data Reach (s : System) : System → Type 0 where
  here : Reach s s
  next : {s' s'' : System} → Reach s s' → Step s' s'' → Reach s s''
