-- ===== src/EventLoopThreadPool.antt =====
-- simplev/src/simplev/net/EventLoopThreadPool.h and EventLoopThreadPool.cc: the loops of a server, and
-- which of them gets the next connection. A loop is named by its thread. The calling thread is the
-- first argument of a method. `TcpServer::setThreadNum` asserts that the number is not negative.
pub mod Rounds
mod Tests
use simplev.Prelude.{
  ℕ, zero, suc, ◌+◌, Bool, true, false, not, List, [], ◌∷◌, ◌++◌, Option, none, some, get_elem?,
  Result, ok, err, assert, ensure, fatal, out_of_range, ◌>>=◌, ◌>>◌, ◌==◌, leb, if◌then◌else◌,
}

pub record EventLoopThreadPool : Type 0 where
  pub base_loop : ℕ
  pub started : Bool
  pub num_threads : ℕ
  pub next : ℕ
  pub loops : List ℕ

abbrev pub init : ℕ → EventLoopThreadPool
init base_loop = record {
  base_loop = base_loop;
  started = false;
  num_threads = 0;
  next = 0;
  loops = [];
}

abbrev pub set_thread_num : ℕ → EventLoopThreadPool → EventLoopThreadPool
set_thread_num num_threads p = record p { num_threads = num_threads }

abbrev pub assert_in_loop_thread : ℕ → EventLoopThreadPool → Result (Unit {0})
assert_in_loop_thread thread p = ensure (p.base_loop == thread) fatal

-- The loop that the `i`-th new thread runs is an argument. `n` threads are left to start.
unfoldable pub start_loops : (ℕ → ℕ) → ℕ → ℕ → List ℕ
start_loops start_loop i zero = []
start_loops start_loop i (suc n) = start_loop i ∷ start_loops start_loop (suc i) n

unfoldable pub start : ℕ → (ℕ → ℕ) → EventLoopThreadPool → Result EventLoopThreadPool
unfolding start_loops
start thread start_loop p = do
  assert (not p.started)
  assert_in_loop_thread thread p
  ok (record p { started = true; loops = p.loops ++ start_loops start_loop 0 p.num_threads })

-- `++next_`, back to the first loop behind the last.
abbrev pub step : EventLoopThreadPool → EventLoopThreadPool
step p = record p { next = if leb p.num_threads (1 + p.next) then 0 else 1 + p.next }

abbrev round_robin : Option ℕ → EventLoopThreadPool → Result (ℕ × EventLoopThreadPool)
round_robin none p = err out_of_range
round_robin (some loop) p = ok (loop, step p)

abbrev pick : List ℕ → EventLoopThreadPool → Result (ℕ × EventLoopThreadPool)
pick [] p = ok (p.base_loop, p)
pick (loop ∷ loops) p = round_robin (get_elem? (loop ∷ loops) p.next) p

unfoldable pub get_next_loop : ℕ → EventLoopThreadPool → Result (ℕ × EventLoopThreadPool)
get_next_loop thread p = do assert_in_loop_thread thread p; assert p.started; pick p.loops p

abbrev all_loops : List ℕ → EventLoopThreadPool → List ℕ
all_loops [] p = p.base_loop ∷ []
all_loops (loop ∷ loops) p = loop ∷ loops

unfoldable pub get_all_loops : ℕ → EventLoopThreadPool → Result (List ℕ)
get_all_loops thread p = do
  assert_in_loop_thread thread p
  assert p.started
  ok (all_loops p.loops p)
