-- ===== src/Thread.antt =====
-- simplev/src/simplev/base/Thread.h and Thread.cc: a thread that is started once, and joined or detached
-- once. How often the pthread functions were called for it is counted. `tid` is the number that
-- `tid_` points to, which the new thread writes.
pub mod Once
mod Tests
use simplev.Prelude.{
  ℕ, ◌+◌, Bool, true, false, not, ◌&&◌, List, [], ◌∷◌, Option, none, some, Result, ok, err, assert,
  fatal, ◌>>=◌, ◌>>◌, if◌then◌else◌,
}

pub record Thread : Type 0 where
  pub started : Bool
  pub joined : Bool
  pub tid : ℕ
  pub created : ℕ
  pub joins : ℕ
  pub detaches : ℕ

abbrev pub init : Thread
init = record { started = false; joined = false; tid = 0; created = 0; joins = 0; detaches = 0 }

-- `created` says whether `pthread_create` made a thread; if not, the process aborts.
unfoldable pub start : Bool → Thread → Result Thread
start created t = do
  assert (not t.started)
  if created then ok (record t { started = true; created = 1 + t.created }) else err fatal

-- `reply` is what `pthread_join` returns.
unfoldable pub join : ℕ → Thread → Result (ℕ × Thread)
join reply t = do
  assert t.started
  assert (not t.joined)
  ok (reply, record t { joined = true; joins = 1 + t.joins })

-- The destructor.
unfoldable pub destroy : Thread → Thread
destroy t = if t.started && not t.joined then record t { detaches = 1 + t.detaches } else t

-- How the function of a thread ends.
pub data Outcome : Type 0 where
  returns throws_exception throws_std_exception throws_unknown : Outcome

pub data ThreadName : Type 0 where
  unknown finished crashed simplev_thread : ThreadName
  named : List ℕ → ThreadName

-- `name_.empty() ? "simplevThread" : name_`
abbrev pub name_of : List ℕ → ThreadName
name_of [] = simplev_thread
name_of (c ∷ cs) = named (c ∷ cs)

-- The names that the thread has in turn, and the number that it wrote through `wkTid_`. An exception ends
-- the process, by `abort` or by leaving the thread.
abbrev pub ending : Outcome → Result ThreadName
ending returns = ok finished
ending throws_exception = err fatal
ending throws_std_exception = err fatal
ending throws_unknown = err fatal

-- `runInThread`: `alive` says whether the Thread object still lives.
unfoldable pub run_in_thread :
    ℕ → Bool → List ℕ → Outcome → Thread → Result (List ThreadName × Thread)
run_in_thread tid alive name outcome t = do
  let t' = if alive then record t { tid = tid } else t
  last ← ending outcome
  ok (unknown ∷ name_of name ∷ last ∷ [], t')
