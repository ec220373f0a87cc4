-- ===== src/CurrentThread.antt =====
-- simplev/src/simplev/base/CurrentThread.h and the functions of Thread.cc that it declares: a thread asks
-- the kernel for its number once, and keeps it with a text of it for the log. What the system call
-- answers is an argument.
pub mod Tid
mod Tests
use simplev.Prelude.{
  ℕ, Bool, List, [], ◌∷◌, ◌++◌, length, Result, ok, assert, ◌>>=◌, ◌>>◌, ◌==◌, if◌then◌else◌,
}
use simplev.LogStream.Printf.{padded}

-- The thread-local variables.
pub record CurrentThread : Type 0 where
  pub cached_tid : ℕ
  pub tid_string : List ℕ

abbrev pub init : CurrentThread
init = record { cached_tid = 0; tid_string = [] }

-- `"%5d "`
abbrev pub tid_text : ℕ → List ℕ
tid_text tid = padded b' ' 5 tid ++ b' ' ∷ []

unfoldable pub cache_tid : ℕ → CurrentThread → Result CurrentThread
unfolding padded
cache_tid gettid t =
    if t.cached_tid == 0
    then (assert (length (tid_text gettid) == 6)
        >> ok (record { cached_tid = gettid; tid_string = tid_text gettid }))
    else ok t

unfoldable pub tid : ℕ → CurrentThread → Result (ℕ × CurrentThread)
unfolding cache_tid
tid gettid t = do
  t' ← (if t.cached_tid == 0 then cache_tid gettid t else ok t)
  ok (t'.cached_tid, t')

-- `isMainThread`
unfoldable pub is_main_thread : ℕ → ℕ → CurrentThread → Result (Bool × CurrentThread)
unfolding tid
is_main_thread getpid gettid t = do (n, t') ← tid gettid t; ok (n == getpid, t')
