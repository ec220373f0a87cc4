-- ===== src/Logging/Tests.antt =====
-- Statements of the log of Logging.cc.
use simplev.Prelude.{ℕ, ◌≡◌, refl, true, false, List, [], ◌∷◌, some, ok, arith}
use simplev.LogStream.{text}
use simplev.Logging.{
  LogLevel, Tm, Site, Logging, Statement, log_syserr, init, set_log_level, basename, finish_items,
  log_trace, log_fatal, site_of, run, check_not_null,
}
use simplev.Logging.Heads.{head_text}
use simplev.Logging.History.{Entry, AllShown, IsShown, AreHeaded, run_all, run_all_lem}

-- The second 1403300000 or any other, at half past nine.
abbrev gmtime : ℕ → Tm
gmtime seconds = record { year = 114; mon = 5; mday = 20; hour = 21; min = 33; sec = 20 }

abbrev strerror : ℕ → List ℕ
strerror errno = b'?' ∷ []

-- In "a/b.c" at line 7, in thread 321.
abbrev here : Site
here = record {
  file = b'a' ∷ b'/' ∷ b'b' ∷ b'.' ∷ b'c' ∷ [];
  line = 7;
  func = some (b'f' ∷ []);
  saved_errno = 2;
  seconds = 1403300000;
  microseconds = 5;
  tid = 321;
}

the_name : basename here.file ≡ b'b' ∷ b'.' ∷ b'c' ∷ []
unfolding basename
the_name = refl

-- Of the three statements the second is below the level of the log.
abbrev entry : Statement → Entry
entry st = record { statement = st; site = here; items = text (b'x' ∷ []) ∷ [] }

abbrev entries : List Entry
entries = entry log_syserr ∷ entry log_trace ∷ entry log_fatal ∷ []

entries-AllShown : AllShown gmtime strerror entries
unfolding finish_items basename
entries-AllShown = (shown, (shown', (shown'', tt)))
  where
    shown : IsShown gmtime strerror (entry log_syserr)
    shown = record {
      later = omega arith;
      is_time = omega arith;
      small = omega arith;
      few_threads = omega arith;
      range = omega arith;
    }

    shown' : IsShown gmtime strerror (entry log_trace)
    shown' = record {
      later = omega arith;
      is_time = omega arith;
      small = omega arith;
      few_threads = omega arith;
      range = omega arith;
    }

    shown'' : IsShown gmtime strerror (entry log_fatal)
    shown'' = record {
      later = omega arith;
      is_time = omega arith;
      small = omega arith;
      few_threads = omega arith;
      range = omega arith;
    }

run_all_lem_example :
    (l' : Logging) × (run_all gmtime strerror entries (init false) ≡ ok (true, l'))
    × AreHeaded l'.output (
        head_text gmtime LogLevel.error (site_of log_syserr here)
        ∷ head_text gmtime LogLevel.fatal (site_of log_fatal here)
        ∷ [])
    × (l'.flushes ≡ 1)
run_all_lem_example = run_all_lem gmtime strerror false entries entries-AllShown

-- Without SIMPLEV_LOG_TRACE in the environment nothing is traced.
quiet : run gmtime strerror log_trace here [] (init false) ≡ ok (false, init false)
unfolding run
quiet = refl

not_null :
    check_not_null {A = ℕ} gmtime strerror here (b'p' ∷ []) (some 5) (init false)
    ≡ ok (false, init false)
unfolding check_not_null
not_null = refl

louder : (set_log_level LogLevel.trace (init false)).log_level ≡ LogLevel.trace
louder = refl
