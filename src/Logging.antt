-- ===== src/Logging.antt =====
-- simplev/src/simplev/base/Logging.h and Logging.cc: a statement of the log, which puts one line
-- together in a LogStream and gives it to the output. The clock, `gmtime_r` and `strerror_r` are
-- arguments, with the time as seconds and microseconds. Lines that the output got are kept, the latest
-- last. A result says whether the statement aborted the process, with what was put out until then.
pub mod Lines
pub mod Heads
pub mod Statements
pub mod History
mod Tests
use simplev.Prelude.{
  ℕ, zero, suc, ◌+◌, Bool, true, false, List, [], ◌∷◌, ◌++◌, length, take, Option, none, some,
  Result, ok, assert, ◌>>=◌, ◌>>◌, ltb, leb, ◌==◌, if◌then◌else◌,
}
use simplev.Prelude.Int.{pos}
use simplev.LogStream
use simplev.LogStream.{FixedBuffer, Item, text, char, integer, put_all}
use simplev.LogStream.Printf.{padded}
use simplev.CurrentThread.{tid_text}

pub data LogLevel : Type 0 where
  trace debug info warn error fatal : LogLevel

abbrev pub rank : LogLevel → ℕ
rank trace = 0
rank debug = 1
rank info = 2
rank warn = 3
rank error = 4
rank fatal = 5

-- LogLevelName
abbrev pub level_name : LogLevel → List ℕ
level_name trace = b'T' ∷ b'R' ∷ b'A' ∷ b'C' ∷ b'E' ∷ b' ' ∷ []
level_name debug = b'D' ∷ b'E' ∷ b'B' ∷ b'U' ∷ b'G' ∷ b' ' ∷ []
level_name info = b'I' ∷ b'N' ∷ b'F' ∷ b'O' ∷ b' ' ∷ b' ' ∷ []
level_name warn = b'W' ∷ b'A' ∷ b'R' ∷ b'N' ∷ b' ' ∷ b' ' ∷ []
level_name error = b'E' ∷ b'R' ∷ b'R' ∷ b'O' ∷ b'R' ∷ b' ' ∷ []
level_name fatal = b'F' ∷ b'A' ∷ b'T' ∷ b'A' ∷ b'L' ∷ b' ' ∷ []

-- `struct tm`
pub record Tm : Type 0 where
  pub year : ℕ
  pub mon : ℕ
  pub mday : ℕ
  pub hour : ℕ
  pub min : ℕ
  pub sec : ℕ

-- The thread-local `t_lastSecond` and `t_time`.
pub record TimeCache : Type 0 where
  pub last_second : ℕ
  pub time : List ℕ

pub record Logging : Type 0 where
  pub log_level : LogLevel  -- `g_logLevel`
  pub cache : TimeCache
  pub output : List (List ℕ)
  pub flushes : ℕ

-- `initLogLevel`, with or without SIMPLEV_LOG_TRACE.
abbrev pub init_log_level : Bool → LogLevel
init_log_level traces = if traces then trace else debug

abbrev pub init : Bool → Logging
init traces = record {
  log_level = init_log_level traces;
  cache = record { last_second = 0; time = [] };
  output = [];
  flushes = 0;
}

abbrev pub set_log_level : LogLevel → Logging → Logging
set_log_level level l = record l { log_level = level }

-- What a statement is about, and what the system answers to it.
pub record Site : Type 0 where
  pub file : List ℕ
  pub line : ℕ
  pub func : Option (List ℕ)
  pub saved_errno : ℕ
  pub seconds : ℕ
  pub microseconds : ℕ
  pub tid : ℕ

-- The name behind the last '/', if there is one.
abbrev pub behind : List ℕ → List ℕ → List ℕ
behind best [] = best
behind best (c ∷ cs) = if c == b'/' then behind cs cs else behind best cs

unfoldable pub basename : List ℕ → List ℕ
basename file = behind file file

-- `"%4d%02d%02d %02d:%02d:%02d"`
abbrev pub time_text : Tm → List ℕ
time_text t =
    padded b' ' 4 (t.year + 1900)
    ++ (padded b'0' 2 (t.mon + 1)
        ++ (padded b'0' 2 t.mday
            ++ (b' '
                ∷ (padded b'0' 2 t.hour
                    ++ (b':' ∷ (padded b'0' 2 t.min ++ (b':' ∷ padded b'0' 2 t.sec)))))))

-- `".%06dZ "`
abbrev pub microseconds_text : ℕ → List ℕ
microseconds_text us = b'.' ∷ padded b'0' 6 us ++ b'Z' ∷ b' ' ∷ []

-- `T(str, len)`, a text of known length.
abbrev pub known : List ℕ → ℕ → Result Item
known str len = do assert (length str == len); ok (text str)

unfoldable pub refresh : (ℕ → Tm) → ℕ → TimeCache → Result TimeCache
unfolding padded
refresh gmtime seconds c =
    if seconds == c.last_second
    then ok c
    else (assert (length (time_text (gmtime seconds)) == 17)
        >> ok (record { last_second = seconds; time = time_text (gmtime seconds) }))

-- `formatTime`
unfoldable pub format_time : (ℕ → Tm) → ℕ → ℕ → TimeCache → Result (TimeCache × List Item)
unfolding refresh padded
format_time gmtime seconds microseconds c = do
  c' ← refresh gmtime seconds c
  assert (length (microseconds_text microseconds) == 9)
  time ← known c'.time 17
  us ← known (microseconds_text microseconds) 9
  ok (c', time ∷ us ∷ [])

abbrev pub errno_items : (ℕ → List ℕ) → ℕ → List Item
errno_items strerror zero = []
errno_items strerror (suc e) =
    text (strerror (suc e))
    ∷ text (b' ' ∷ b'(' ∷ b'e' ∷ b'r' ∷ b'r' ∷ b'n' ∷ b'o' ∷ b'=' ∷ [])
    ∷ integer (pos (suc e))
    ∷ text (b')' ∷ b' ' ∷ [])
    ∷ []

abbrev pub func_items : Option (List ℕ) → List Item
func_items none = []
func_items (some func) = text func ∷ char b' ' ∷ []

-- `finish`
unfoldable pub finish_items : Site → List Item
unfolding basename
finish_items s =
    text (b' ' ∷ b'-' ∷ b' ' ∷ [])
    ∷ text (basename s.file)
    ∷ char b':'
    ∷ integer (pos s.line)
    ∷ char 10
    ∷ []

-- `Logger::Impl::Impl`
unfoldable pub impl :
    (ℕ → Tm) → (ℕ → List ℕ) → LogLevel → Site → TimeCache → Result (TimeCache × List Item)
unfolding format_time padded
impl gmtime strerror level s c = do
  (c', time) ← format_time gmtime s.seconds s.microseconds c
  assert (length (tid_text s.tid) == 6)
  tid ← known (tid_text s.tid) 6
  name ← known (level_name level) 6
  ok (c', time ++ tid ∷ name ∷ errno_items strerror s.saved_errno)

abbrev pub is_fatal : LogLevel → Bool
is_fatal fatal = true
is_fatal _ = false

-- A Logger with what is put into its stream, to the end of its destructor.
unfoldable pub logger :
    (ℕ → Tm) → (ℕ → List ℕ) → LogLevel → Site → List Item → Logging → Result (Bool × Logging)
unfolding impl put_all LogStream.init finish_items
logger gmtime strerror level s items l = do
  (cache, head) ← impl gmtime strerror level s l.cache
  buf ← put_all (head ++ (func_items s.func ++ (items ++ finish_items s))) LogStream.init
  ok (
    is_fatal level,
    record l {
      cache = cache;
      output = l.output ++ take buf.cur buf.array ∷ [];
      flushes = (if is_fatal level then 1 else 0) + l.flushes;
    },
  )

-- The statements: three depend on the level of the log.
pub data Statement : Type 0 where
  log_trace log_debug log_info log_warn log_error log_fatal log_syserr log_sysfatal : Statement

abbrev pub level_of : Statement → LogLevel
level_of log_trace = trace
level_of log_debug = debug
level_of log_info = info
level_of log_warn = warn
level_of log_error = error
level_of log_fatal = fatal
level_of log_syserr = error
level_of log_sysfatal = fatal

abbrev pub enabled : Statement → LogLevel → Bool
enabled log_trace level = leb (rank level) (rank trace)
enabled log_debug level = leb (rank level) (rank debug)
enabled log_info level = leb (rank level) (rank info)
enabled _ level = true

-- What a statement passes on of its site: `errno` and `__func__`.
abbrev pub site_of : Statement → Site → Site
site_of log_trace s = record s { saved_errno = 0 }
site_of log_debug s = record s { saved_errno = 0 }
site_of log_syserr s = record s { func = none }
site_of log_sysfatal s = record s { func = none }
site_of _ s = record s { saved_errno = 0; func = none }

unfoldable pub run :
    (ℕ → Tm) → (ℕ → List ℕ) → Statement → Site → List Item → Logging → Result (Bool × Logging)
unfolding logger
run gmtime strerror st s items l =
    if enabled st l.log_level
    then logger gmtime strerror (level_of st) (site_of st s) items l
    else ok (false, l)

-- `CheckNotNull`: a null pointer ends the process.
unfoldable pub check_not_null :
    {A : Type 0}
    → (ℕ → Tm)
    → (ℕ → List ℕ)
    → Site
    → List ℕ
    → Option A
    → Logging
    → Result (Bool × Logging)
unfolding logger
check_not_null gmtime strerror s names (some ptr) l = ok (false, l)
check_not_null gmtime strerror s names none l =
    logger gmtime strerror fatal (site_of log_fatal s) (text names ∷ []) l
