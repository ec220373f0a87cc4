-- ===== src/Logging/Statements.antt =====
-- What a statement of Logging.cc puts out, and when it ends the process.
use simplev.Prelude.{
  ℕ, ◌+◌, ◌≡◌, ◌≤◌, refl, ap, subst, ◌∙◌, Bool, true, false, List, [], ◌∷◌, ◌++◌, length, arith,
  length-replicate, Result, ok, ◌>>=◌, if◌then◌else◌,
}
use simplev.LogStream
use simplev.LogStream.{FixedBuffer, Item, text, avail, put, put_all, small_buffer}
use simplev.LogStream.Line.{IsValid, line, Puts, AllInRange}
use simplev.CurrentThread.{tid_text}
use simplev.Logging.Lines.{length-line, PutsHead, put_head}
use simplev.Logging.Heads.{
  length-time_text, length-microseconds_text, length-tid, length-level_name, IsProper, tail_items,
  head_text, refreshed, refresh_lem, impl_lem,
}
use simplev.Logging.{
  LogLevel, level_name, Tm, TimeCache, Logging, Site, microseconds_text, is_fatal, logger,
  Statement, level_of, enabled, site_of, run,
}

init-IsValid : IsValid LogStream.init
unfolding LogStream.init
init-IsValid =
    let size = length-replicate {A = ℕ} small_buffer 0 in
    record { inside = omega (arith, size); bounded = omega (arith, size) }

avail-init : avail LogStream.init ≡ 4000
unfolding LogStream.init
avail-init = omega (arith, length-replicate {A = ℕ} small_buffer 0)

line-init : line LogStream.init ≡ []
unfolding LogStream.init
line-init = refl

init_size : length LogStream.init.array ≡ 4000
unfolding LogStream.init
init_size = length-replicate {A = ℕ} small_buffer 0

-- The state behind a statement that put out the line `written`.
abbrev pub put_out : (ℕ → Tm) → LogLevel → Site → List ℕ → Logging → Logging
put_out gmtime level s written l = record l {
  cache = refreshed gmtime s.seconds l.cache;
  output = l.output ++ written ∷ [];
  flushes = (if is_fatal level then 1 else 0) + l.flushes;
}

-- The text after the head is in a line that holds both.
shown_line :
    (gmtime : ℕ → Tm) (level : LogLevel) (s : Site) (c : TimeCache) (body : List ℕ)
    (b : FixedBuffer)
    → IsProper gmtime s c
    → Puts LogStream.init
        (((refreshed gmtime s.seconds c).time
            ++ (microseconds_text s.microseconds ++ (tid_text s.tid ++ (level_name level ++ []))))
          ++ body)
        b
    → line b ≡ head_text gmtime level s ++ body
shown_line gmtime level s c body b p puts =
    let more = microseconds_text s.microseconds ++ (tid_text s.tid ++ (level_name level ++ [])) in
    puts.shows
    ∙ (ap (λ t. t ++ (((refreshed gmtime s.seconds c).time ++ more) ++ body)) line-init
        ∙ ap (λ t. (t ++ more) ++ body) (refresh_lem gmtime s.seconds c p.fresh).1)

put_line :
    (gmtime : ℕ → Tm) (level : LogLevel) (s : Site) (c : TimeCache) (rest : List Item)
    → IsProper gmtime s c
    → AllInRange rest
    → PutsHead
        (text (refreshed gmtime s.seconds c).time
          ∷ text (microseconds_text s.microseconds)
          ∷ text (tid_text s.tid)
          ∷ text (level_name level)
          ∷ rest)
        LogStream.init
        ((refreshed gmtime s.seconds c).time
          ++ (microseconds_text s.microseconds ++ (tid_text s.tid ++ (level_name level ++ []))))
put_line gmtime level s c rest p range =
    put_head (refreshed gmtime s.seconds c).time (microseconds_text s.microseconds) (tid_text s.tid)
      (level_name level) rest LogStream.init init-IsValid
      (omega (
        arith,
        avail-init,
        ap length (refresh_lem gmtime s.seconds c p.fresh).1,
        length-time_text (gmtime s.seconds) p.fresh.is_time,
        length-microseconds_text s.microseconds p.small,
        length-tid s.tid p.few_threads,
        length-level_name level,
      ))
      range

-- The end of a Logger, with its line.
abbrev ending : (ℕ → Tm) → LogLevel → Site → Logging → FixedBuffer → Result (Bool × Logging)
ending gmtime level s l b = ok (is_fatal level, put_out gmtime level s (line b) l)

logger_lem :
    (gmtime : ℕ → Tm) (strerror : ℕ → List ℕ) (level : LogLevel) (s : Site) (items : List Item)
    (l : Logging)
    → IsProper gmtime s l.cache
    → AllInRange (tail_items strerror s items)
    → (body : List ℕ) × (logger gmtime strerror level s items l
        ≡ ok (is_fatal level, put_out gmtime level s (head_text gmtime level s ++ body) l))
      × (length (head_text gmtime level s ++ body) ≤ 4000)
unfolding logger
logger_lem gmtime strerror level s items l p range =
    finish (put_line gmtime level s l.cache (tail_items strerror s items) p range)
  where
    finish :
        PutsHead
          (text (refreshed gmtime s.seconds l.cache).time
            ∷ text (microseconds_text s.microseconds)
            ∷ text (tid_text s.tid)
            ∷ text (level_name level)
            ∷ tail_items strerror s items)
          LogStream.init
          ((refreshed gmtime s.seconds l.cache).time
            ++ (microseconds_text s.microseconds ++ (tid_text s.tid ++ (level_name level ++ []))))
        → (body : List ℕ) × (logger gmtime strerror level s items l
            ≡ ok (is_fatal level, put_out gmtime level s (head_text gmtime level s ++ body) l))
          × (length (head_text gmtime level s ++ body) ≤ 4000)
    finish (b, body, ran, puts) =
        let shown = shown_line gmtime level s l.cache body b p puts in
        (
          body,
          rw (impl_lem gmtime strerror level s l.cache p) (
              ap (λ m. m >>= ending gmtime level s l) ran
              ∙ ap (λ t. ok (is_fatal level, put_out gmtime level s t l)) shown),
          subst (λ t. length t ≤ 4000) shown
              (omega
                (arith, length-line b puts.valid, puts.valid.inside, puts.size_kept, init_size)),
        )

-- A statement of the log, with times, thread numbers and items that the fields of a line can show: below the
-- level of the log it does nothing. Otherwise no assertion fails, and exactly one line is put out,
-- of at most 4000 characters, that starts with its whole head, however long the message is; the
-- process is aborted for the level FATAL alone, after a flush.
pub run_lem :
    (gmtime : ℕ → Tm) (strerror : ℕ → List ℕ) (st : Statement) (s : Site) (items : List Item)
    (l : Logging)
    → IsProper gmtime (site_of st s) l.cache
    → AllInRange (tail_items strerror (site_of st s) items)
    → (enabled st l.log_level ≡ false → run gmtime strerror st s items l ≡ ok (false, l))
      × (enabled st l.log_level ≡ true
          → (body : List ℕ) × (run gmtime strerror st s items l
              ≡ ok (
                is_fatal (level_of st),
                put_out gmtime
                    (level_of st)
                    (site_of st s)
                    (head_text gmtime (level_of st) (site_of st s) ++ body)
                    l,
              ))
            × (length (head_text gmtime (level_of st) (site_of st s) ++ body) ≤ 4000))
unfolding run
run_lem gmtime strerror st s items l p range =
    let (body, ran, fits) =
      logger_lem gmtime strerror (level_of st) (site_of st s) items l p range in
    (
      λ off.
          ap
            (λ b.
              if b
              then logger gmtime strerror (level_of st) (site_of st s) items l
              else ok (false, l))
            off,
      λ on. (
        body,
        ap
              (λ b.
                if b
                then logger gmtime strerror (level_of st) (site_of st s) items l
                else ok (false, l))
              on
            ∙ ran,
        fits,
      ),
    )
