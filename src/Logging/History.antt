-- ===== src/Logging/History.antt =====
-- Statements of the log of Logging.cc one after another in a thread, until one ends the process.
use simplev.Prelude.{
  ℕ, ◌+◌, ◌^◌, ◌≡◌, ◌≤◌, ◌<◌, refl, sym, ap, subst, ◌∙◌, Bool, true, false, List, [], ◌∷◌, ◌++◌,
  length, arith, append_assoc, append-nil, Result, ok, ◌>>=◌, ◌==◌, if◌then◌else◌, inl, inr,
  Bool-cases,
}
use simplev.LogStream.{Item}
use simplev.LogStream.Line.{AllInRange}
use simplev.Logging.Heads.{IsTime, IsProper, tail_items, head_text, refreshed}
use simplev.Logging.Statements.{put_out, run_lem}
use simplev.Logging.{
  LogLevel, Tm, TimeCache, Logging, Site, time_text, init, is_fatal, Statement, level_of, enabled,
  site_of, run,
}

-- A statement, what it is about and what is put into its stream.
pub record Entry : Type 0 where
  pub statement : Statement
  pub site : Site
  pub items : List Item

-- What the statement passes on of its site.
abbrev pub passed : Entry → Site
passed x = site_of x.statement x.site

abbrev pub go_on :
    Result (Bool × Logging) → (Logging → Result (Bool × Logging)) → Result (Bool × Logging)
go_on m rest = m >>= λ (aborted, l). if aborted then ok (true, l) else rest l

module _ (gmtime : ℕ → Tm) (strerror : ℕ → List ℕ) where
  unfoldable pub run_all : List Entry → Logging → Result (Bool × Logging)
  run_all [] l = ok (false, l)
  run_all (x ∷ xs) l = go_on (run gmtime strerror x.statement x.site x.items l) (run_all xs)

-- Whether one of the statements ends the process.
abbrev pub aborts : LogLevel → List Entry → Bool
aborts level [] = false
aborts level (x ∷ xs) =
    if enabled x.statement level
    then (if is_fatal (level_of x.statement) then true else aborts level xs)
    else aborts level xs

-- The heads of the lines that the statements put out.
abbrev pub heads : (ℕ → Tm) → LogLevel → List Entry → List (List ℕ)
heads gmtime level [] = []
heads gmtime level (x ∷ xs) =
    if enabled x.statement level
    then head_text gmtime (level_of x.statement) (passed x)
      ∷ (if is_fatal (level_of x.statement) then [] else heads gmtime level xs)
    else heads gmtime level xs

-- One line for each head, which starts with it, in their order.
abbrev pub AreHeaded : List (List ℕ) → List (List ℕ) → Type 0
AreHeaded [] [] = Unit {0}
AreHeaded (line ∷ lines) (head ∷ hs) =
    ((body : List ℕ) × (line ≡ head ++ body)) × (length line ≤ 4000) × AreHeaded lines hs
AreHeaded _ _ = ⊥

-- A time after the epoch, and numbers and items that a line can show.
pub record IsShown (gmtime : ℕ → Tm) (strerror : ℕ → List ℕ) (x : Entry) : Type 0 where
  pub later : 1 ≤ (passed x).seconds
  pub is_time : IsTime (gmtime (passed x).seconds)
  pub small : (passed x).microseconds < 10 ^ 6
  pub few_threads : (passed x).tid < 100000
  pub range : AllInRange (tail_items strerror (passed x) x.items)

abbrev pub AllShown : (ℕ → Tm) → (ℕ → List ℕ) → List Entry → Type 0
AllShown gmtime strerror [] = Unit {0}
AllShown gmtime strerror (x ∷ xs) = IsShown gmtime strerror x × AllShown gmtime strerror xs

-- The cached text is that of its second, from the first line on.
abbrev IsKept : (ℕ → Tm) → TimeCache → Type 0
IsKept gmtime c = 1 ≤ c.last_second → c.time ≡ time_text (gmtime c.last_second)

refreshed-IsKept :
    (gmtime : ℕ → Tm) (seconds : ℕ) (c : TimeCache)
    → IsKept gmtime c
    → IsKept gmtime (refreshed gmtime seconds c)
refreshed-IsKept gmtime seconds c k = elim (Bool-cases (seconds == c.last_second)) [
  | inl t ↦ subst (IsKept gmtime) (sym (ap (λ b. if b then c else fresh) t)) k
  | inr t ↦ subst (IsKept gmtime) (sym (ap (λ b. if b then c else fresh) t)) (λ _. refl)
]
  where
    fresh : TimeCache
    fresh = record { last_second = seconds; time = time_text (gmtime seconds) }

proper :
    (gmtime : ℕ → Tm) (strerror : ℕ → List ℕ) (x : Entry) (c : TimeCache)
    → IsShown gmtime strerror x
    → IsKept gmtime c
    → IsProper gmtime (passed x) c
proper gmtime strerror x c s k = record {
  fresh = record {
    is_time = s.is_time;
    cached = λ e. k (omega (arith, e, s.later)) ∙ ap (λ n. time_text (gmtime n)) e;
  };
  small = s.small;
  few_threads = s.few_threads;
}

-- A run from `l` that adds lines with the heads `hs`.
record Logs (l : Logging) (m : Result (Bool × Logging)) (stops : Bool) (hs : List (List ℕ))
    : Type 0 where
  end : Logging
  lines : List (List ℕ)
  ran : m ≡ ok (stops, end)
  output_grown : end.output ≡ l.output ++ lines
  headed : AreHeaded lines hs
  flushed : end.flushes ≡ (if stops then 1 else 0) + l.flushes

-- A line put out, and then the end of the process or more lines.
line-Logs :
    (stop : Bool) (l l₁ : Logging) (line head : List ℕ) (rest : Result (Bool × Logging)) (a : Bool)
    (hs : List (List ℕ))
    → l₁.output ≡ l.output ++ line ∷ []
    → l₁.flushes ≡ (if stop then 1 else 0) + l.flushes
    → ((body : List ℕ) × (line ≡ head ++ body))
    → length line ≤ 4000
    → Logs l₁ rest a hs
    → Logs l
        (if stop then ok (true, l₁) else rest)
        (if stop then true else a)
        (head ∷ (if stop then [] else hs))
line-Logs true l l₁ line head rest a hs out flushes starts fits more = record {
  end = l₁;
  lines = line ∷ [];
  ran = refl;
  output_grown = out;
  headed = (starts, fits, tt);
  flushed = flushes;
}
line-Logs false l l₁ line head rest a hs out flushes starts fits more = record {
  end = more.end;
  lines = line ∷ more.lines;
  ran = more.ran;
  output_grown =
      more.output_grown
      ∙ (ap (λ (t : List (List ℕ)). t ++ more.lines) out
          ∙ append_assoc l.output (line ∷ []) more.lines);
  headed = (starts, fits, more.headed);
  flushed = more.flushed ∙ ap (λ n. (if a then 1 else 0) + n) (flushes ∙ omega arith);
}

Logs-run_all :
    (gmtime : ℕ → Tm) (strerror : ℕ → List ℕ) (xs : List Entry) (l : Logging)
    → IsKept gmtime l.cache
    → AllShown gmtime strerror xs
    → Logs l (run_all gmtime strerror xs l) (aborts l.log_level xs) (heads gmtime l.log_level xs)
unfolding run_all
Logs-run_all gmtime strerror [] l k s = record {
  end = l;
  lines = [];
  ran = refl;
  output_grown = sym (append-nil l.output);
  headed = tt;
  flushed = omega arith;
}
Logs-run_all gmtime strerror (x ∷ xs) l k s =
    let (off, on) =
      run_lem gmtime strerror x.statement x.site x.items l (proper gmtime strerror x l.cache s.0 k)
        s.0.range in
    elim (Bool-cases (enabled x.statement l.log_level)) [
      | inr t ↦ rw (t, off t) (Logs-run_all gmtime strerror xs l k s.1)
      | inl t ↦
          let (body, ran, fits) = on t in
          let level = level_of x.statement in
          let l₁ = put_out gmtime level (passed x) (head_text gmtime level (passed x) ++ body) l in
          rw (t, ran)
            (line-Logs (is_fatal level) l l₁ _ (head_text gmtime level (passed x)) _ _ _ refl refl
              (body, refl) fits
              (Logs-run_all gmtime strerror xs l₁
                (refreshed-IsKept gmtime (passed x).seconds l.cache k) s.1))
    ]

-- Statements of the log one after another in a new process, at times after the epoch and with numbers and
-- items that a line can show: no assertion fails. Each statement of at least the log's level puts out one
-- line of at most 4000 characters, which starts with the whole head of that statement, in their order, up
-- to the first FATAL. That one, and no other, flushes the output and ends the process.
pub run_all_lem :
    (gmtime : ℕ → Tm) (strerror : ℕ → List ℕ) (traces : Bool) (xs : List Entry)
    → AllShown gmtime strerror xs
    → let l = init traces in
      (l' : Logging) × (run_all gmtime strerror xs l ≡ ok (aborts l.log_level xs, l'))
      × AreHeaded l'.output (heads gmtime l.log_level xs)
      × (l'.flushes ≡ (if aborts l.log_level xs then 1 else 0))
run_all_lem gmtime strerror traces xs s =
    let logs = Logs-run_all gmtime strerror xs (init traces) (λ h. absurd (omega (arith, h))) s in
    (
      logs.end,
      logs.ran,
      subst (λ ls. AreHeaded ls (heads gmtime (init traces).log_level xs)) (sym logs.output_grown)
          logs.headed,
      logs.flushed ∙ omega arith,
    )
