-- ===== src/Logging/Heads.antt =====
-- The head of a line of Logging.cc: the time, the thread and the level, in texts of known length.
use simplev.Prelude.{
  ℕ, suc, ◌+◌, ◌^◌, ◌≡◌, ◌<◌, refl, ap, ◌∙◌, true, List, [], ◌∷◌, ◌++◌, length, arith,
  length-append, ok, assert, assertion, ensure-true, ◌>>=◌, ◌>>◌, ◌==◌, if◌then◌else◌, inl, inr,
  Bool-cases,
}
use simplev.LogStream.{Item, text}
use simplev.LogStream.Printf.{padded, length-padded}
use simplev.CurrentThread.{tid_text}
use simplev.CurrentThread.Tid.{length-tid_text}
use simplev.Logging.{
  LogLevel, level_name, Tm, TimeCache, Site, time_text, microseconds_text, known, refresh,
  format_time, errno_items, func_items, finish_items, impl,
}

-- A time that four digits of the year and two of the rest can show.
pub record IsTime (t : Tm) : Type 0 where
  pub year : t.year + 1900 < 10 ^ 4
  pub mon : t.mon + 1 < 10 ^ 2
  pub mday : t.mday < 10 ^ 2
  pub hour : t.hour < 10 ^ 2
  pub min : t.min < 10 ^ 2
  pub sec : t.sec < 10 ^ 2

length-++ : (k n : ℕ) (xs ys : List ℕ) → length xs ≡ k → length ys ≡ n → length (xs ++ ys) ≡ k + n
length-++ k n xs ys p q = omega (arith, length-append xs ys, p, q)

length-∷ : (k c : ℕ) (xs : List ℕ) → length xs ≡ k → length (c ∷ xs) ≡ suc k
length-∷ k c xs p = ap suc p

two_digits : (n : ℕ) → n < 10 ^ 2 → length (padded b'0' 2 n) ≡ 2
two_digits n h = (length-padded b'0' 1 n).0 h

pub length-time_text : (t : Tm) → IsTime t → length (time_text t) ≡ 17
length-time_text t i =
    let sec = padded b'0' 2 t.sec in
    let min = padded b'0' 2 t.min ++ b':' ∷ sec in
    let hour = padded b'0' 2 t.hour ++ b':' ∷ min in
    length-++ 4 13 _ _ ((length-padded b' ' 3 (t.year + 1900)).0 i.year) (
      length-++ 2 11 _ _ (two_digits (t.mon + 1) i.mon) (
        length-++ 2 9 _ (b' ' ∷ hour) (two_digits t.mday i.mday) (
          length-∷ 8 b' ' hour (
            length-++ 2 6 _ (b':' ∷ min) (two_digits t.hour i.hour) (
              length-∷ 5 b':' min (
                length-++ 2 3 _ (b':' ∷ sec) (two_digits t.min i.min)
                  (length-∷ 2 b':' sec (two_digits t.sec i.sec))))))))

pub length-microseconds_text : (us : ℕ) → us < 10 ^ 6 → length (microseconds_text us) ≡ 9
length-microseconds_text us h =
    length-∷ 8 b'.' _ (length-++ 6 2 _ (b'Z' ∷ b' ' ∷ []) ((length-padded b'0' 5 us).0 h) refl)

pub length-level_name : (level : LogLevel) → length (level_name level) ≡ 6
length-level_name LogLevel.trace = refl
length-level_name LogLevel.debug = refl
length-level_name LogLevel.info = refl
length-level_name LogLevel.warn = refl
length-level_name LogLevel.error = refl
length-level_name LogLevel.fatal = refl

known-ok : (str : List ℕ) (len : ℕ) → length str ≡ len → known str len ≡ ok (text str)
known-ok str len e =
    let is_len : (length str == len) ≡ true = ground (arith, e) in ensure-true is_len assertion _

-- The time of the last line is kept while the second lasts.
abbrev pub refreshed : (ℕ → Tm) → ℕ → TimeCache → TimeCache
refreshed gmtime seconds c =
    if seconds == c.last_second
    then c
    else record { last_second = seconds; time = time_text (gmtime seconds) }

-- The cache has the text of its second.
pub record IsFresh (gmtime : ℕ → Tm) (seconds : ℕ) (c : TimeCache) : Type 0 where
  pub is_time : IsTime (gmtime seconds)
  pub cached : c.last_second ≡ seconds → c.time ≡ time_text (gmtime seconds)

pub refresh_lem :
    (gmtime : ℕ → Tm) (seconds : ℕ) (c : TimeCache)
    → IsFresh gmtime seconds c
    → (refresh gmtime seconds c ≡ ok (refreshed gmtime seconds c))
      × ((refreshed gmtime seconds c).time ≡ time_text (gmtime seconds))
unfolding refresh
refresh_lem gmtime seconds c f = elim (Bool-cases (seconds == c.last_second)) [
  | inl t ↦ rw t (refl, f.cached (ground (arith, t)))
  | inr t ↦
      let whole : (length (time_text (gmtime seconds)) == 17) ≡ true =
        ground (arith, length-time_text (gmtime seconds) f.is_time) in
      rw t (ensure-true whole assertion _, refl)
]

-- The head of a line: the time, the microseconds, the thread and the level.
abbrev pub head_text : (ℕ → Tm) → LogLevel → Site → List ℕ
head_text gmtime level s =
    time_text (gmtime s.seconds)
    ++ (microseconds_text s.microseconds ++ (tid_text s.tid ++ (level_name level ++ [])))

-- What `formatTime` and the assertions on texts of known length ask for.
pub record IsProper (gmtime : ℕ → Tm) (s : Site) (c : TimeCache) : Type 0 where
  pub fresh : IsFresh gmtime s.seconds c
  pub small : s.microseconds < 10 ^ 6
  pub few_threads : s.tid < 100000

abbrev pub tail_items : (ℕ → List ℕ) → Site → List Item → List Item
tail_items strerror s items =
    errno_items strerror s.saved_errno ++ (func_items s.func ++ (items ++ finish_items s))

pub length-tid : (n : ℕ) → n < 100000 → length (tid_text n) ≡ 6
length-tid n h = omega (arith, length-tid_text n, (length-padded b' ' 4 n).0 h)

format_time_lem :
    (gmtime : ℕ → Tm) (s : Site) (c : TimeCache)
    → IsProper gmtime s c
    → format_time gmtime s.seconds s.microseconds c
      ≡ ok (
        refreshed gmtime s.seconds c,
        text (refreshed gmtime s.seconds c).time ∷ text (microseconds_text s.microseconds) ∷ [],
      )
unfolding format_time
format_time_lem gmtime s c p =
    let (again, shown) = refresh_lem gmtime s.seconds c p.fresh in
    let c' = refreshed gmtime s.seconds c in
    let us = microseconds_text s.microseconds in
    let nine = length-microseconds_text s.microseconds p.small in
    let is_nine : (length us == 9) ≡ true = ground (arith, nine) in
    let seventeen : length c'.time ≡ 17 =
      ap length shown ∙ length-time_text (gmtime s.seconds) p.fresh.is_time in
    ap
      (λ m. m >>= λ (c' : TimeCache).
        assert (length us == 9)
        >> (known c'.time 17 >>= λ time. known us 9 >>= λ i. ok (c', time ∷ i ∷ [])))
      again
    ∙ (ensure-true is_nine assertion _
        ∙ (ap (λ m. m >>= λ time. known us 9 >>= λ i. ok (c', time ∷ i ∷ []))
              (known-ok c'.time 17 seventeen)
            ∙ ap (λ m. m >>= λ i. ok (c', text c'.time ∷ i ∷ [])) (known-ok us 9 nine)))

pub impl_lem :
    (gmtime : ℕ → Tm) (strerror : ℕ → List ℕ) (level : LogLevel) (s : Site) (c : TimeCache)
    → IsProper gmtime s c
    → impl gmtime strerror level s c
      ≡ ok (
        refreshed gmtime s.seconds c,
        text (refreshed gmtime s.seconds c).time
            ∷ text (microseconds_text s.microseconds)
            ∷ text (tid_text s.tid)
            ∷ text (level_name level)
            ∷ errno_items strerror s.saved_errno,
      )
unfolding impl
impl_lem gmtime strerror level s c p =
    let six = length-tid s.tid p.few_threads in
    let is_six : (length (tid_text s.tid) == 6) ≡ true = ground (arith, six) in
    let name = known-ok (level_name level) 6 (length-level_name level) in
    rw (format_time_lem gmtime s c p)
      (ensure-true is_six assertion _ ∙ rw (known-ok (tid_text s.tid) 6 six, name) refl)
