-- ===== src/LogStream/Line.antt =====
-- FixedBuffer and `operator<<` of LogStream.h and LogStream.cc: an item is put into the line whole, or
-- left out whole, and nothing is ever written outside the array.
use simplev.Prelude.{
  ℕ, ◌+◌, ◌^◌, ◌%◌, ◌≤◌, ◌<◌, ◌≡◌, refl, sym, ap, ◌∙◌, ◌⊎◌, inl, inr, true, false, List, [], ◌∷◌,
  ◌++◌, some, length, take, drop, arith, ltb, leb, if◌then◌else◌, length-append, length-take,
  length-drop, append_assoc, take_all, append-nil, take-append_length, Bool-cases, not-ltb→le,
  ltb→lt, leb→le, Result, ok, ◌>>=◌, write_at, write_at-ok,
}
use simplev.Prelude.Int.{ℤ}
use simplev.LogStream.{
  FixedBuffer, avail, append, put_number, max_numeric_size, format_integer, format_pointer, Item,
  bool, integer, pointer, char, text, put, put_all,
}
use simplev.LogStream.Convert.{Is64Bit, read_int, convert_lem, convert_hex_lem}
use simplev.LogStream.Bases.{hexadecimal}
use simplev.LogStream.Digits.{value}

pub record IsValid (b : FixedBuffer) : Type 0 where
  pub inside : b.cur ≤ length b.array
  pub bounded : length b.array < 2 ^ 31

-- The line so far.
abbrev pub line : FixedBuffer → List ℕ
line b = take b.cur b.array

-- `b'` is `b` with `s` at the end of its line.
pub record Puts (b : FixedBuffer) (s : List ℕ) (b' : FixedBuffer) : Type 0 where
  pub valid : IsValid b'
  pub size_kept : length b'.array ≡ length b.array
  pub shows : line b' ≡ line b ++ s

-- The text of `s` and then `tail` are written, and `cur_` is moved over `s`.
write-Puts :
    (b : FixedBuffer) (s tail : List ℕ)
    → IsValid b
    → b.cur + length s + length tail ≤ length b.array
    → let array =
        take b.cur b.array ++ ((s ++ tail) ++ drop (b.cur + length (s ++ tail)) b.array) in
      (write_at b.array b.cur (s ++ tail) ≡ ok array)
      × Puts b s (record { array = array; cur = b.cur + length s })
write-Puts b s tail v h =
    let n = length-append s tail in
    let rest = drop (b.cur + length (s ++ tail)) b.array in
    let start = length-take b.cur b.array in
    let size : length (take b.cur b.array ++ ((s ++ tail) ++ rest)) ≡ length b.array = omega (
      arith,
      n,
      start,
      length-append (take b.cur b.array) ((s ++ tail) ++ rest),
      length-append (s ++ tail) rest,
      length-drop (b.cur + length (s ++ tail)) b.array,
    ) in
    (
      write_at-ok b.array b.cur (s ++ tail) (omega (arith, n)),
      record {
        valid = record { inside = omega (arith, size); bounded = omega (arith, size) };
        size_kept = size;
        shows =
            ap (λ (t : List ℕ). take (b.cur + length s) (take b.cur b.array ++ t))
              (append_assoc s tail rest)
            ∙ (ap (take (b.cur + length s))
                  (sym (append_assoc (take b.cur b.array) s (tail ++ rest)))
                ∙ take-append_length (b.cur + length s) (take b.cur b.array ++ s) (tail ++ rest)
                    (omega (arith, length-append (take b.cur b.array) s, start)));
      },
    )

-- The texts that stand for an item, read back by the readers of this development.
abbrev pub Shows : Item → List ℕ → Type 0
Shows (bool v) s = s ≡ (if v then b'1' ∷ [] else b'0' ∷ [])
Shows (integer v) s = read_int s ≡ v
Shows (pointer p) s = (h : List ℕ) × (s ≡ b'0' ∷ b'x' ∷ h) × (value hexadecimal 0 h ≡ p)
Shows (char c) s = s ≡ c ∷ []
Shows (text t) s = s ≡ t

-- Values that the C++ types hold, and texts whose size fits into an `int`.
abbrev pub InRange : Item → Type 0
InRange (integer v) = Is64Bit v
InRange (pointer p) = p < 2 ^ 64
InRange (text t) = length t < 2 ^ 31
InRange _ = Unit {0}

-- At this much room or less the item is left out.
abbrev pub too_little : Item → ℕ
too_little (integer v) = 31
too_little (pointer p) = 31
too_little (text t) = length t
too_little _ = 1

-- The item is in the line, or there was too little room and nothing changed.
abbrev pub PutOrSkipped : Item → FixedBuffer → Result FixedBuffer → Type 0
PutOrSkipped x b m =
    ((b' : FixedBuffer) × (s : List ℕ) × (m ≡ ok b') × Shows x s × Puts b s b')
    ⊎ ((m ≡ ok b) × (avail b ≤ too_little x))

append_lem :
    (b : FixedBuffer) (str : List ℕ)
    → IsValid b
    → length str < 2 ^ 31
    → ((b' : FixedBuffer) × (append str b ≡ ok b') × Puts b str b')
      ⊎ ((append str b ≡ ok b) × (avail b ≤ length str))
unfolding append
append_lem b str v small =
    let low : ltb (length str % 2 ^ 32) (2 ^ 31) ≡ true = ground arith in
    let same : length str % 2 ^ 32 ≡ length str = omega arith in
    elim (Bool-cases (ltb (length str) (avail b))) [
      | inr t ↦ inr (rw (low, same) (rw t), not-ltb→le (length str) (avail b) t)
      | inl t ↦
          let room : length str < avail b = ltb→lt (length str) (avail b) t in
          let (w, p) = write-Puts b str [] v (omega arith) in
          let w' = ap (write_at b.array b.cur) (sym (append-nil str)) ∙ w in
          inl (_, rw (low, same) (rw (t, take_all (length str) str (omega arith), w', ◌>>=◌)), p)
    ]

put_number_lem :
    (b : FixedBuffer) (s : List ℕ)
    → IsValid b
    → 32 ≤ avail b
    → length s ≤ 31
    → (b' : FixedBuffer) × (put_number (some s) b ≡ ok b') × Puts b s b'
put_number_lem b s v room short =
    let (w, p) = write-Puts b s (0 ∷ []) v (omega arith) in (_, rw (w, ◌>>=◌), p)

append-PutOrSkipped :
    (x : Item) (str : List ℕ) (b : FixedBuffer)
    → IsValid b
    → length str < 2 ^ 31
    → Shows x str
    → length str ≡ too_little x
    → PutOrSkipped x b (append str b)
append-PutOrSkipped x str b v small shows size = elim (append_lem b str v small) [
  | inl (b', e, p) ↦ inl (b', str, e, shows, p)
  | inr (e, little) ↦ inr (e, omega (arith, little, size))
]

integer-PutOrSkipped :
    (v : ℤ) (b : FixedBuffer)
    → IsValid b
    → Is64Bit v
    → PutOrSkipped (integer v) b (format_integer v b)
unfolding format_integer
integer-PutOrSkipped v b valid range = elim (Bool-cases (leb max_numeric_size (avail b))) [
  | inr t ↦ inr (rw t, ground arith)
  | inl t ↦
      let (s, e, reads, short) = convert_lem v in
      let (b', run, p) =
        put_number_lem b s valid (leb→le 32 (avail b) t) (omega (arith, short range)) in
      inl (b', s, rw (t, e) run, reads, p)
]

pointer-PutOrSkipped :
    (v : ℕ) (b : FixedBuffer)
    → IsValid b
    → v < 2 ^ 64
    → PutOrSkipped (pointer v) b (format_pointer v b)
unfolding format_pointer
pointer-PutOrSkipped v b valid range = elim (Bool-cases (leb max_numeric_size (avail b))) [
  | inr t ↦ inr (rw t, ground arith)
  | inl t ↦
      let (h, e, reads, short) = convert_hex_lem v in
      let (b', run, p) =
        put_number_lem b (b'0' ∷ b'x' ∷ h) valid (leb→le 32 (avail b) t)
          (omega (arith, short range)) in
      inl (b', b'0' ∷ b'x' ∷ h, rw (t, e) run, (h, refl, reads), p)
]

-- `operator<<` never writes outside the array, and puts an item whole behind the line or, where the
-- room is too little, leaves it out whole. Numbers in the line read back as the numbers.
pub put_lem : (x : Item) (b : FixedBuffer) → IsValid b → InRange x → PutOrSkipped x b (put x b)
unfolding put
put_lem (bool true) b v h = append-PutOrSkipped (bool true) (b'1' ∷ []) b v (omega arith) refl refl
put_lem (bool false) b v h =
    append-PutOrSkipped (bool false) (b'0' ∷ []) b v (omega arith) refl refl
put_lem (integer n) b v h = integer-PutOrSkipped n b v h
put_lem (pointer p) b v h = pointer-PutOrSkipped p b v h
put_lem (char c) b v h = append-PutOrSkipped (char c) (c ∷ []) b v (omega arith) refl refl
put_lem (text t) b v h = append-PutOrSkipped (text t) t b v h refl refl

abbrev pub AllInRange : List Item → Type 0
AllInRange [] = Unit {0}
AllInRange (x ∷ xs) = InRange x × AllInRange xs

-- A whole chain of `<<` never faults, and only ever adds to the line.
pub put_all_lem :
    (xs : List Item) (b : FixedBuffer)
    → IsValid b
    → AllInRange xs
    → (b' : FixedBuffer) × (s : List ℕ) × (put_all xs b ≡ ok b') × Puts b s b'
unfolding put_all
put_all_lem [] b v h =
    (b, [], refl, record { valid = v; size_kept = refl; shows = sym (append-nil (line b)) })
put_all_lem (x ∷ xs) b v h = elim (put_lem x b v h.0) [
  | inr (e, _) ↦ let (b', s, run, p) = put_all_lem xs b v h.1 in (b', s, rw (e, ◌>>=◌) run, p)
  | inl (b₁, s₁, e, _, p₁) ↦
      let (b', s, run, p) = put_all_lem xs b₁ p₁.valid h.1 in
      (
        b',
        s₁ ++ s,
        rw (e, ◌>>=◌) run,
        record {
          valid = p.valid;
          size_kept = p.size_kept ∙ p₁.size_kept;
          shows = p.shows ∙ (ap (λ (t : List ℕ). t ++ s) p₁.shows ∙ append_assoc (line b) s₁ s);
        },
      )
]
