-- ===== src/LogStream/Printf.antt =====
-- The conversions `%5d`, `%02d` and `%06d` of the C library's `snprintf`, at numbers that are not
-- negative: decimal digits, filled up on the left to a width.
use simplev.Prelude.{
  ℕ, zero, suc, ◌+◌, ◌-◌, ◌/◌, ◌%◌, ◌^◌, ◌≤◌, ◌<◌, ◌≡◌, refl, ap, inl, inr, List, [], ◌∷◌, ◌++◌,
  Option, none, some, length, replicate, arith, ◌==◌, dec_lt, if◌then◌else◌, ◌>>=?◌, Bool-cases,
  length-append, length-replicate,
}
use mathlib.Core.List.{reverse}
use native.Mathlib.Nat.{pow-suc, pow-le-pow_right}
use simplev.LogStream.Digits.{value, emit, emit_lem, length-reverse}
use simplev.LogStream.Bases.{decimal, decimal_table}

-- The digits of a number, the highest first.
abbrev pub text_of : Option (List ℕ) → List ℕ
text_of none = []
text_of (some cs) = reverse cs

unfoldable pub decimal_text : ℕ → List ℕ
unfolding emit
decimal_text n = text_of (emit decimal (suc n) n)

unfoldable pub padded : ℕ → ℕ → ℕ → List ℕ
unfolding decimal_text
padded fill width n = replicate (width - length (decimal_text n)) fill ++ decimal_text n

-- A number with so many digits is below that power of ten.
last_digit : (n c : ℕ) (cs : List ℕ) → n / 10 ≡ 0 → cs ≡ c ∷ [] → n < 10 ^ length cs
last_digit n c cs small e = let one : length cs ≡ 1 = ap length e in rw one (omega (arith, small))

more_digits :
    (n c : ℕ) (ds cs : List ℕ) → n / 10 < 10 ^ length ds → cs ≡ c ∷ ds → n < 10 ^ length cs
more_digits n c ds cs below e =
    let more : length cs ≡ suc (length ds) = ap length e in
    rw more (omega (arith, below, pow-suc 10 (length ds)))

-- One round of the loop, by the digit that the table has and by what the other rounds write.
round-bound :
    (found : Option ℕ) (rest : Option (List ℕ)) (n : ℕ) (cs : List ℕ)
    → ((ds : List ℕ) → rest ≡ some ds → n / 10 < 10 ^ length ds)
    → (found >>=? λ c. if n / 10 == 0 then some (c ∷ []) else (rest >>=? λ ds. some (c ∷ ds)))
      ≡ some cs
    → n < 10 ^ length cs
round-bound none rest n cs ih e = cc
round-bound (some c) none n cs ih e = last_digit n c cs (ground (arith, e)) (ground (arith, e))
round-bound (some c) (some ds) n cs ih e = elim (Bool-cases (n / 10 == 0)) [
  | inl t ↦ last_digit n c cs (ground (arith, t)) (ground (arith, e, t))
  | inr t ↦ more_digits n c ds cs (ih ds refl) (ground (arith, e, t))
]

emit-bound : (fuel n : ℕ) (cs : List ℕ) → emit decimal fuel n ≡ some cs → n < 10 ^ length cs
unfolding emit
emit-bound zero n cs e = cc
emit-bound (suc fuel) n cs e =
    round-bound (decimal_table (n % 10)) (emit decimal fuel (n / 10)) n cs
      (emit-bound fuel (n / 10)) e

-- The text of a number reads back as the number. It has at most `k` digits exactly when the
-- number is below the `k`-th power of ten.
pub decimal_text_lem :
    (n k : ℕ)
    → (value decimal 0 (decimal_text n) ≡ n)
      × (n < 10 ^ suc k → length (decimal_text n) ≤ suc k)
      × (length (decimal_text n) ≤ suc k → n < 10 ^ suc k)
unfolding decimal_text
decimal_text_lem n k =
    let e = emit_lem decimal (suc n) n (omega arith) in
    let size = length-reverse e.cs in
    rw e.found (
      e.reads,
      λ h. omega (arith, size, e.short k h),
      λ h.
          let below = emit-bound (suc n) n e.cs e.found in
          let wider =
            pow-le-pow_right {n = 10} (omega arith) {i = length e.cs} {j = suc k}
              (omega (arith, size, h)) in
          omega (arith, below, wider),
    )

-- A width is kept exactly by the numbers that fit into it; others are longer.
pub length-padded :
    (fill k n : ℕ)
    → (n < 10 ^ suc k → length (padded fill (suc k) n) ≡ suc k)
      × (10 ^ suc k ≤ n → suc (suc k) ≤ length (padded fill (suc k) n))
unfolding padded
length-padded fill k n =
    let d = decimal_text_lem n k in
    let size = length-append (replicate (suc k - length (decimal_text n)) fill) (decimal_text n) in
    let fills = length-replicate (suc k - length (decimal_text n)) fill in
    (
      λ h. omega (arith, size, fills, d.1 h),
      λ h. by_size size fills d.2 h (dec_lt (suc k) (length (decimal_text n))),
    )
  where
    by_size :
        length (replicate (suc k - length (decimal_text n)) fill ++ decimal_text n)
          ≡ length (replicate (suc k - length (decimal_text n)) fill) + length (decimal_text n)
        → length (replicate (suc k - length (decimal_text n)) fill)
          ≡ suc k - length (decimal_text n)
        → (length (decimal_text n) ≤ suc k → n < 10 ^ suc k)
        → 10 ^ suc k ≤ n
        → Dec (suc k < length (decimal_text n))
        → suc (suc k) ≤ length (replicate (suc k - length (decimal_text n)) fill ++ decimal_text n)
    by_size size fills small big (yes h) = omega (arith, size, fills, h)
    by_size size fills small big (no h) = absurd (omega (arith, big, small (omega (arith, h))))
