-- ===== src/LogStream/Digits.antt =====
-- Numbers in a base, as the loops of LogStream.cc write them: the lowest digit first.
use simplev.Prelude.{
  ℕ, zero, suc, ◌+◌, ◌*◌, ◌/◌, ◌%◌, ◌^◌, ◌≤◌, ◌<◌, ◌≡◌, ◌≢◌, refl, sym, ap₂, ap, ◌∙◌, inl, inr,
  List, [], ◌∷◌, ◌++◌, Option, none, some, length, arith, ◌==◌, if◌then◌else◌, ◌>>=?◌, Bool-cases,
  length-append,
}
use mathlib.Core.List.{reverse, reverse-cons}

-- A base with the characters of its digits, and the arithmetic of the loop at that base.
pub record Base : Type 0 where
  pub base : ℕ
  pub table : ℕ → Option ℕ
  pub code : ℕ → ℕ
  pub decode : ℕ → ℕ
  pub lookup : (r : ℕ) → r < base → table r ≡ some (code r)
  pub decode-code : (r : ℕ) → r < base → decode (code r) ≡ r
  pub readable : (r : ℕ) → r < base → 48 ≤ code r
  pub below : (n : ℕ) → n % base < base
  pub splits : (n : ℕ) → n ≡ (n / base) * base + n % base
  pub shrinks : (n : ℕ) → n / base ≢ 0 → n / base < n
  pub descends : (n k : ℕ) → n < base ^ suc k → n / base < base ^ k
  pub ends : (n : ℕ) → n < base ^ 0 → n ≡ 0

-- A reader of text in the base, highest digit first.
abbrev pub value : Base → ℕ → List ℕ → ℕ
value b acc [] = acc
value b acc (c ∷ cs) = value b (acc * b.base + b.decode c) cs

-- No character below '0', so neither a sign nor a blank.
abbrev pub AllReadable : List ℕ → Type 0
AllReadable [] = Unit {0}
AllReadable (c ∷ cs) = (48 ≤ c) × AllReadable cs

pub AllReadable-append : (xs ys : List ℕ) → AllReadable xs → AllReadable ys → AllReadable (xs ++ ys)
AllReadable-append [] ys h k = k
AllReadable-append (x ∷ xs) ys h k = (h.0, AllReadable-append xs ys h.1 k)

pub AllReadable-reverse : (xs : List ℕ) → AllReadable xs → AllReadable (reverse xs)
AllReadable-reverse [] h = tt
AllReadable-reverse (x ∷ xs) h =
    rw (reverse-cons x xs)
      (AllReadable-append (reverse xs) (x ∷ []) (AllReadable-reverse xs h.1) (h.0, tt))

pub length-reverse : (xs : List ℕ) → length (reverse xs) ≡ length xs
length-reverse [] = refl
length-reverse (x ∷ xs) =
    let ih = length-reverse xs in
    rw (reverse-cons x xs) (omega (arith, ih, length-append (reverse xs) (x ∷ [])))

module _ (b : Base) where
  -- The loop at a number and this base.
  unfoldable pub emit : ℕ → ℕ → Option (List ℕ)
  emit zero n = none
  emit (suc fuel) n =
      let rest = emit fuel (n / b.base) in
      b.table (n % b.base) >>=? λ c.
      if n / b.base == 0 then some (c ∷ []) else (rest >>=? λ cs. some (c ∷ cs))

  value-append : (acc : ℕ) (xs ys : List ℕ) → value b acc (xs ++ ys) ≡ value b (value b acc xs) ys
  value-append acc [] ys = refl
  value-append acc (x ∷ xs) ys = value-append (acc * b.base + b.decode x) xs ys

  -- What a run of the loop at `n` writes.
  pub record Emits (n : ℕ) (out : Option (List ℕ)) : Type 0 where
    pub cs : List ℕ
    pub found : out ≡ some cs
    pub reads : value b 0 (reverse cs) ≡ n
    pub plain : AllReadable cs
    pub short : (k : ℕ) → n < b.base ^ suc k → length cs ≤ suc k

  rejoin : (n q : ℕ) → q ≡ n / b.base → q * b.base + b.decode (b.code (n % b.base)) ≡ n
  rejoin n q h =
      ap₂ (λ x y. x * b.base + y) h (b.decode-code (n % b.base) (b.below n)) ∙ sym (b.splits n)

  emit_last : (fuel n : ℕ) → n / b.base ≡ 0 → Emits n (emit (suc fuel) n)
  unfolding emit
  emit_last fuel n e = record {
    cs = b.code (n % b.base) ∷ [];
    found = rw (b.lookup (n % b.base) (b.below n)) (ground arith);
    reads = rejoin n 0 (sym e);
    plain = (b.readable (n % b.base) (b.below n), tt);
    short = λ k h. omega arith;
  }

  more_short :
      (n : ℕ)
      → n / b.base ≢ 0
      → (cs : List ℕ) (c : ℕ) → ((k : ℕ) → n / b.base < b.base ^ suc k → length cs ≤ suc k)
      → (k : ℕ) → n < b.base ^ suc k
      → length (c ∷ cs) ≤ suc k
  more_short n ne cs c short zero h = absurd (ne (b.ends (n / b.base) (b.descends n 0 h)))
  more_short n ne cs c short (suc k) h = omega (arith, short k (b.descends n (suc k) h))

  emit_more :
      (fuel n : ℕ)
      → n / b.base ≢ 0
      → Emits (n / b.base) (emit fuel (n / b.base))
      → Emits n (emit (suc fuel) n)
  unfolding emit
  emit_more fuel n ne r = record {
    cs = b.code (n % b.base) ∷ r.cs;
    found = rw (b.lookup (n % b.base) (b.below n), r.found) (ground arith);
    reads =
        ap (value b 0) (reverse-cons (b.code (n % b.base)) r.cs)
        ∙ (value-append 0 (reverse r.cs) (b.code (n % b.base) ∷ [])
            ∙ rejoin n (value b 0 (reverse r.cs)) r.reads);
    plain = (b.readable (n % b.base) (b.below n), r.plain);
    short = more_short n ne r.cs (b.code (n % b.base)) r.short;
  }

  -- With fuel above the number the loop ends, and writes digits that read back as the number.
  pub emit_lem : (fuel n : ℕ) → n < fuel → Emits n (emit fuel n)
  emit_lem zero n h = absurd (omega arith)
  emit_lem (suc fuel) n h = elim (Bool-cases (n / b.base == 0)) [
    | inl t ↦ emit_last fuel n (ground arith)
    | inr t ↦
        let ne : n / b.base ≢ 0 = ground arith in
        emit_more fuel n ne (emit_lem fuel (n / b.base) (omega (arith, b.shrinks n ne)))
  ]
