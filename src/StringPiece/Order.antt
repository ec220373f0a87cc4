-- ===== src/StringPiece/Order.antt =====
-- The comparisons of StringPiece.h and the lexicographic order of the bytes.
use simplev.Prelude.{
  ℕ, zero, suc, ◌≡◌, ◌≤◌, refl, sym, ap, min, Bool, true, not, List, [], ◌∷◌, length, take, arith,
  ok, Result, ltb, leb, ◌&&◌, ◌||◌, ◌==◌, if◌then◌else◌, ◌↔◌, ensure-true, out_of_range, ◌∙◌,
  Bool-cases, inl, inr,
}
use simplev.Prelude.Int.{pos}
use simplev.StringPiece.{
  Sign, less, same, greater, set, first_difference, memcmp, then_lengths, is_same, is_less,
  is_greater, shorter, binary_predicate, equal, different, lt, le, ge, gt, compare,
}

-- The order of words in a dictionary.
abbrev pub lexicographic : List ℕ → List ℕ → Sign
lexicographic [] [] = same
lexicographic [] (y ∷ ys) = less
lexicographic (x ∷ xs) [] = greater
lexicographic (x ∷ xs) (y ∷ ys) =
    let rest = lexicographic xs ys in if ltb x y then less else if ltb y x then greater else rest

abbrev pub flip : Sign → Sign
flip less = greater
flip same = same
flip greater = less

lexicographic_refl : (xs : List ℕ) → lexicographic xs xs ≡ same
lexicographic_refl [] = refl
lexicographic_refl (x ∷ xs) = ground (arith, lexicographic_refl xs)

lexicographic-same : (xs ys : List ℕ) → lexicographic xs ys ≡ same → xs ≡ ys
lexicographic-same [] [] e = refl
lexicographic-same [] (y ∷ ys) e = cc
lexicographic-same (x ∷ xs) [] e = cc
lexicographic-same (x ∷ xs) (y ∷ ys) e = ground (arith, lexicographic-same xs ys)

lexicographic-flip : (xs ys : List ℕ) → lexicographic ys xs ≡ flip (lexicographic xs ys)
lexicographic-flip [] [] = refl
lexicographic-flip [] (y ∷ ys) = refl
lexicographic-flip (x ∷ xs) [] = refl
lexicographic-flip (x ∷ xs) (y ∷ ys) = ground (arith, lexicographic-flip xs ys)

lexicographic_trans :
    (xs ys zs : List ℕ)
    → lexicographic xs ys ≡ less
    → lexicographic ys zs ≡ less
    → lexicographic xs zs ≡ less
lexicographic_trans [] [] [] d e = cc
lexicographic_trans [] (y ∷ ys) [] d e = cc
lexicographic_trans [] ys (z ∷ zs) d e = refl
lexicographic_trans (x ∷ xs) [] zs d e = cc
lexicographic_trans (x ∷ xs) (y ∷ ys) [] d e = cc
lexicographic_trans (x ∷ xs) (y ∷ ys) (z ∷ zs) d e = ground (arith, lexicographic_trans xs ys zs)

-- Equal numbers of bytes before a tie is broken by the lengths.
first_difference-lexicographic :
    (k n m : ℕ) (xs ys : List ℕ)
    → k ≡ min n m
    → n ≤ length xs
    → m ≤ length ys
    → then_lengths (first_difference k xs ys) (pos n) (pos m)
      ≡ lexicographic (take n xs) (take m ys)
unfolding first_difference
first_difference-lexicographic zero zero zero xs ys e p q = refl
first_difference-lexicographic zero zero (suc m) xs [] e p q = absurd (omega (arith, q))
first_difference-lexicographic zero zero (suc m) xs (y ∷ ys) e p q = ground arith
first_difference-lexicographic zero (suc n) zero [] ys e p q = absurd (omega (arith, p))
first_difference-lexicographic zero (suc n) zero (x ∷ xs) ys e p q = ground arith
first_difference-lexicographic zero (suc n) (suc m) xs ys e p q = absurd (omega (arith, e))
first_difference-lexicographic (suc k) zero m xs ys e p q = absurd (omega (arith, e))
first_difference-lexicographic (suc k) (suc n) zero xs ys e p q = absurd (omega (arith, e))
first_difference-lexicographic (suc k) (suc n) (suc m) [] ys e p q = absurd (omega (arith, p))
first_difference-lexicographic (suc k) (suc n) (suc m) (x ∷ xs) [] e p q = absurd (omega (arith, q))
first_difference-lexicographic (suc k) (suc n) (suc m) (x ∷ xs) (y ∷ ys) e p q = ground (
  arith,
  first_difference-lexicographic k n m xs ys (omega (arith, e)) (omega (arith, p))
      (omega (arith, q)),
)

-- What the operators make of the bytes and the lengths is what `compare` makes of them.
is_less-then_lengths :
    (r : Sign) (n m : ℕ)
    → (is_less r || (is_same r && ltb n m)) ≡ is_less (then_lengths r (pos n) (pos m))
is_less-then_lengths less n m = refl
is_less-then_lengths same n m = ground arith
is_less-then_lengths greater n m = refl

not-is_greater-then_lengths :
    (r : Sign) (n m : ℕ)
    → (is_less r || (is_same r && not (ltb m n)))
      ≡ not (is_greater (then_lengths r (pos n) (pos m)))
not-is_greater-then_lengths less n m = refl
not-is_greater-then_lengths same n m = ground arith
not-is_greater-then_lengths greater n m = refl

is_greater-then_lengths :
    (r : Sign) (n m : ℕ)
    → (is_greater r || (is_same r && ltb m n)) ≡ is_greater (then_lengths r (pos n) (pos m))
is_greater-then_lengths less n m = refl
is_greater-then_lengths same n m = ground arith
is_greater-then_lengths greater n m = refl

not-is_less-then_lengths :
    (r : Sign) (n m : ℕ)
    → (is_greater r || (is_same r && not (ltb n m)))
      ≡ not (is_less (then_lengths r (pos n) (pos m)))
not-is_less-then_lengths less n m = refl
not-is_less-then_lengths same n m = ground arith
not-is_less-then_lengths greater n m = refl

is_same-then_lengths :
    (r : Sign) (n m : ℕ) → is_same (then_lengths r (pos n) (pos m)) ≡ (n == m && is_same r)
is_same-then_lengths less n m = ground arith
is_same-then_lengths same n m = ground arith
is_same-then_lengths greater n m = ground arith

shorter-min : (xs ys : List ℕ) (n m : ℕ) → shorter (set xs (pos n)) (set ys (pos m)) ≡ min n m
shorter-min xs ys n m = ground arith

module _ (xs ys : List ℕ) (n m : ℕ) (in_xs : n ≤ length xs) (in_ys : m ≤ length ys) where
  memcmp-shorter :
      memcmp xs ys (shorter (set xs (pos n)) (set ys (pos m)))
      ≡ ok (first_difference (min n m) xs ys)
  memcmp-shorter = rw (shorter-min xs ys n m) (ensure-true (ground arith) out_of_range _)

  order : Sign
  order = lexicographic (take n xs) (take m ys)

  ties : then_lengths (first_difference (min n m) xs ys) (pos n) (pos m) ≡ order
  unfolding order
  ties = first_difference-lexicographic (min n m) n m xs ys refl in_xs in_ys

  -- An operator that makes of bytes and lengths what `f` makes of their order.
  binary_predicate_order :
      (aux f : Sign → Bool) (lengths : Bool)
      → ((r : Sign) → (aux r || (is_same r && lengths)) ≡ f (then_lengths r (pos n) (pos m)))
      → binary_predicate aux lengths (set xs (pos n)) (set ys (pos m)) ≡ ok (f order)
  binary_predicate_order aux f lengths agree =
      rw memcmp-shorter
        (ap (λ b. ok b) (agree (first_difference (min n m) xs ys)) ∙ ap (λ r. ok (f r)) ties)

  is_same-order : is_same order ≡ (n == m && is_same (first_difference (min n m) xs ys))
  is_same-order = ap is_same (sym ties) ∙ is_same-then_lengths _ n m

  equal_order : equal (set xs (pos n)) (set ys (pos m)) ≡ ok (is_same order)
  unfolding equal
  equal_order = elim (Bool-cases (n == m)) [
    | inl e ↦
        let k : min n m ≡ n = ground arith in
        let s = is_same-order in
        let in_ : (leb n (length xs) && leb n (length ys)) ≡ true = ground arith in
        rw (e, in_)
          (ap (λ b. ok b)
            (sym (rw (← k) (s ∙ ap (λ b. b && is_same (first_difference (min n m) xs ys)) e))))
    | inr e ↦ rw e (
        ap (λ b. ok b)
          (sym (is_same-order ∙ ap (λ b. b && is_same (first_difference (min n m) xs ys)) e)))
  ]

-- Two pieces whose lengths stay inside their blocks: `compare` answers the order of a dictionary of their
-- bytes, and the six operators agree with it, so that `==` holds of equal bytes only.
pub comparisons_lem :
    (xs ys : List ℕ) (n m : ℕ)
    → n ≤ length xs
    → m ≤ length ys
    → let p = set xs (pos n) in
      let x = set ys (pos m) in
      let order = lexicographic (take n xs) (take m ys) in
      (compare p x ≡ ok order)
      × (equal p x ≡ ok (is_same order))
      × (different p x ≡ ok (not (is_same order)))
      × (lt p x ≡ ok (is_less order))
      × (le p x ≡ ok (not (is_greater order)))
      × (ge p x ≡ ok (not (is_less order)))
      × (gt p x ≡ ok (is_greater order))
      × ((order ≡ same) ↔ (take n xs ≡ take m ys))
unfolding compare different lt le ge gt order
comparisons_lem xs ys n m in_xs in_ys = (
  rw (memcmp-shorter xs ys n m in_xs in_ys) (ap (λ r. ok r) (ties xs ys n m in_xs in_ys)),
  equal_order xs ys n m in_xs in_ys,
  rw (equal_order xs ys n m in_xs in_ys) refl,
  binary_predicate_order xs ys n m in_xs in_ys is_less is_less (ltb n m)
      (λ r. is_less-then_lengths r n m),
  binary_predicate_order xs ys n m in_xs in_ys is_less (λ r. not (is_greater r)) (not (ltb m n))
      (λ r. not-is_greater-then_lengths r n m),
  binary_predicate_order xs ys n m in_xs in_ys is_greater (λ r. not (is_less r)) (not (ltb n m))
      (λ r. not-is_less-then_lengths r n m),
  binary_predicate_order xs ys n m in_xs in_ys is_greater is_greater (ltb m n)
      (λ r. is_greater-then_lengths r n m),
  (lexicographic-same (take n xs) (take m ys), λ e. rw e (lexicographic_refl (take m ys))),
)

-- Three pieces whose lengths stay inside their blocks: two compare the other way round with the
-- opposite sign, exactly equal bytes compare as the same, and `<` is transitive.
pub compare_order :
    (xs ys zs : List ℕ) (n m k : ℕ)
    → n ≤ length xs
    → m ≤ length ys
    → k ≤ length zs
    → let p = set xs (pos n) in
      let x = set ys (pos m) in
      let z = set zs (pos k) in
      (s : Sign) × (compare p x ≡ ok s)
      × (compare x p ≡ ok (flip s))
      × ((s ≡ same) ↔ (take n xs ≡ take m ys))
      × (s ≡ less → compare x z ≡ ok less → compare p z ≡ ok less)
compare_order xs ys zs n m k in_xs in_ys in_zs =
    let a = comparisons_lem xs ys n m in_xs in_ys in
    let b = comparisons_lem ys xs m n in_ys in_xs in
    let c = comparisons_lem ys zs m k in_ys in_zs in
    let d = comparisons_lem xs zs n k in_xs in_zs in
    (
      lexicographic (take n xs) (take m ys),
      a.0,
      b.0 ∙ ap (λ r. ok r) (lexicographic-flip (take n xs) (take m ys)),
      a.7,
      λ p_x x_z.
          d.0
          ∙ ap (λ r. ok r)
              (lexicographic_trans (take n xs) (take m ys) (take k zs) p_x
                (ok-inj (sym c.0 ∙ x_z))),
    )
  where
    ok-inj : {r t : Sign} → ◌≡◌ {A = Result Sign} (ok r) (ok t) → r ≡ t
    ok-inj e = cc
