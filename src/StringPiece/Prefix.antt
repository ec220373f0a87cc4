-- ===== src/StringPiece/Prefix.antt =====
-- The pieces that StringPiece.h cuts off at either end.
use simplev.Prelude.{
  ℕ, zero, suc, ◌-◌, ◌≡◌, ◌≤◌, refl, sym, ap, Bool, true, false, List, [], ◌∷◌, ◌++◌, length, take,
  drop, arith, ok, ltb, leb, ◌&&◌, length-take, length-drop, length-append, take-append_length, ◌↔◌,
  ◌∙◌, dec_lt, ◌<◌,
}
use simplev.Prelude.Int.{pos}
use simplev.StringPiece.{
  set, first_difference, is_same, starts_with, remove_prefix, copy_to_std_string,
}

module _ {A : Type 0} where
  take-nil : (n : ℕ) → take {A = A} n [] ≡ []
  take-nil zero = refl
  take-nil (suc n) = refl

  take-split : (m n : ℕ) (xs : List A) → m ≤ n → take n xs ≡ take m xs ++ take (n - m) (drop m xs)
  take-split zero n xs h = ap (λ k. take k xs) (omega arith)
  take-split (suc m) zero xs h = absurd (omega arith)
  take-split (suc m) (suc n) [] h = sym (take-nil (suc n - suc m))
  take-split (suc m) (suc n) (x ∷ xs) h =
      let e : suc n - suc m ≡ n - m = omega arith in
      rw e (ap (◌∷◌ x) (take-split m n xs (omega arith)))

  take-take : (m n : ℕ) (xs : List A) → m ≤ n → take m (take n xs) ≡ take m xs
  take-take zero n xs h = refl
  take-take (suc m) zero xs h = absurd (omega arith)
  take-take (suc m) (suc n) [] h = refl
  take-take (suc m) (suc n) (x ∷ xs) h = ap (◌∷◌ x) (take-take m n xs (omega arith))

is_same-first_difference :
    (m : ℕ) (xs ys : List ℕ)
    → m ≤ length xs
    → m ≤ length ys
    → (is_same (first_difference m xs ys) ≡ true) ↔ (take m xs ≡ take m ys)
unfolding first_difference
is_same-first_difference zero xs ys p q = (λ _. refl, λ _. refl)
is_same-first_difference (suc m) [] ys p q = absurd (omega (arith, p))
is_same-first_difference (suc m) (x ∷ xs) [] p q = absurd (omega (arith, q))
is_same-first_difference (suc m) (x ∷ xs) (y ∷ ys) p q =
    ground (arith, is_same-first_difference m xs ys (omega (arith, p)) (omega (arith, q)))

module _ (xs ys : List ℕ) (n m : ℕ) (in_xs : n ≤ length xs) (in_ys : m ≤ length ys) where
  starts_with-longer :
      m ≤ n
      → starts_with (set xs (pos n)) (set ys (pos m)) ≡ ok (is_same (first_difference m xs ys))
  unfolding starts_with
  starts_with-longer h =
      let long : ltb n m ≡ false = ground arith in
      let in_ : (leb m (length xs) && leb m (length ys)) ≡ true = ground arith in
      rw (long, in_) refl

  starts_with-shorter : n < m → starts_with (set xs (pos n)) (set ys (pos m)) ≡ ok false
  unfolding starts_with
  starts_with-shorter h = let short : ltb n m ≡ true = ground arith in rw short refl

  remove_prefix_rest :
      m ≤ n → copy_to_std_string (remove_prefix m (set xs (pos n))) ≡ ok (take (n - m) (drop m xs))
  unfolding copy_to_std_string remove_prefix
  remove_prefix_rest h =
      let long : leb m n ≡ true = ground arith in
      let in_ : leb (n - m) (length (drop m xs)) ≡ true = ground (arith, length-drop m xs) in
      rw (long, in_) refl

  -- Bytes in front of others are as many as they are, and the first ones.
  longer_of_rest : (rest : List ℕ) → take n xs ≡ take m ys ++ rest → m ≤ n
  longer_of_rest rest e =
      let l : length (take n xs) ≡ length (take m ys ++ rest) = ap length e in
      omega (arith, l, length-append (take m ys) rest, length-take n xs, length-take m ys)

  first_of_rest : (rest : List ℕ) → take n xs ≡ take m ys ++ rest → take m xs ≡ take m ys
  first_of_rest rest e =
      sym (take-take m n xs (longer_of_rest rest e))
      ∙ ap (take m) e
      ∙ take-append_length m (take m ys) rest (omega (arith, length-take m ys))

-- `starts_with` a piece, both inside their blocks: true exactly when the bytes are those of the other
-- piece and some more. Then `remove_prefix` of the other's length leaves the rest.
pub starts_with_lem :
    (xs ys : List ℕ) (n m : ℕ)
    → n ≤ length xs
    → m ≤ length ys
    → let p = set xs (pos n) in
      (b : Bool) × (starts_with p (set ys (pos m)) ≡ ok b)
      × (((rest : List ℕ) × (take n xs ≡ take m ys ++ rest)) → b ≡ true)
      × (b ≡ true
          → (rest : List ℕ) × (copy_to_std_string (remove_prefix m p) ≡ ok rest)
            × (take n xs ≡ take m ys ++ rest))
starts_with_lem xs ys n m in_xs in_ys = elim (dec_lt n m) [
  | yes h ↦ (
    false,
    starts_with-shorter xs ys n m in_xs in_ys h,
    λ (rest, e). absurd (omega (arith, h, longer_of_rest xs ys n m in_xs in_ys rest e)),
    λ e. cc,
  )
  | no h ↦
      let bytes = is_same-first_difference m xs ys (omega (arith, h, in_xs)) in_ys in
      (
        is_same (first_difference m xs ys),
        starts_with-longer xs ys n m in_xs in_ys (omega (arith, h)),
        λ (rest, e). bytes.1 (first_of_rest xs ys n m in_xs in_ys rest e),
        λ t. (
          take (n - m) (drop m xs),
          remove_prefix_rest xs ys n m in_xs in_ys (omega (arith, h)),
          take-split m n xs (omega (arith, h))
              ∙ ap (λ front. front ++ take (n - m) (drop m xs)) (bytes.0 t),
        ),
      )
]
