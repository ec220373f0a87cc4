-- ===== src/SocketsOps/Swap.antt =====
-- The byte order of SocketsOps.h: to the network and back.
use simplev.Prelude.{
  ℕ, zero, suc, ◌+◌, ◌*◌, ◌/◌, ◌%◌, ◌^◌, ◌≡◌, ◌<◌, refl, ap, subst, ◌∙◌, List, [], ◌∷◌, ◌++◌,
  length, arith,
}
use mathlib.Core.List.{reverse, reverse-cons, reverse-reverse}
use native.Mathlib.Nat.{pow-suc}
use simplev.LogStream.Digits.{length-reverse}
use simplev.SocketsOps.{to_bytes, from_bytes, swap}

abbrev pub AllBytes : List ℕ → Type 0
AllBytes [] = Unit {0}
AllBytes (b ∷ bs) = (b < 256) × AllBytes bs

AllBytes-++ : (xs ys : List ℕ) → AllBytes xs → AllBytes ys → AllBytes (xs ++ ys)
AllBytes-++ [] ys p q = q
AllBytes-++ (x ∷ xs) ys p q = (p.0, AllBytes-++ xs ys p.1 q)

AllBytes-reverse : (xs : List ℕ) → AllBytes xs → AllBytes (reverse xs)
AllBytes-reverse [] p = tt
AllBytes-reverse (x ∷ xs) p =
    rw (reverse-cons x xs) (AllBytes-++ (reverse xs) (x ∷ []) (AllBytes-reverse xs p.1) (p.0, tt))

pub to_bytes-AllBytes : (k n : ℕ) → AllBytes (to_bytes k n)
to_bytes-AllBytes zero n = tt
to_bytes-AllBytes (suc k) n = (omega arith, to_bytes-AllBytes k (n / 256))

pub length-to_bytes : (k n : ℕ) → length (to_bytes k n) ≡ k
length-to_bytes zero n = refl
length-to_bytes (suc k) n = ap suc (length-to_bytes k (n / 256))

from_bytes-to_bytes : (k n : ℕ) → n < 256 ^ k → from_bytes (to_bytes k n) ≡ n
from_bytes-to_bytes zero n h = omega (arith, h)
from_bytes-to_bytes (suc k) n h =
    let ih = from_bytes-to_bytes k (n / 256) (omega (arith, h, pow-suc 256 k)) in omega (arith, ih)

to_bytes-from_bytes :
    (k : ℕ) (bs : List ℕ) → length bs ≡ k → AllBytes bs → to_bytes k (from_bytes bs) ≡ bs
to_bytes-from_bytes zero [] e p = refl
to_bytes-from_bytes zero (b ∷ bs) e p = absurd (omega (arith, e))
to_bytes-from_bytes (suc k) [] e p = absurd (omega (arith, e))
to_bytes-from_bytes (suc k) (b ∷ bs) e p =
    let low : (b + 256 * from_bytes bs) % 256 ≡ b = omega (arith, p.0) in
    let high : (b + 256 * from_bytes bs) / 256 ≡ from_bytes bs = omega (arith, p.0) in
    rw (low, high) (ap (◌∷◌ b) (to_bytes-from_bytes k bs (omega (arith, e)) p.1))

from_bytes-bound : (bs : List ℕ) → AllBytes bs → from_bytes bs < 256 ^ length bs
from_bytes-bound [] p = omega arith
from_bytes-bound (b ∷ bs) p = omega (arith, p.0, from_bytes-bound bs p.1, pow-suc 256 (length bs))

-- A number of `k` bytes comes back from the order of the network, and has `k` bytes there.
pub swap-swap : (k n : ℕ) → n < 256 ^ k → (swap k (swap k n) ≡ n) × (swap k n < 256 ^ k)
unfolding swap
swap-swap k n h =
    let bytes = to_bytes k n in
    let all = AllBytes-reverse bytes (to_bytes-AllBytes k n) in
    let size : length (reverse bytes) ≡ k = length-reverse bytes ∙ length-to_bytes k n in
    (
      ap (λ bs. from_bytes (reverse bs)) (to_bytes-from_bytes k (reverse bytes) size all)
          ∙ (ap from_bytes (reverse-reverse bytes) ∙ from_bytes-to_bytes k n h),
      subst (λ m. from_bytes (reverse bytes) < 256 ^ m) size (from_bytes-bound (reverse bytes) all),
    )
