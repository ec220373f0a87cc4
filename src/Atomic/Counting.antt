-- ===== src/Atomic/Counting.antt =====
-- Threads that count with an integer of Atomic.h.
use simplev.Prelude.{
  ℕ, zero, suc, ◌+◌, ◌-◌, ◌*◌, ◌%◌, ◌^◌, ◌≡◌, ◌≢◌, ◌≤◌, ◌<◌, refl, sym, ap, ◌∙◌, arith, dec_lt, ◌/◌,
}
use native.Mathlib.Nat.{
  mod-add-mod, mod-add-div, mul-le-mul_left, mul-suc, add-mod_right, mod-eq_of_lt,
}
use simplev.Atomic.{
  AtomicInteger, wrap, get_and_add, add_and_get, increment_and_get, increment, decrement,
}

-- What the `n`-th of the calls of `incrementAndGet` returns, where the first is the call 0.
unfoldable pub nth_increment : ℕ → AtomicInteger → ℕ
unfolding increment_and_get
nth_increment zero a = (increment_and_get a).0
nth_increment (suc n) a = nth_increment n (increment_and_get a).1

-- Two sums with the same remainder are as far apart as the divisor, or equal.
apart : (m a b : ℕ) → a < b → b < a + m → a % m ≢ b % m
apart m a b up near same = by_quotient (dec_lt (a / m) (b / m))
  where
    whole_a : a % m + m * (a / m) ≡ a
    whole_a = mod-add-div a m

    whole_b : b % m + m * (b / m) ≡ b
    whole_b = mod-add-div b m

    by_quotient : Dec (a / m < b / m) → ⊥
    by_quotient (yes h) =
        let grows : m * suc (a / m) ≤ m * (b / m) = mul-le-mul_left m h in
        omega (arith, up, near, same, whole_a, whole_b, grows, mul-suc m (a / m))
    by_quotient (no h) =
        let shrinks : m * (b / m) ≤ m * (a / m) = mul-le-mul_left m (omega (arith, h)) in
        omega (arith, up, near, same, whole_a, whole_b, shrinks)

nth_increment-value :
    (n : ℕ) (a : AtomicInteger) → nth_increment n a ≡ wrap a.bits (a.value + suc n)
unfolding nth_increment increment_and_get add_and_get get_and_add
nth_increment-value zero a = refl
nth_increment-value (suc n) a =
    nth_increment-value n (record a { value = wrap a.bits (a.value + 1) })
    ∙ (mod-add-mod (a.value + 1) (2 ^ a.bits) (suc n) ∙ ap (wrap a.bits) (omega arith))

-- Threads that call `incrementAndGet`, in any order: the calls return the numbers that follow the value,
-- wrapped around; any two among fewer than 2 ^ bits calls in a row return different ones. A
-- `decrement` undoes an `increment`.
pub nth_increment_lem :
    (a : AtomicInteger) (i j : ℕ)
    → a.value < 2 ^ a.bits
    → i < j
    → j < 2 ^ a.bits
    → (nth_increment i a ≡ wrap a.bits (a.value + suc i))
      × (nth_increment i a ≢ nth_increment j a)
      × (decrement (increment a) ≡ a)
unfolding decrement increment increment_and_get add_and_get get_and_add
nth_increment_lem a i j small less few =
    let value_i = nth_increment-value i a in
    let value_j = nth_increment-value j a in
    (
      value_i,
      λ same.
          apart (2 ^ a.bits) (a.value + suc i) (a.value + suc j) (omega (arith, less))
            (omega (arith, less, few)) (sym value_i ∙ same ∙ value_j),
      ap (λ v. record a { value = v })
          (mod-add-mod (a.value + 1) (2 ^ a.bits) (2 ^ a.bits - 1)
            ∙ (ap (wrap a.bits) (omega (arith, small))
                ∙ (add-mod_right a.value (2 ^ a.bits) ∙ mod-eq_of_lt small))),
    )
