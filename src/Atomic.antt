-- ===== src/Atomic.antt =====
-- simplev/src/simplev/base/Atomic.h: integers that threads change one at a time. A builtin of the compiler
-- is one step. A value of `bits` bits is the number below 2 ^ bits with the same bits, and wraps.
pub mod Counting
mod Tests
use simplev.Prelude.{ℕ, ◌+◌, ◌-◌, ◌%◌, ◌^◌, ltb, if◌then◌else◌}
use simplev.Prelude.Int.{ℤ, pos, negsuc}

pub record AtomicInteger : Type 0 where
  pub bits : ℕ
  pub value : ℕ

abbrev pub init : ℕ → AtomicInteger
init bits = record { bits = bits; value = 0 }

-- `int32_t` and `int64_t`
abbrev pub atomic_int32 : AtomicInteger
atomic_int32 = init 32

abbrev pub atomic_int64 : AtomicInteger
atomic_int64 = init 64

-- The signed integer that a value stands for.
abbrev pub signed : ℕ → ℕ → ℤ
signed bits v = if ltb v (2 ^ (bits - 1)) then pos v else negsuc (2 ^ bits - 1 - v)

abbrev pub wrap : ℕ → ℕ → ℕ
wrap bits v = v % 2 ^ bits

abbrev pub get : AtomicInteger → ℕ
get a = a.value

-- `__sync_fetch_and_add`: the old value, and the object after it.
unfoldable pub get_and_add : ℕ → AtomicInteger → ℕ × AtomicInteger
get_and_add x a = (a.value, record a { value = wrap a.bits (a.value + x) })

unfoldable pub add_and_get : ℕ → AtomicInteger → ℕ × AtomicInteger
unfolding get_and_add
add_and_get x a = let (v, a') = get_and_add x a in (wrap a.bits (v + x), a')

unfoldable pub increment_and_get : AtomicInteger → ℕ × AtomicInteger
unfolding add_and_get
increment_and_get a = add_and_get 1 a

unfoldable pub add : ℕ → AtomicInteger → AtomicInteger
unfolding get_and_add
add x a = (get_and_add x a).1

unfoldable pub increment : AtomicInteger → AtomicInteger
unfolding increment_and_get
increment a = (increment_and_get a).1

-- `getAndAdd(-1)`
unfoldable pub decrement : AtomicInteger → AtomicInteger
unfolding get_and_add
decrement a = (get_and_add (2 ^ a.bits - 1) a).1

-- `__sync_lock_test_and_set`
unfoldable pub get_and_set : ℕ → AtomicInteger → ℕ × AtomicInteger
get_and_set new_value a = (a.value, record a { value = new_value })
