-- ===== src/Atomic/Tests.antt =====
-- Counters of Atomic.h.
use simplev.Prelude.{◌+◌, ◌≡◌, ◌≢◌, refl, arith}
use simplev.Prelude.Int.{negsuc}
use simplev.Atomic.{
  AtomicInteger, atomic_int32, atomic_int64, signed, wrap, get, get_and_add, increment, decrement,
  add, get_and_set,
}
use simplev.Atomic.Counting.{nth_increment, nth_increment_lem}

-- One below the end of eight bits.
abbrev late : AtomicInteger
late = record { bits = 8; value = 254 }

nth_increment_lem_example :
    (nth_increment 0 late ≡ wrap 8 (254 + 1))
    × (nth_increment 0 late ≢ nth_increment 1 late)
    × (decrement (increment late) ≡ late)
nth_increment_lem_example = nth_increment_lem late 0 1 (omega arith) (omega arith) (omega arith)

wraps : get (add 3 late) ≡ 1
unfolding add get_and_add
wraps = refl

below_zero : signed 32 (get (decrement atomic_int32)) ≡ negsuc 0
unfolding decrement get_and_add
below_zero = refl

swapped : get_and_set 7 atomic_int64 ≡ (0, record { bits = 64; value = 7 })
unfolding get_and_set
swapped = refl
