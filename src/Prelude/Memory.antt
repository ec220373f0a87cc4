-- ===== src/Prelude/Memory.antt =====
-- `size_t`, and the accesses of a block of memory (a vector's elements) that `std::copy`, `memcpy`
-- and the constructors of a string make. An access that leaves the block is a fault.
use Prim.Native.Nat.{ℕ, ◌+◌, ◌-◌, ◌%◌, ◌^◌, ◌≤◌}
use mathlib.Core.Path.{◌≡◌, ap}
use mathlib.Core.List.{List, ◌++◌}
use native.Mathlib.Omega.{arith}
use simplev.Prelude.Tests.{leb, if◌then◌else◌}
use simplev.Prelude.Lists.{
  length, take, drop, replicate, length-append, take-append_length, drop-append_length,
  drop-append_ge, take_all, length-take, length-replicate,
}
use simplev.Prelude.Faults.{Result, ok, err, out_of_range}

-- `size_t` arithmetic wraps.
abbrev pub add_size : ℕ → ℕ → ℕ
add_size a b = (a + b) % 2 ^ 64

abbrev pub sub_size : ℕ → ℕ → ℕ
sub_size a b = (a + 2 ^ 64 - b) % 2 ^ 64

module _ {ℓ} {A : Type ℓ} where
  -- The `n` elements from index `i` on.
  unfoldable pub read_at : List A → ℕ → ℕ → Result (List A)
  read_at xs i n = if leb (i + n) (length xs) then ok (take n (drop i xs)) else err out_of_range

  -- `std::copy` of `ys` to index `i`.
  unfoldable pub write_at : List A → ℕ → List A → Result (List A)
  write_at xs i ys =
      if leb (i + length ys) (length xs)
      then ok (take i xs ++ (ys ++ drop (i + length ys) xs))
      else err out_of_range

  -- `vector::resize`: cut off or filled up with `a`.
  unfoldable pub resize : List A → ℕ → A → List A
  resize xs n a = take n xs ++ replicate (n - length xs) a

  pub read_at_lem :
      (i n : ℕ) (pre xs post : List A)
      → length pre ≡ i
      → length xs ≡ n
      → read_at (pre ++ (xs ++ post)) i n ≡ ok xs
  unfolding read_at
  read_at_lem i n pre xs post hi hn = ground (
    arith,
    length-append pre (xs ++ post),
    length-append xs post,
    drop-append_length i pre (xs ++ post) hi,
    take-append_length n xs post hn,
  )

  pub write_at_lem :
      (i : ℕ) (pre ys post : List A)
      → length pre ≡ i
      → length ys ≤ length post
      → write_at (pre ++ post) i ys ≡ ok (pre ++ (ys ++ drop (length ys) post))
  unfolding write_at
  write_at_lem i pre ys post hi h =
      let e : i + length ys - length pre ≡ length ys = omega arith in
      ground (
        arith,
        length-append pre post,
        take-append_length i pre post hi,
        drop-append_ge (i + length ys) pre post (omega arith),
        ap (λ k. drop k post) e,
      )

  pub length-resize : (xs : List A) (n : ℕ) (a : A) → length (resize xs n a) ≡ n
  unfolding resize
  length-resize xs n a = omega (
    arith,
    length-append (take n xs) (replicate (n - length xs) a),
    length-take n xs,
    length-replicate (n - length xs) a,
  )

  pub write_at-ok :
      (xs : List A) (i : ℕ) (ys : List A)
      → i + length ys ≤ length xs
      → write_at xs i ys ≡ ok (take i xs ++ (ys ++ drop (i + length ys) xs))
  unfolding write_at
  write_at-ok xs i ys h = ground arith

  pub resize_grow :
      (xs : List A) (n : ℕ) (a : A)
      → length xs ≤ n
      → resize xs n a ≡ xs ++ replicate (n - length xs) a
  unfolding resize
  resize_grow xs n a h = ap (λ (t : List A). t ++ replicate (n - length xs) a) (take_all n xs h)
