-- ===== src/StringPiece.antt =====
-- simplev/src/simplev/base/StringPiece.h: a piece of somebody else's text. `ptr` is the memory from the
-- pointer `ptr_` to the end of its block, byte by byte as `unsigned char`; NULL is a block of no bytes.
pub mod Order
pub mod Prefix
mod Tests
use simplev.Prelude.{
  ℕ, zero, suc, ◌-◌, ◌^◌, ◌+◌, min, Bool, true, false, not, ◌&&◌, ◌||◌, List, [], ◌∷◌, length, drop,
  take, Result, ok, err, out_of_range, ensure, ◌>>=◌, ◌>>◌, leb, ltb, ◌==◌, if◌then◌else◌,
}
use simplev.Prelude.Int.{ℤ, pos, negsuc}

pub record StringPiece : Type 0 where
  pub ptr : List ℕ
  pub length_ : ℤ

-- The sign of an `int` that tells an order.
pub data Sign : Type 0 where
  less same greater : Sign

abbrev pub sign : ℕ → ℕ → Sign
sign a b = if ltb a b then less else if ltb b a then greater else same

-- An `int` as a `size_t`.
abbrev pub to_size : ℤ → ℕ
to_size (pos n) = n
to_size (negsuc n) = 2 ^ 64 - suc n

-- `a == b`, `a < b` and `min` on `int`.
abbrev pub int_equal : ℤ → ℤ → Bool
int_equal (pos a) (pos b) = a == b
int_equal (negsuc a) (negsuc b) = a == b
int_equal _ _ = false

abbrev pub int_less : ℤ → ℤ → Bool
int_less (pos a) (pos b) = ltb a b
int_less (pos a) (negsuc b) = false
int_less (negsuc a) (pos b) = true
int_less (negsuc a) (negsuc b) = ltb b a

abbrev pub int_minus : ℤ → ℕ → ℤ
int_minus (pos a) n = if leb n a then pos (a - n) else negsuc (n - suc a)
int_minus (negsuc a) n = negsuc (a + n)

-- The first bytes that differ decide.
unfoldable pub first_difference : ℕ → List ℕ → List ℕ → Sign
first_difference zero xs ys = same
first_difference (suc n) [] ys = same
first_difference (suc n) (x ∷ xs) [] = same
first_difference (suc n) (x ∷ xs) (y ∷ ys) =
    let rest = first_difference n xs ys in
    if ltb x y then less else if ltb y x then greater else rest

-- `memcmp` reads `n` bytes at both pointers.
abbrev pub memcmp : List ℕ → List ℕ → ℕ → Result Sign
memcmp xs ys n = do
  ensure (leb n (length xs) && leb n (length ys)) out_of_range
  ok (first_difference n xs ys)

abbrev pub is_same : Sign → Bool
is_same less = false
is_same same = true
is_same greater = false

abbrev pub is_less : Sign → Bool
is_less less = true
is_less same = false
is_less greater = false

abbrev pub is_greater : Sign → Bool
is_greater less = false
is_greater same = false
is_greater greater = true

abbrev pub empty_piece : StringPiece
empty_piece = record { ptr = []; length_ = pos 0 }

-- `StringPiece(offset, len)`, and `set` likewise.
abbrev pub set : List ℕ → ℤ → StringPiece
set offset len = record { ptr = offset; length_ = len }

-- A byte of the piece; the index is not compared with the length.
unfoldable pub char_at : StringPiece → ℕ → Result ℕ
char_at p i = first (drop i p.ptr)
  where
    first : List ℕ → Result ℕ
    first [] = err out_of_range
    first (x ∷ xs) = ok x

abbrev pub is_empty : StringPiece → Bool
is_empty p = int_equal p.length_ (pos 0)

unfoldable pub remove_prefix : ℕ → StringPiece → StringPiece
remove_prefix n p = record { ptr = drop n p.ptr; length_ = int_minus p.length_ n }

unfoldable pub remove_suffix : ℕ → StringPiece → StringPiece
remove_suffix n p = record p { length_ = int_minus p.length_ n }

-- `&&` does not compare the bytes of pieces of different lengths.
unfoldable pub equal : StringPiece → StringPiece → Result Bool
equal p x =
    if int_equal p.length_ x.length_
    then (memcmp p.ptr x.ptr (to_size p.length_) >>= λ r. ok (is_same r))
    else ok false

unfoldable pub different : StringPiece → StringPiece → Result Bool
unfolding equal
different p x = do equals ← equal p x; ok (not equals)

-- `length_ < x.length_ ? length_ : x.length_`
abbrev pub shorter : StringPiece → StringPiece → ℕ
shorter p x = to_size (if int_less p.length_ x.length_ then p.length_ else x.length_)

-- STRINGPIECE_BINARY_PREDICATE: `aux` tests the bytes, and `lengths` is `length_ cmp x.length_`.
abbrev pub binary_predicate : (Sign → Bool) → Bool → StringPiece → StringPiece → Result Bool
binary_predicate aux lengths p x = do
  r ← memcmp p.ptr x.ptr (shorter p x)
  ok (aux r || (is_same r && lengths))

unfoldable pub lt : StringPiece → StringPiece → Result Bool
lt p x = binary_predicate is_less (int_less p.length_ x.length_) p x

unfoldable pub le : StringPiece → StringPiece → Result Bool
le p x = binary_predicate is_less (not (int_less x.length_ p.length_)) p x

unfoldable pub ge : StringPiece → StringPiece → Result Bool
ge p x = binary_predicate is_greater (not (int_less p.length_ x.length_)) p x

unfoldable pub gt : StringPiece → StringPiece → Result Bool
gt p x = binary_predicate is_greater (int_less x.length_ p.length_) p x

-- Bytes that agree leave it to the lengths.
abbrev pub then_lengths : Sign → ℤ → ℤ → Sign
then_lengths less a b = less
then_lengths same a b = if int_less a b then less else if int_less b a then greater else same
then_lengths greater a b = greater

unfoldable pub compare : StringPiece → StringPiece → Result Sign
compare p x = do r ← memcmp p.ptr x.ptr (shorter p x); ok (then_lengths r p.length_ x.length_)

unfoldable pub starts_with : StringPiece → StringPiece → Result Bool
starts_with p x =
    if not (int_less p.length_ x.length_)
    then (memcmp p.ptr x.ptr (to_size x.length_) >>= λ r. ok (is_same r))
    else ok false

-- `CopyToStdString`
unfoldable pub copy_to_std_string : StringPiece → Result (List ℕ)
copy_to_std_string p = do
  let n = to_size p.length_
  ensure (leb n (length p.ptr)) out_of_range
  ok (take n p.ptr)
