-- ===== src/LogStream.antt =====
-- simplev/src/simplev/base/LogStream.h and LogStream.cc: integers as text, and the fixed buffer that a
-- log line is put together in. Characters are their codes.
pub mod Digits
pub mod Bases
pub mod Convert
pub mod Line
pub mod Printf
mod Tests
use simplev.Prelude.{
  ℕ, zero, suc, ◌+◌, ◌-◌, ◌*◌, ◌/◌, ◌%◌, ◌^◌, Bool, true, false, Option, none, some, List, [], ◌∷◌,
  ◌++◌, length, take, get_elem?, ◌>>=?◌, ltb, leb, ◌==◌, if◌then◌else◌, Result, ok, err,
  out_of_range, ◌>>=◌, ◌>>◌, write_at, read_at, replicate,
}
use simplev.Prelude.Int.{ℤ, pos, negsuc, quot, rem, is_zero, is_negative, magnitude}
use mathlib.Core.List.{reverse}

-- "9876543210123456789"
abbrev pub digits : List ℕ
digits =
    b'9' ∷ b'8' ∷ b'7' ∷ b'6' ∷ b'5' ∷ b'4' ∷ b'3' ∷ b'2' ∷ b'1' ∷ b'0' ∷ b'1' ∷ b'2' ∷ b'3' ∷ b'4'
    ∷ b'5' ∷ b'6' ∷ b'7' ∷ b'8' ∷ b'9' ∷ []

-- `zero[lsd]`, where `zero` is `digits + 9`.
unfoldable pub zero_at : ℤ → Option ℕ
zero_at (pos n) = get_elem? digits (9 + n)
zero_at (negsuc n) = if ltb n 9 then get_elem? digits (8 - n) else none

-- The loop of `convert`: the characters in the order in which they are written. `none` stands for a
-- read outside `digits` or for fuel that ran out.
unfoldable pub convert_digits : ℕ → ℤ → Option (List ℕ)
convert_digits zero i = none
convert_digits (suc fuel) i =
    let rest = convert_digits fuel (quot i 10) in
    zero_at (rem i 10) >>=? λ c.
    if is_zero (quot i 10) then some (c ∷ []) else (rest >>=? λ cs. some (c ∷ cs))

-- The characters before the final '\0'. Each round divides by ten, so the fuel is enough.
unfoldable pub convert : ℤ → Option (List ℕ)
unfolding convert_digits zero_at
convert value = convert_digits (suc (magnitude value)) value >>=? λ cs.
    some (reverse (if is_negative value then cs ++ b'-' ∷ [] else cs))

-- "0123456789abcdef"
abbrev pub digits_hex : List ℕ
digits_hex =
    b'0' ∷ b'1' ∷ b'2' ∷ b'3' ∷ b'4' ∷ b'5' ∷ b'6' ∷ b'7' ∷ b'8' ∷ b'9' ∷ b'a' ∷ b'b' ∷ b'c' ∷ b'd'
    ∷ b'e' ∷ b'f' ∷ []

unfoldable pub convert_hex_digits : ℕ → ℕ → Option (List ℕ)
convert_hex_digits zero i = none
convert_hex_digits (suc fuel) i =
    let rest = convert_hex_digits fuel (i / 16) in
    get_elem? digits_hex (i % 16) >>=? λ c.
    if i / 16 == 0 then some (c ∷ []) else (rest >>=? λ cs. some (c ∷ cs))

unfoldable pub convert_hex : ℕ → Option (List ℕ)
unfolding convert_hex_digits
convert_hex value = convert_hex_digits (suc value) value >>=? λ cs. some (reverse cs)

-- `FixedBuffer<SIZE>`: its array, of SIZE characters, and `cur_` as an index.
pub record FixedBuffer : Type 0 where
  pub array : List ℕ
  pub cur : ℕ

abbrev pub small_buffer : ℕ
small_buffer = 4000

unfoldable pub init : FixedBuffer
init = record { array = replicate small_buffer 0; cur = 0 }

abbrev pub avail : FixedBuffer → ℕ
avail b = length b.array - b.cur

-- `static_cast<int>` of a `size_t`.
abbrev pub as_int : ℕ → ℤ
as_int n =
    let low : ℕ = n % 2 ^ 32 in if ltb low (2 ^ 31) then pos low else negsuc (2 ^ 32 - 1 - low)

-- `FixedBuffer::append` of `len` characters of `str`; a negative length is a huge one for `memcpy`.
abbrev append_len : List ℕ → ℤ → FixedBuffer → Result FixedBuffer
append_len str (negsuc n) b = err out_of_range
append_len str (pos n) b =
    if ltb n (avail b)
    then (write_at b.array b.cur (take n str) >>= λ array.
        ok (record { array = array; cur = b.cur + n }))
    else ok b

unfoldable pub append : List ℕ → FixedBuffer → Result FixedBuffer
append str b = append_len str (as_int (length str)) b

abbrev pub reset : FixedBuffer → FixedBuffer
reset b = record b { cur = 0 }

abbrev pub max_numeric_size : ℕ
max_numeric_size = 32

-- A number's text goes straight into the array, with its '\0', and `add` moves `cur_` to the '\0'.
abbrev put_number : Option (List ℕ) → FixedBuffer → Result FixedBuffer
put_number none b = err out_of_range
put_number (some s) b = write_at b.array b.cur (s ++ 0 ∷ []) >>= λ array.
    ok (record { array = array; cur = b.cur + length s })

unfoldable pub format_integer : ℤ → FixedBuffer → Result FixedBuffer
format_integer v b = if leb max_numeric_size (avail b) then put_number (convert v) b else ok b

-- `operator<<(const void*)`
unfoldable pub format_pointer : ℕ → FixedBuffer → Result FixedBuffer
format_pointer p b =
    if leb max_numeric_size (avail b)
    then put_number (convert_hex p >>=? λ s. some (b'0' ∷ b'x' ∷ s)) b
    else ok b

-- What `operator<<` takes, apart from floating-point numbers.
pub data Item : Type 0 where
  bool : Bool → Item
  integer : ℤ → Item
  pointer : ℕ → Item
  char : ℕ → Item
  text : List ℕ → Item

unfoldable pub put : Item → FixedBuffer → Result FixedBuffer
unfolding append format_integer format_pointer
put (bool v) b = append (if v then b'1' ∷ [] else b'0' ∷ []) b
put (integer v) b = format_integer v b
put (pointer p) b = format_pointer p b
put (char c) b = append (c ∷ []) b
put (text s) b = append s b

-- A line: `stream << a << b << …`.
unfoldable pub put_all : List Item → FixedBuffer → Result FixedBuffer
put_all [] b = ok b
put_all (x ∷ xs) b = do b' ← put x b; put_all xs b'
