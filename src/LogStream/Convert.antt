-- ===== src/LogStream/Convert.antt =====
-- `convert` and `convertHex` of LogStream.cc: they never fail, their text reads back as the number, and
-- it is short enough for the room that LogStream asks for.
use simplev.Prelude.{
  ℕ, zero, suc, ◌/◌, ◌%◌, ◌^◌, ◌≤◌, ◌<◌, ◌≡◌, refl, ap, ◌∙◌, List, [], ◌∷◌, some, length, arith,
  ◌==◌, if◌then◌else◌,
}
use simplev.Prelude.Int.{ℤ, pos, negsuc, neg, quot, rem, is_zero, magnitude, magnitude-neg}
use mathlib.Core.List.{reverse, reverse-append}
use simplev.LogStream.{zero_at, convert_digits, convert, convert_hex_digits, convert_hex}
use simplev.LogStream.Digits.{
  value, AllReadable, AllReadable-reverse, length-reverse, emit, emit_lem,
}
use simplev.LogStream.Bases.{decimal_table, decimal, hexadecimal, mirrored}

is_zero-magnitude : (i : ℤ) → is_zero i ≡ (magnitude i == 0)
is_zero-magnitude (pos zero) = refl
is_zero-magnitude (pos (suc n)) = ground arith
is_zero-magnitude (negsuc n) = ground arith

magnitude-quot : (i : ℤ) → magnitude (quot i 10) ≡ magnitude i / 10
magnitude-quot (pos n) = refl
magnitude-quot (negsuc n) = magnitude-neg (suc n / 10)

zero_at-rem : (i : ℤ) → zero_at (rem i 10) ≡ decimal_table (magnitude i % 10)
zero_at-rem (pos n) = refl
zero_at-rem (negsuc n) = mirrored (suc n % 10) (omega arith)

-- The loop of `convert` is the decimal loop at the magnitude.
convert_digits-emit : (fuel : ℕ) (i : ℤ) → convert_digits fuel i ≡ emit decimal fuel (magnitude i)
unfolding convert_digits emit
convert_digits-emit zero i = refl
convert_digits-emit (suc fuel) i = rw (
  zero_at-rem i,
  is_zero-magnitude (quot i 10),
  convert_digits-emit fuel (quot i 10),
  magnitude-quot i,
)

convert_hex_digits-emit : (fuel i : ℕ) → convert_hex_digits fuel i ≡ emit hexadecimal fuel i
unfolding convert_hex_digits emit
convert_hex_digits-emit zero i = refl
convert_hex_digits-emit (suc fuel) i = rw (convert_hex_digits-emit fuel (i / 16))

-- A reader of signed decimal text.
pub read_int : List ℕ → ℤ
read_int [] = pos 0
read_int (c ∷ cs) = if c == b'-' then neg (value decimal 0 cs) else pos (value decimal 0 (c ∷ cs))

read_int-plain : (cs : List ℕ) → AllReadable cs → read_int cs ≡ pos (value decimal 0 cs)
unfolding read_int
read_int-plain [] h = refl
read_int-plain (c ∷ cs) h = ground arith

-- The integers that a 64-bit type of C++ holds, signed or not.
abbrev pub Is64Bit : ℤ → Type 0
Is64Bit (pos n) = n < 2 ^ 64
Is64Bit (negsuc n) = n < 2 ^ 63

-- `convert` of any integer gives text that reads back as that integer; for the integers of the 64-bit
-- types that is twenty characters at most.
pub convert_lem :
    (v : ℤ) → (s : List ℕ) × (convert v ≡ some s) × (read_int s ≡ v) × (Is64Bit v → length s ≤ 20)
unfolding convert
convert_lem (pos n) =
    let e = emit_lem decimal (suc n) n (omega arith) in
    (
      reverse e.cs,
      rw (convert_digits-emit (suc n) (pos n), e.found),
      read_int-plain (reverse e.cs) (AllReadable-reverse e.cs e.plain) ∙ ap pos e.reads,
      λ h. omega (arith, length-reverse e.cs, e.short 19 (omega arith)),
    )
convert_lem (negsuc n) =
    let e = emit_lem decimal (suc (suc n)) (suc n) (omega arith) in
    (
      b'-' ∷ reverse e.cs,
      rw (convert_digits-emit (suc (suc n)) (negsuc n), e.found)
          (ap some (reverse-append e.cs (b'-' ∷ []))),
      unfold read_int in ap neg e.reads,
      λ h. omega (arith, length-reverse e.cs, e.short 18 (omega arith)),
    )

-- `convertHex` of any address gives text that reads back as that address, of sixteen characters at
-- most for a 64-bit one.
pub convert_hex_lem :
    (v : ℕ)
    → (s : List ℕ) × (convert_hex v ≡ some s)
      × (value hexadecimal 0 s ≡ v)
      × (v < 2 ^ 64 → length s ≤ 16)
unfolding convert_hex
convert_hex_lem v =
    let e = emit_lem hexadecimal (suc v) v (omega arith) in
    (
      reverse e.cs,
      rw (convert_hex_digits-emit (suc v) v, e.found),
      e.reads,
      λ h. omega (arith, length-reverse e.cs, e.short 15 (omega arith)),
    )
