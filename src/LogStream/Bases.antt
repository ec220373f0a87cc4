-- ===== src/LogStream/Bases.antt =====
-- The two tables of digits of LogStream.cc as bases.
use simplev.Prelude.{
  ℕ, zero, suc, ◌+◌, ◌-◌, ◌≤◌, ◌<◌, ◌≡◌, refl, Option, some, get_elem?, arith, ltb, if◌then◌else◌,
}
use simplev.Prelude.Int.{pos, neg}
use native.Mathlib.Nat.{pow-suc}
use simplev.LogStream.{zero_at, digits_hex}
use simplev.LogStream.Digits.{Base}

-- The digits of the decimal system, without the mirrored half of the table.
abbrev pub decimal_table : ℕ → Option ℕ
decimal_table r = zero_at (pos r)

pub decimal-lookup : (r : ℕ) → r < 10 → decimal_table r ≡ some (48 + r)
unfolding zero_at
decimal-lookup zero h = refl
decimal-lookup (suc zero) h = refl
decimal-lookup (suc (suc zero)) h = refl
decimal-lookup (suc (suc (suc zero))) h = refl
decimal-lookup (suc (suc (suc (suc zero)))) h = refl
decimal-lookup (suc (suc (suc (suc (suc zero))))) h = refl
decimal-lookup (suc (suc (suc (suc (suc (suc zero)))))) h = refl
decimal-lookup (suc (suc (suc (suc (suc (suc (suc zero))))))) h = refl
decimal-lookup (suc (suc (suc (suc (suc (suc (suc (suc zero)))))))) h = refl
decimal-lookup (suc (suc (suc (suc (suc (suc (suc (suc (suc zero))))))))) h = refl
decimal-lookup (suc (suc (suc (suc (suc (suc (suc (suc (suc (suc r)))))))))) h =
    absurd (omega arith)

abbrev pub decimal : Base
decimal = record {
  base = 10;
  table = decimal_table;
  code = λ r. 48 + r;
  decode = λ c. c - 48;
  lookup = decimal-lookup;
  decode-code = λ r h. omega arith;
  readable = λ r h. omega arith;
  below = λ n. omega arith;
  splits = λ n. omega arith;
  shrinks = λ n h. omega arith;
  descends = λ n k h. omega (arith, pow-suc 10 k);
  ends = λ n h. omega arith;
}

abbrev pub hex_code : ℕ → ℕ
hex_code r = if ltb r 10 then 48 + r else 87 + r

abbrev pub hex_decode : ℕ → ℕ
hex_decode c = if ltb c 97 then c - 48 else c - 87

pub hex-lookup : (r : ℕ) → r < 16 → get_elem? digits_hex r ≡ some (hex_code r)
hex-lookup zero h = refl
hex-lookup (suc zero) h = refl
hex-lookup (suc (suc zero)) h = refl
hex-lookup (suc (suc (suc zero))) h = refl
hex-lookup (suc (suc (suc (suc zero)))) h = refl
hex-lookup (suc (suc (suc (suc (suc zero))))) h = refl
hex-lookup (suc (suc (suc (suc (suc (suc zero)))))) h = refl
hex-lookup (suc (suc (suc (suc (suc (suc (suc zero))))))) h = refl
hex-lookup (suc (suc (suc (suc (suc (suc (suc (suc zero)))))))) h = refl
hex-lookup (suc (suc (suc (suc (suc (suc (suc (suc (suc zero))))))))) h = refl
hex-lookup (suc (suc (suc (suc (suc (suc (suc (suc (suc (suc zero)))))))))) h = refl
hex-lookup (suc (suc (suc (suc (suc (suc (suc (suc (suc (suc (suc zero))))))))))) h = refl
hex-lookup (suc (suc (suc (suc (suc (suc (suc (suc (suc (suc (suc (suc zero)))))))))))) h = refl
hex-lookup (suc (suc (suc (suc (suc (suc (suc (suc (suc (suc (suc (suc (suc zero))))))))))))) h =
    refl
hex-lookup (suc (suc (suc (suc (suc (suc (suc (suc (suc (suc (suc (suc (suc (suc zero))))))))))))))
      h =
    refl
hex-lookup
      (suc (suc (suc (suc (suc (suc (suc (suc (suc (suc (suc (suc (suc (suc (suc zero)))))))))))))))
      h =
    refl
hex-lookup
      (suc
        (suc (suc (suc (suc (suc (suc (suc (suc (suc (suc (suc (suc (suc (suc (suc r))))))))))))))))
      h =
    absurd (omega arith)

pub hex_decode-code : (r : ℕ) → r < 16 → hex_decode (hex_code r) ≡ r
hex_decode-code r h = ground arith

pub hex-readable : (r : ℕ) → 48 ≤ hex_code r
hex-readable r = ground arith

abbrev pub hexadecimal : Base
hexadecimal = record {
  base = 16;
  table = get_elem? digits_hex;
  code = hex_code;
  decode = hex_decode;
  lookup = hex-lookup;
  decode-code = hex_decode-code;
  readable = λ r h. hex-readable r;
  below = λ n. omega arith;
  splits = λ n. omega arith;
  shrinks = λ n h. omega arith;
  descends = λ n k h. omega (arith, pow-suc 16 k);
  ends = λ n h. omega arith;
}

-- The table is a mirror, so the sign of the last digit makes no difference.
pub mirrored : (r : ℕ) → r < 10 → zero_at (neg r) ≡ decimal_table r
unfolding zero_at
mirrored zero h = refl
mirrored (suc zero) h = refl
mirrored (suc (suc zero)) h = refl
mirrored (suc (suc (suc zero))) h = refl
mirrored (suc (suc (suc (suc zero)))) h = refl
mirrored (suc (suc (suc (suc (suc zero))))) h = refl
mirrored (suc (suc (suc (suc (suc (suc zero)))))) h = refl
mirrored (suc (suc (suc (suc (suc (suc (suc zero))))))) h = refl
mirrored (suc (suc (suc (suc (suc (suc (suc (suc zero)))))))) h = refl
mirrored (suc (suc (suc (suc (suc (suc (suc (suc (suc zero))))))))) h = refl
mirrored (suc (suc (suc (suc (suc (suc (suc (suc (suc (suc r)))))))))) h = absurd (omega arith)
