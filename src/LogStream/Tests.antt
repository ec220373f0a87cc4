-- ===== src/LogStream/Tests.antt =====
-- Runs of LogStream.cc.
use simplev.Prelude.{ℕ, ◌≤◌, ◌≡◌, refl, List, [], ◌∷◌, some, length, replicate, arith}
use simplev.Prelude.Int.{pos, negsuc}
use simplev.LogStream.{FixedBuffer, convert, convert_hex, integer, put}
use simplev.LogStream.Convert.{read_int, Is64Bit, convert_lem}
use simplev.LogStream.Line.{IsValid, PutOrSkipped, put_lem}

convert_minus : convert (negsuc 1209) ≡ some (b'-' ∷ b'1' ∷ b'2' ∷ b'1' ∷ b'0' ∷ [])
unfolding convert
convert_minus = refl

convert_hex_beef : convert_hex 0xbeef ≡ some (b'b' ∷ b'e' ∷ b'e' ∷ b'f' ∷ [])
unfolding convert_hex
convert_hex_beef = refl

convert_lem_example :
    (s : List ℕ) × (convert (negsuc 1209) ≡ some s)
    × (read_int s ≡ negsuc 1209)
    × (Is64Bit (negsuc 1209) → length s ≤ 20)
convert_lem_example = convert_lem (negsuc 1209)

-- An array of forty characters with an empty line.
abbrev empty_line : FixedBuffer
empty_line = record { array = replicate 40 0; cur = 0 }

empty_line-IsValid : IsValid empty_line
empty_line-IsValid = omega arith

put_lem_example : PutOrSkipped (integer (pos 42)) empty_line (put (integer (pos 42)) empty_line)
put_lem_example = put_lem (integer (pos 42)) empty_line empty_line-IsValid (omega arith)
