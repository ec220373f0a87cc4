-- ===== src/StringPiece/Tests.antt =====
-- Pieces of StringPiece.h, compared and cut.
use simplev.Prelude.{
  ◌≡◌, refl, List, [], ◌∷◌, take, ok, err, out_of_range, true, false, ℕ, ◌↔◌, arith,
}
use simplev.Prelude.Int.{pos}
use simplev.StringPiece.{
  less, same, set, compare, equal, different, lt, le, ge, gt, remove_prefix, remove_suffix,
  copy_to_std_string, char_at, is_empty, empty_piece,
}
use simplev.StringPiece.Order.{comparisons_lem}

abbrev abc : List ℕ
abc = b'a' ∷ b'b' ∷ b'c' ∷ []

abbrev abd : List ℕ
abd = b'a' ∷ b'b' ∷ b'd' ∷ []

comparisons_lem_example :
    (compare (set abc (pos 3)) (set abd (pos 3)) ≡ ok less)
    × (equal (set abc (pos 3)) (set abd (pos 3)) ≡ ok false)
    × (different (set abc (pos 3)) (set abd (pos 3)) ≡ ok true)
    × (lt (set abc (pos 3)) (set abd (pos 3)) ≡ ok true)
    × (le (set abc (pos 3)) (set abd (pos 3)) ≡ ok true)
    × (ge (set abc (pos 3)) (set abd (pos 3)) ≡ ok false)
    × (gt (set abc (pos 3)) (set abd (pos 3)) ≡ ok false)
    × ((less ≡ same) ↔ (abc ≡ abd))
comparisons_lem_example = comparisons_lem abc abd 3 3 (omega arith) (omega arith)

the_rest : copy_to_std_string (remove_prefix 2 (set abc (pos 3))) ≡ ok (b'c' ∷ [])
unfolding copy_to_std_string remove_prefix
the_rest = refl

the_front : copy_to_std_string (remove_suffix 1 (set abc (pos 3))) ≡ ok (take 2 abc)
unfolding copy_to_std_string remove_suffix
the_front = refl

-- Cutting off more than there is gives a negative length.
cut_too_far : copy_to_std_string (remove_suffix 4 (set abc (pos 3))) ≡ err out_of_range
unfolding copy_to_std_string remove_suffix
cut_too_far = refl

-- The index is that of the memory, not of the piece.
behind_the_piece : char_at (set abc (pos 1)) 2 ≡ ok b'c'
unfolding char_at
behind_the_piece = refl

nothing : is_empty empty_piece ≡ true
nothing = refl
