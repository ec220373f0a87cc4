-- ===== src/Downloader/Tests.antt =====
-- Runs of download.cc.
use simplev.Prelude.{
  ◌≤◌, sym, ap, subst, length, replicate, length-replicate, append-nil, leb, ℕ, ◌≡◌, refl, true,
  List, [], ◌∷◌, arith,
}
use simplev.Prelude.Int.{pos}
use simplev.Downloader.{
  Downloader, Range, range, init, on_header, on_header_done, start_with, equal, atoll, digits,
  accept_ranges_bytes, http_1_1_200,
}
use simplev.Downloader.Files.{
  Event, data_, done, steps, dones, slice, AreServed, make_all, begin_download, files,
  steps-on_header_done,
}
use simplev.Downloader.Ranges.{all_ranges, on_header_done-pieces}

-- After the headers of a file of 20001 bytes.
abbrev ready : Downloader
ready = record init { found = true; accept_ranges = true; length_ = pos 20001 }

-- `Content-Length: 20001` and the end of the line
abbrev length_line : List ℕ
length_line =
    67 ∷ 111 ∷ 110 ∷ 116 ∷ 101 ∷ 110 ∷ 116 ∷ 45 ∷ 76 ∷ 101 ∷ 110 ∷ 103 ∷ 116 ∷ 104 ∷ 58 ∷ 32 ∷ 50
    ∷ 48 ∷ 48 ∷ 48 ∷ 49 ∷ 13 ∷ 10 ∷ []

headers :
    on_header length_line (on_header accept_ranges_bytes (on_header http_1_1_200 init)) ≡ ready
unfolding on_header start_with equal atoll digits
headers = refl

-- All four pieces, the second one before the first.
abbrev brought : List ℕ → List Event
brought content =
    let part = λ (i : ℕ). slice (range (length content) i) content in
    data_ 1 (part 1)
    ∷ data_ 0 (part 0)
    ∷ done 1
    ∷ data_ 2 (part 2)
    ∷ data_ 3 (part 3)
    ∷ done 0
    ∷ done 3
    ∷ done 2
    ∷ []

-- A file of 20001 bytes.
abbrev sevens : List ℕ
sevens = replicate 20001 7

abbrev sized : Downloader
sized = record init { found = true; accept_ranges = true; length_ = pos (length sevens) }

sevens_large : 16384 ≤ length sevens
sevens_large = omega (arith, length-replicate {A = ℕ} 20001 7)

-- Four pieces were made, and asked for the ranges that were brought.
brought-AreServed :
    (content : List ℕ) (rs : List Range)
    → rs ≡ all_ranges (length content)
    → AreServed content (brought content) 0 (make_all rs)
brought-AreServed content rs made =
    let part = λ (i : ℕ). slice (range (length content) i) content in
    subst (λ rs. AreServed content (brought content) 0 (make_all rs)) (sym made)
      (append-nil (part 0), (append-nil (part 1), (append-nil (part 2), (append-nil (part 3), tt))))

steps-on_header_done_example :
    let s = steps (brought sevens) (begin_download (on_header_done (λ _. true) true sized)) in
    (files s.pieces ≡ sevens) × (s.downloader.has_quit ≡ leb 4 (dones (brought sevens)))
steps-on_header_done_example =
    steps-on_header_done true sevens sized (brought sevens) refl refl refl refl sevens_large (
      brought-AreServed sevens (on_header_done (λ _. true) true sized).pieces (
        ap (λ (x : Downloader). x.pieces)
          (on_header_done-pieces true (length sevens) sized refl refl sevens_large)))
