-- ===== src/Downloader/Ranges.antt =====
-- The ranges of the pieces of download.cc.
use simplev.Prelude.{
  ℕ, ◌+◌, ◌-◌, ◌*◌, ◌/◌, ◌≡◌, ◌≤◌, ◌<◌, refl, ap, ◌∙◌, Bool, true, ◌&&◌, List, [], ◌∷◌, ◌++◌, arith,
  ltb, leb, if◌then◌else◌,
}
use simplev.Prelude.Int.{ℤ, pos}
use simplev.Downloader.{
  Downloader, Range, range, make_pieces, concurrent_download, on_header_done, start_download,
  single_download,
}

-- How many ranges a byte lies in.
abbrev pub times : ℕ → List Range → ℕ
times k [] = 0
times k (r ∷ rs) = (if leb r.first k && leb k r.last then 1 else 0) + times k rs

abbrev pub all_ranges : ℕ → List Range
all_ranges size = range size 0 ∷ range size 1 ∷ range size 2 ∷ range size 3 ∷ []

-- The file of every piece can be opened: the four pieces are asked for.
concurrent_download-pieces :
    (size : ℕ) (d : Downloader)
    → concurrent_download (λ _. true) size d ≡ record d { pieces = d.pieces ++ all_ranges size }
unfolding concurrent_download make_pieces
concurrent_download-pieces size d =
    ap (λ (p : List Range). record d { pieces = p }) (four d.pieces _ _ _ _)
  where
    four :
        (ps : List Range) (a b c e : Range)
        → (((ps ++ a ∷ []) ++ b ∷ []) ++ c ∷ []) ++ e ∷ [] ≡ ps ++ a ∷ b ∷ c ∷ e ∷ []
    four [] a b c e = refl
    four (p ∷ ps) a b c e = ap (◌∷◌ p) (four ps a b c e)

times-range :
    (size k q : ℕ)
    → 4 * q ≤ size
    → size < 4 * q + 4
    → 1 ≤ q
    → times k (
        record { first = 0 * q; last = (0 + 1) * q - 1 }
        ∷ record { first = 1 * q; last = (1 + 1) * q - 1 }
        ∷ record { first = 2 * q; last = (2 + 1) * q - 1 }
        ∷ record { first = 3 * q; last = size - 1 }
        ∷ [])
      ≡ (if ltb k size then 1 else 0)
times-range size k q low high some_ = ground arith

pub on_header_done-pieces :
    (opens : Bool) (size : ℕ) (d : Downloader)
    → d.accept_ranges ≡ true
    → d.length_ ≡ pos size
    → 16384 ≤ size
    → on_header_done (λ _. true) opens d
      ≡ record d { concurrent = pos 4; pieces = d.pieces ++ all_ranges size }
unfolding on_header_done
on_header_done-pieces opens size d ranges sized big =
    let enough : (d.accept_ranges && leb 16384 size) ≡ true = ground arith in
    ap (λ (l : ℤ). start_download (λ _. true) opens l d) sized
    ∙ (ap
          (λ (b : Bool).
            if b
            then concurrent_download (λ _. true) size (record d { concurrent = pos 4 })
            else single_download opens d)
          enough
        ∙ concurrent_download-pieces size (record d { concurrent = pos 4 }))

-- A server that serves ranges, and a file of at least 16384 bytes: when all output files can be opened,
-- every byte of the file is in the range of exactly one of the requests that are made, no request
-- asks for a byte behind the end, and the downloader waits for four pieces.
pub on_header_done_lem :
    (opens : Bool) (size : ℕ) (d : Downloader)
    → d.accept_ranges ≡ true
    → d.length_ ≡ pos size
    → d.pieces ≡ []
    → 16384 ≤ size
    → ((k : ℕ)
        → times k (on_header_done (λ _. true) opens d).pieces ≡ (if ltb k size then 1 else 0))
      × ((on_header_done (λ _. true) opens d).concurrent ≡ pos 4)
on_header_done_lem opens size d ranges sized fresh big =
    let e = on_header_done-pieces opens size d ranges sized big in
    let made : (on_header_done (λ _. true) opens d).pieces ≡ all_ranges size =
      ap (λ (x : Downloader). x.pieces) e ∙ ap (λ (ps : List Range). ps ++ all_ranges size) fresh in
    let q = size / 4 in
    (
      λ k. ap (times k) made ∙ times-range size k q (omega arith) (omega arith) (omega arith),
      ap (λ (x : Downloader). x.concurrent) e,
    )
