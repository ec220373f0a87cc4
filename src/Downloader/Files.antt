-- ===== src/Downloader/Files.antt =====
-- The pieces of download.cc while libcurl brings their data.
use simplev.Prelude.{
  ℕ, zero, suc, ◌+◌, ◌-◌, ◌*◌, ◌/◌, ◌≡◌, ◌≤◌, refl, sym, ap, ◌∙◌, Bool, true, false, List, [], ◌∷◌,
  ◌++◌, length, take, drop, arith, ◌==◌, leb, if◌then◌else◌, append_assoc, append-nil,
  take-append-drop, take_all, length-drop,
}
use simplev.Prelude.Int.{pos}
use simplev.Downloader.{Downloader, Range, range, on_header_done, on_download_done}
use simplev.Downloader.Ranges.{all_ranges, on_header_done-pieces}
use simplev.Downloader.Counting.{downloads_done, downloads_done_lem}

-- `out` is the file, `asked` the range of the request, and `requesting` whether `req_` is set.
pub record Piece : Type 0 where
  pub asked : Range
  pub requesting : Bool
  pub out : List ℕ

abbrev pub make_piece : Range → Piece
make_piece range_ = record { asked = range_; requesting = true; out = [] }

abbrev pub on_data : List ℕ → Piece → Piece
on_data bytes p = record p { out = p.out ++ bytes }

-- `Piece::onDone`, without its `doneCb_`.
abbrev pub on_done : Piece → Piece
on_done p = record p { requesting = false }

-- The downloader, and its pieces in the order in which they were made.
pub record Download : Type 0 where
  pub downloader : Downloader
  pub pieces : List Piece

abbrev pub make_all : List Range → List Piece
make_all [] = []
make_all (r ∷ rs) = make_piece r ∷ make_all rs

-- The pieces that the downloader made.
abbrev pub begin_download : Downloader → Download
begin_download d = record { downloader = d; pieces = make_all d.pieces }

-- Data for the request of the piece with a number, or its end.
pub data Event : Type 0 where
  data_ : ℕ → List ℕ → Event
  done : ℕ → Event

-- The callback of the piece with a number, if there is one; `j` is the number of the first piece.
abbrev pub at_piece : ℕ → (Piece → Piece) → ℕ → List Piece → List Piece
at_piece i f j [] = []
at_piece i f j (p ∷ ps) = (if j == i then f p else p) ∷ at_piece i f (suc j) ps

unfoldable pub step : Event → Download → Download
step (data_ i bytes) s = record s { pieces = at_piece i (on_data bytes) 0 s.pieces }
step (done i) s = record {
  downloader = on_download_done s.downloader;
  pieces = at_piece i on_done 0 s.pieces;
}

unfoldable pub steps : List Event → Download → Download
unfolding step
steps [] s = s
steps (e ∷ es) s = steps es (step e s)

-- What libcurl brings for the piece `i`, and how many requests end.
abbrev pub received : ℕ → List Event → List ℕ
received i [] = []
received i (data_ j bytes ∷ es) = (if i == j then bytes else []) ++ received i es
received i (done j ∷ es) = received i es

abbrev pub dones : List Event → ℕ
dones [] = 0
dones (data_ j bytes ∷ es) = dones es
dones (done j ∷ es) = suc (dones es)

-- The bytes of a range.
abbrev pub slice : Range → List ℕ → List ℕ
slice r content = take (r.last + 1 - r.first) (drop r.first content)

-- Each piece, from number `j` on, is brought the bytes of the range that its request asked for.
abbrev pub AreServed : List ℕ → List Event → ℕ → List Piece → Type 0
AreServed content es j [] = Unit {0}
AreServed content es j (p ∷ ps) =
    (received j es ≡ slice p.asked content) × AreServed content es (suc j) ps

-- The files, one behind the other.
abbrev pub files : List Piece → List ℕ
files [] = []
files (p ∷ ps) = p.out ++ files ps

-- The files after some events: what was there, and what came for each.
abbrev filled : List Event → ℕ → List Piece → List ℕ
filled es j [] = []
filled es j (p ∷ ps) = (p.out ++ received j es) ++ filled es (suc j) ps

filled_none : (j : ℕ) (ps : List Piece) → filled [] j ps ≡ files ps
filled_none j [] = refl
filled_none j (p ∷ ps) =
    ap (λ t. t ++ filled [] (suc j) ps) (append-nil p.out)
    ∙ ap (◌++◌ p.out) (filled_none (suc j) ps)

out-on_data :
    (b : Bool) (bytes : List ℕ) (p : Piece)
    → (if b then on_data bytes p else p).out ≡ p.out ++ (if b then bytes else [])
out-on_data true bytes p = refl
out-on_data false bytes p = sym (append-nil p.out)

out-on_done : (b : Bool) (p : Piece) → (if b then on_done p else p).out ≡ p.out
out-on_done true p = refl
out-on_done false p = refl

filled-on_data :
    (i : ℕ) (bytes : List ℕ) (es : List Event) (j : ℕ) (ps : List Piece)
    → filled es j (at_piece i (on_data bytes) j ps) ≡ filled (data_ i bytes ∷ es) j ps
filled-on_data i bytes es j [] = refl
filled-on_data i bytes es j (p ∷ ps) =
    let more = filled es (suc j) (at_piece i (on_data bytes) (suc j) ps) in
    ap (λ t. (t ++ received j es) ++ more) (out-on_data (j == i) bytes p)
    ∙ (ap (λ t. t ++ more) (append_assoc p.out (if j == i then bytes else []) (received j es))
        ∙ ap (◌++◌ (p.out ++ received j (data_ i bytes ∷ es)))
            (filled-on_data i bytes es (suc j) ps))

filled-on_done :
    (i : ℕ) (es : List Event) (j : ℕ) (ps : List Piece)
    → filled es j (at_piece i on_done j ps) ≡ filled (done i ∷ es) j ps
filled-on_done i es j [] = refl
filled-on_done i es j (p ∷ ps) =
    let more = filled es (suc j) (at_piece i on_done (suc j) ps) in
    ap (λ t. (t ++ received j es) ++ more) (out-on_done (j == i) p)
    ∙ ap (◌++◌ (p.out ++ received j es)) (filled-on_done i es (suc j) ps)

-- The file of each piece gets what came for it, whatever comes between.
files-steps : (es : List Event) (s : Download) → files (steps es s).pieces ≡ filled es 0 s.pieces
unfolding steps
files-steps [] s = sym (filled_none 0 s.pieces)
files-steps (data_ i bytes ∷ es) s =
    files-steps es (record s { pieces = at_piece i (on_data bytes) 0 s.pieces })
    ∙ filled-on_data i bytes es 0 s.pieces
files-steps (done i ∷ es) s =
    files-steps es (record {
      downloader = on_download_done s.downloader;
      pieces = at_piece i on_done 0 s.pieces;
    })
    ∙ filled-on_done i es 0 s.pieces

downloader-steps :
    (es : List Event) (s : Download)
    → (steps es s).downloader ≡ downloads_done (dones es) s.downloader
unfolding steps downloads_done
downloader-steps [] s = refl
downloader-steps (data_ i bytes ∷ es) s =
    downloader-steps es (record s { pieces = at_piece i (on_data bytes) 0 s.pieces })
downloader-steps (done i ∷ es) s =
    downloader-steps es (record {
      downloader = on_download_done s.downloader;
      pieces = at_piece i on_done 0 s.pieces;
    })

-- The parts of a file that ranges ask for.
abbrev parts : List Range → List ℕ → List ℕ
parts [] content = []
parts (r ∷ rs) content = slice r content ++ parts rs content

filled-parts :
    (content : List ℕ) (es : List Event) (j : ℕ) (rs : List Range)
    → AreServed content es j (make_all rs)
    → filled es j (make_all rs) ≡ parts rs content
filled-parts content es j [] served = refl
filled-parts content es j (r ∷ rs) served =
    ap (λ t. t ++ filled es (suc j) (make_all rs)) served.0
    ∙ ap (◌++◌ (slice r content)) (filled-parts content es (suc j) rs served.1)

drop_none : (n : ℕ) → drop {A = ℕ} n [] ≡ []
drop_none zero = refl
drop_none (suc n) = refl

drop-drop : (a b : ℕ) (xs : List ℕ) → drop b (drop a xs) ≡ drop (a + b) xs
drop-drop zero b xs = ap (λ n. drop n xs) (omega arith)
drop-drop (suc a) b [] = drop_none b ∙ sym (drop_none (suc a + b))
drop-drop (suc a) b (x ∷ xs) = drop-drop a b xs ∙ ap (λ n. drop n (x ∷ xs)) (shift a b)
  where
    shift : (m n : ℕ) → suc (m + n) ≡ suc m + n
    shift m n = omega arith

-- A part and what is behind it.
part_join :
    (a b c : ℕ) (xs ys : List ℕ) → a + b ≡ c → ys ≡ drop c xs → take b (drop a xs) ++ ys ≡ drop a xs
part_join a b c xs ys sum e =
    ap (◌++◌ (take b (drop a xs))) (e ∙ (ap (λ n. drop n xs) (sym sum) ∙ sym (drop-drop a b xs)))
    ∙ take-append-drop b (drop a xs)

slice_at :
    (r : Range) (a b : ℕ) (xs : List ℕ)
    → r.first ≡ a
    → r.last + 1 - r.first ≡ b
    → slice r xs ≡ take b (drop a xs)
slice_at r a b xs e f = ap (λ n. take n (drop r.first xs)) f ∙ ap (λ n. take b (drop n xs)) e

-- The four ranges of a file, one behind the other.
slices :
    (xs : List ℕ)
    → 16384 ≤ length xs
    → slice (range (length xs) 0) xs
        ++ (slice (range (length xs) 1) xs
            ++ (slice (range (length xs) 2) xs ++ slice (range (length xs) 3) xs))
      ≡ xs
slices xs big =
    let size = length xs in
    let q = size / 4 in
    let s₀ = slice_at (range size 0) 0 q xs (omega arith) (omega arith) in
    let s₁ = slice_at (range size 1) q q xs (omega arith) (omega arith) in
    let s₂ = slice_at (range size 2) (q + q) q xs (omega arith) (omega arith) in
    let s₃ = slice_at (range size 3) (q + q + q) (size - 3 * q) xs (omega arith) (omega arith) in
    let end =
      take_all (size - 3 * q) (drop (q + q + q) xs) (omega (arith, length-drop (q + q + q) xs)) in
    rw (s₀, s₁, s₂, s₃)
      (part_join 0 q q xs _ (omega arith)
        (part_join q q (q + q) xs _ refl (part_join (q + q) q (q + q + q) xs _ refl end)))

parts_whole : (xs : List ℕ) → 16384 ≤ length xs → parts (all_ranges (length xs)) xs ≡ xs
parts_whole xs big =
    let size = length xs in
    ap (λ t. slice (range size 0) xs ++ (slice (range size 1) xs ++ (slice (range size 2) xs ++ t)))
      (append-nil (slice (range size 3) xs))
    ∙ slices xs big

-- A server that serves ranges, a file of at least 16384 bytes, output files that can be opened, and
-- events of libcurl in any order that bring to each piece that was made the bytes of the range that
-- its request asked for, in parts of any size: the output files, one behind the other, are the
-- file; and the loop is told to quit exactly when four requests are done.
pub steps-on_header_done :
    (opens : Bool) (content : List ℕ) (d : Downloader) (es : List Event)
    → d.accept_ranges ≡ true
    → d.length_ ≡ pos (length content)
    → d.pieces ≡ []
    → d.has_quit ≡ false
    → 16384 ≤ length content
    → AreServed content es 0 (begin_download (on_header_done (λ _. true) opens d)).pieces
    → let s = steps es (begin_download (on_header_done (λ _. true) opens d)) in
      (files s.pieces ≡ content) × (s.downloader.has_quit ≡ leb 4 (dones es))
steps-on_header_done opens content d es ranges sized fresh going big served =
    let d₁ = on_header_done (λ _. true) opens d in
    let e = on_header_done-pieces opens (length content) d ranges sized big in
    let made : d₁.pieces ≡ all_ranges (length content) =
      ap (λ (x : Downloader). x.pieces) e
      ∙ ap (λ (ps : List Range). ps ++ all_ranges (length content)) fresh in
    (
      files-steps es (begin_download d₁)
          ∙ (filled-parts content es 0 d₁.pieces served
              ∙ (ap (λ rs. parts rs content) made ∙ parts_whole content big)),
      ap (λ (x : Downloader). x.has_quit) (downloader-steps es (begin_download d₁))
          ∙ downloads_done_lem (dones es) 3 d₁ (ap (λ (x : Downloader). x.concurrent) e)
              (ap (λ (x : Downloader). x.has_quit) e ∙ going),
    )
