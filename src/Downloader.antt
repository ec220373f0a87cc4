-- ===== src/Downloader.antt =====
-- simplev/src/simplev/cases/curl/download.cc: a file fetched over HTTP in four pieces at once, or in
-- one. Text is a list of bytes. libcurl calls the functions here; whether a file can be opened is an
-- argument. Requests that were made are kept, as the range that each asks for, and whether the loop was
-- told to quit. Files has the pieces, which write to files of their own.
pub mod Ranges
pub mod Counting
pub mod Files
mod Tests
use simplev.Prelude.{
  ℕ, zero, suc, ◌+◌, ◌-◌, ◌*◌, ◌/◌, Bool, true, false, ◌&&◌, ◌||◌, List, [], ◌∷◌, ◌++◌, length,
  take, drop, ◌==◌, ltb, leb, if◌then◌else◌,
}
use simplev.Prelude.Int.{ℤ, pos, negsuc, neg}

abbrev pub k_concurrent : ℕ
k_concurrent = 4

-- From the first byte to the last one.
pub record Range : Type 0 where
  pub first : ℕ
  pub last : ℕ

pub record Downloader : Type 0 where
  pub found : Bool
  pub accept_ranges : Bool
  pub length_ : ℤ
  pub pieces : List Range
  pub whole : Bool  -- `req2_` fetches the file in one piece
  pub concurrent : ℤ
  pub has_quit : Bool

abbrev pub init : Downloader
init = record {
  found = false;
  accept_ranges = false;
  length_ = pos 0;
  pieces = [];
  whole = false;
  concurrent = pos 0;
  has_quit = false;
}

unfoldable pub equal : List ℕ → List ℕ → Bool
equal [] [] = true
equal [] (y ∷ ys) = false
equal (x ∷ xs) [] = false
equal (x ∷ xs) (y ∷ ys) = (x == y) && equal xs ys

unfoldable pub start_with : List ℕ → List ℕ → Bool
unfolding equal
start_with str prefix = leb (length prefix) (length str) && equal (take (length prefix) str) prefix

-- `HTTP/1.1 200`
abbrev pub http_1_1_200 : List ℕ
http_1_1_200 = 72 ∷ 84 ∷ 84 ∷ 80 ∷ 47 ∷ 49 ∷ 46 ∷ 49 ∷ 32 ∷ 50 ∷ 48 ∷ 48 ∷ []

-- `HTTP/1.0 200`
abbrev pub http_1_0_200 : List ℕ
http_1_0_200 = 72 ∷ 84 ∷ 84 ∷ 80 ∷ 47 ∷ 49 ∷ 46 ∷ 48 ∷ 32 ∷ 50 ∷ 48 ∷ 48 ∷ []

-- `Accept-Ranges: bytes` and the end of the line
abbrev pub accept_ranges_bytes : List ℕ
accept_ranges_bytes =
    65 ∷ 99 ∷ 99 ∷ 101 ∷ 112 ∷ 116 ∷ 45 ∷ 82 ∷ 97 ∷ 110 ∷ 103 ∷ 101 ∷ 115 ∷ 58 ∷ 32 ∷ 98 ∷ 121 ∷ 116
    ∷ 101 ∷ 115 ∷ 13 ∷ 10 ∷ []

-- `Content-Length:`
abbrev pub content_length : List ℕ
content_length =
    67 ∷ 111 ∷ 110 ∷ 116 ∷ 101 ∷ 110 ∷ 116 ∷ 45 ∷ 76 ∷ 101 ∷ 110 ∷ 103 ∷ 116 ∷ 104 ∷ 58 ∷ []

abbrev is_digit : ℕ → Bool
is_digit c = leb 48 c && leb c 57

-- The digits from here on, after the number before them.
unfoldable pub digits : ℕ → List ℕ → ℕ
digits n [] = n
digits n (c ∷ cs) = let rest = digits (10 * n + (c - 48)) cs in if is_digit c then rest else n

abbrev is_space : ℕ → Bool
is_space c = (c == 32) || (leb 9 c && leb c 13)

abbrev signed : List ℕ → ℤ
signed [] = pos 0
signed (c ∷ cs) =
    if c == 45
    then neg (digits 0 cs)
    else if c == 43
    then pos (digits 0 cs)
    else pos (digits 0 (c ∷ cs))

-- `atoll` of the C library, for numbers that fit.
unfoldable pub atoll : List ℕ → ℤ
unfolding digits
atoll [] = signed []
atoll (c ∷ cs) = let rest = atoll cs in if is_space c then rest else signed (c ∷ cs)

abbrev see_status : List ℕ → Downloader → Downloader
see_status line d =
    if start_with line http_1_1_200 || start_with line http_1_0_200
    then record d { found = true }
    else d

unfoldable pub on_header : List ℕ → Downloader → Downloader
unfolding start_with atoll
on_header line d =
    let d' = see_status line d in
    if equal line accept_ranges_bytes
    then record d' { accept_ranges = true }
    else if start_with line content_length
    then record d' { length_ = atoll (drop (length content_length) line) }
    else d'

abbrev pub quit : Downloader → Downloader
quit d = record d { has_quit = true }

-- The range of the piece with number `i` of a file of `size` bytes.
abbrev pub range : ℕ → ℕ → Range
range size i =
    let piece_len = size / k_concurrent in
    if ltb i (k_concurrent - 1)
    then record { first = i * piece_len; last = (i + 1) * piece_len - 1 }
    else record { first = i * piece_len; last = size - 1 }

-- The pieces from number `i` on, `n` of them. `opens` says whether the file of a piece can be opened.
unfoldable pub make_pieces : (ℕ → Bool) → ℕ → ℕ → ℕ → Downloader → Downloader
make_pieces opens size i zero d = d
make_pieces opens size i (suc n) d =
    make_pieces opens size (1 + i) n
      (if opens i then record d { pieces = d.pieces ++ range size i ∷ [] } else quit d)

unfoldable pub concurrent_download : (ℕ → Bool) → ℕ → Downloader → Downloader
unfolding make_pieces
concurrent_download opens size d = make_pieces opens size 0 k_concurrent d

-- One piece for the whole file, or nothing to download.
abbrev pub single_download : Bool → Downloader → Downloader
single_download opens d =
    if d.found
    then (if opens then record d { whole = true; concurrent = pos 1 } else quit d)
    else quit d

abbrev pub start_download : (ℕ → Bool) → Bool → ℤ → Downloader → Downloader
start_download opens opens_output (pos size) d =
    if d.accept_ranges && leb (k_concurrent * 4096) size
    then concurrent_download opens size (record d { concurrent = pos k_concurrent })
    else single_download opens_output d
start_download opens opens_output _ d = single_download opens_output d

unfoldable pub on_header_done : (ℕ → Bool) → Bool → Downloader → Downloader
unfolding concurrent_download
on_header_done opens opens_output d = start_download opens opens_output d.length_ d

-- `--concurrent_`
abbrev pub decrement : ℤ → ℤ
decrement (pos (suc n)) = pos n
decrement (pos zero) = negsuc zero
decrement (negsuc n) = negsuc (suc n)

abbrev pub is_positive : ℤ → Bool
is_positive (pos (suc n)) = true
is_positive _ = false

unfoldable pub on_download_done : Downloader → Downloader
on_download_done d =
    let d' = record d { concurrent = decrement d.concurrent } in
    if is_positive d'.concurrent then d' else quit d'
