-- ===== src/CurrentThread/Tid.antt =====
-- Which numbers of threads CurrentThread.h can keep.
use simplev.Prelude.{
  ℕ, ◌+◌, ◌≡◌, ◌≤◌, ◌<◌, refl, true, false, [], ◌∷◌, length, length-append, arith, ok, err,
  assertion, ◌==◌,
}
use simplev.LogStream.Printf.{padded, length-padded}
use simplev.CurrentThread.{CurrentThread, init, tid_text, cache_tid, tid}

pub length-tid_text : (n : ℕ) → length (tid_text n) ≡ length (padded b' ' 5 n) + 1
length-tid_text n = length-append (padded b' ' 5 n) (b' ' ∷ [])

-- A new thread whose number is not 0: with a number below 100000 it gets that number and keeps it with
-- a text of six characters, so that a second call gives the same, whatever the kernel would
-- answer then; with any other number the assertion in `cacheTid` fails.
pub tid_lem :
    (n again : ℕ)
    → 1 ≤ n
    → (n < 100000
        → (t : CurrentThread) × (tid n init ≡ ok (n, t))
          × (length t.tid_string ≡ 6)
          × (tid again t ≡ ok (n, t)))
      × (100000 ≤ n → tid n init ≡ err assertion)
unfolding tid cache_tid
tid_lem n again pos =
    let size = length-tid_text n in
    let (fits, longer) = length-padded b' ' 4 n in
    (
      λ small.
          let six : length (tid_text n) ≡ 6 = omega (arith, size, fits small) in
          let is_six : (length (tid_text n) == 6) ≡ true = ground (arith, six) in
          let kept : (n == 0) ≡ false = ground arith in
          (record { cached_tid = n; tid_string = tid_text n }, rw is_six refl, six, rw kept refl),
      λ big.
          let not_six : (length (tid_text n) == 6) ≡ false = ground (arith, size, longer big) in
          rw not_six refl,
    )
