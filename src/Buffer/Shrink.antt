-- ===== src/Buffer/Shrink.antt =====
-- `shrink` of Buffer.h: it copies the readable bytes to a new vector, and leaves the indices alone.
use simplev.Prelude.{
  ℕ, ◌+◌, ◌-◌, ◌≤◌, ◌≡◌, ◌↔◌, ap, ◌∙◌, List, ◌++◌, length, take, drop, replicate, arith,
  length-append, length-replicate, ok, write_at, ◌>>=◌, leb, true, write_at_lem, drop-append_ge,
  add_size, replicate-add, drop-replicate,
}
use simplev.Buffer.{Buffer, readable_bytes, cheap_prepend, max_size, shrink, peek_all}
use simplev.Buffer.Contents.{IsValid, contents, length-contents}
use simplev.Buffer.Space.{peek_all-contents}

-- The new vector.
pub shrunk : Buffer → ℕ → List ℕ
shrunk b reserve = replicate cheap_prepend 0 ++ (contents b ++ replicate reserve 0)

write-shrunk :
    (b : Buffer) (size reserve : ℕ)
    → size ≡ cheap_prepend + (length (contents b) + reserve)
    → write_at (replicate size 0) cheap_prepend (contents b) ≡ ok (shrunk b reserve)
unfolding shrunk
write-shrunk b size reserve e =
    let k = length (contents b) in
    ap (λ (bs : List ℕ). write_at bs cheap_prepend (contents b))
      (ap (λ n. replicate n 0) e ∙ replicate-add cheap_prepend (k + reserve) 0)
    ∙ (write_at_lem cheap_prepend (replicate cheap_prepend 0) (contents b)
          (replicate (k + reserve) 0) (length-replicate {A = ℕ} cheap_prepend 0)
          (omega (arith, length-replicate {A = ℕ} (k + reserve) 0))
        ∙ ap (λ (t : List ℕ). ok (replicate cheap_prepend 0 ++ (contents b ++ t)))
            (drop-replicate k (k + reserve) 0 ∙ ap (λ n. replicate n 0) (omega arith)))

length-shrunk :
    (b : Buffer) (reserve : ℕ)
    → length (shrunk b reserve) ≡ cheap_prepend + length (contents b) + reserve
unfolding shrunk
length-shrunk b reserve = omega (
  arith,
  length-append (replicate {A = ℕ} cheap_prepend 0) (contents b ++ replicate reserve 0),
  length-append (contents b) (replicate reserve 0),
  length-replicate {A = ℕ} reserve 0,
)

shrink-ok :
    {b : Buffer} (reserve : ℕ)
    → IsValid b
    → cheap_prepend + length (contents b) + reserve ≤ max_size
    → shrink reserve b ≡ ok (record b { bytes = shrunk b reserve })
unfolding shrink peek_all
shrink-ok {b} reserve v s =
    let size = add_size (add_size cheap_prepend (readable_bytes b)) reserve in
    let e : size ≡ cheap_prepend + (length (contents b) + reserve) =
      omega (arith, length-contents v) in
    let fits : leb size max_size ≡ true = ground arith in
    rw (fits, peek_all-contents v, ◌>>=◌, write-shrunk b size reserve e)

-- At a buffer whose reader stands at or past the cheap prepend, `shrink` drops as many readable
-- bytes from the front as the reader stands past it, and fills up with zeros of the reserve. The
-- result is well-formed exactly when the reserve is that large.
pub shrink_lem :
    {b : Buffer} (reserve : ℕ)
    → IsValid b
    → cheap_prepend ≤ b.reader_index
    → cheap_prepend + length (contents b) + reserve ≤ max_size
    → let b' = record b { bytes = shrunk b reserve } in
      (shrink reserve b ≡ ok b')
      × (contents b'
          ≡ take
              (length (contents b))
              (drop (b.reader_index - cheap_prepend) (contents b ++ replicate reserve 0)))
      × (IsValid b' ↔ (b.reader_index ≤ cheap_prepend + reserve))
unfolding shrunk
shrink_lem {b} reserve v low s = (
  shrink-ok reserve v s,
  ap (take (b.writer_index - b.reader_index)) (
        drop-append_ge b.reader_index (replicate cheap_prepend 0)
          (contents b ++ replicate reserve 0) low)
      ∙ ap (λ n. take n (drop (b.reader_index - cheap_prepend) (contents b ++ replicate reserve 0)))
          (omega (arith, length-contents v)),
  (
    (λ v'. omega (arith, v'.in_bounds, length-shrunk b reserve, length-contents v)),
    (λ h. omega (arith, length-shrunk b reserve, length-contents v)),
  ),
)
