-- ===== src/Buffer/Back.antt =====
-- `append` of Buffer.h and `readFd` of Buffer.cc: bytes put behind the readable ones.
use simplev.Prelude.{
  ℕ, ◌+◌, ◌-◌, ◌≤◌, ◌<◌, ◌≡◌, sym, ap, ◌∙◌, inl, inr, List, ◌++◌, true, length, take, drop, arith,
  append_assoc, length-append, length-take, length-drop, ok, write_at, write_at_lem, leb, leb→le,
  Bool-cases, add_size, ◌>>=◌, take-append-drop, take_all,
}
use simplev.Buffer.{
  Buffer, writable_bytes, max_size, extra_size, append, has_written, read_fd, received, bytes_read,
}
use simplev.Buffer.Contents.{IsValid, contents, Layout, layout, contents-Layout, length-Layout}
use simplev.Buffer.Space.{Yields, ensure_writable_bytes_lem}

append-Layout :
    {b : Buffer} (xs str : List ℕ)
    → IsValid b
    → (l : Layout b xs) → length str ≤ length l.after
    → let b' = record b {
      bytes = (l.before ++ xs) ++ (str ++ drop (length str) l.after);
      writer_index = b.writer_index + length str;
    } in
      (write_at b.bytes b.writer_index str ≡ ok b'.bytes) × IsValid b' × (contents b' ≡ xs ++ str)
append-Layout {b} xs str v l h = (
  ap (λ (bs : List ℕ). write_at bs b.writer_index str)
        (l.parts ∙ sym (append_assoc l.before xs l.after))
      ∙ write_at_lem b.writer_index (l.before ++ xs) str l.after
          (omega (arith, length-append l.before xs, l.starts, l.ends)) h,
  omega (
    arith,
    length-Layout b xs l,
    length-append (l.before ++ xs) (str ++ drop (length str) l.after),
    length-append l.before xs,
    length-append str (drop (length str) l.after),
    length-drop (length str) l.after,
    l.starts,
    l.ends,
  ),
  contents-Layout _ (xs ++ str) (record {
    before = l.before;
    after = drop (length str) l.after;
    parts = simp append_assoc;
    starts = l.starts;
    ends = omega (arith, l.ends, length-append xs str);
  }),
)

-- `append` puts the bytes behind the readable ones, moving or growing the vector where needed; it
-- never faults while the result fits into a vector.
pub append_lem :
    {b : Buffer} (str : List ℕ)
    → IsValid b
    → b.writer_index + length str ≤ max_size
    → Yields (append str b) (contents b ++ str)
unfolding append has_written
append_lem {b} str v s =
    let (b', e, v', c, room) = ensure_writable_bytes_lem (length str) v s in
    let l = layout v' in
    let (w, v'', c'') =
      append-Layout (contents b') str v' l (omega (arith, length-Layout b' (contents b') l)) in
    let i : add_size b'.writer_index (length str) ≡ b'.writer_index + length str = omega arith in
    (_, rw (e, ◌>>=◌, w, i), v'', c'' ∙ ap (λ (t : List ℕ). t ++ str) c)

-- The first part of a long reply fills the vector.
fill_lem :
    {b : Buffer} (xs : List ℕ)
    → IsValid b
    → writable_bytes b < length xs
    → (bytes : List ℕ) × (write_at b.bytes b.writer_index (take (writable_bytes b) xs) ≡ ok bytes)
      × IsValid (record b { bytes = bytes; writer_index = length bytes })
      × (contents (record b { bytes = bytes; writer_index = length bytes })
          ≡ contents b ++ take (writable_bytes b) xs)
      × (length bytes ≡ length b.bytes)
fill_lem {b} xs v gt =
    let l = layout v in
    let part = take (writable_bytes b) xs in
    let n = length-take (writable_bytes b) xs in
    let after_eq = length-Layout b (contents b) l in
    let (w, v', c) = append-Layout (contents b) part v l (omega (arith, n, after_eq)) in
    let len : length ((l.before ++ contents b) ++ (part ++ drop (length part) l.after))
        ≡ length b.bytes =
      omega (
        arith,
        after_eq,
        n,
        length-append (l.before ++ contents b) (part ++ drop (length part) l.after),
        length-append l.before (contents b),
        length-append part (drop (length part) l.after),
        length-drop (length part) l.after,
        l.starts,
        l.ends,
      ) in
    let e : b.writer_index + length part
        ≡ length ((l.before ++ contents b) ++ (part ++ drop (length part) l.after)) =
      omega (arith, len, n) in
    (_, w, rw (← e) v', rw (← e) c, len)

-- `readFd` appends exactly the bytes that `readv` delivered, also those that went to `extrabuf`, and
-- reports their number, as long as the kernel keeps to the two blocks that it was given and the result
-- fits into a vector.
pub read_fd_lem :
    {b : Buffer} (xs : List ℕ)
    → IsValid b
    → length xs ≤ writable_bytes b + extra_size
    → b.writer_index + length xs ≤ max_size
    → (b' : Buffer) × (read_fd (received xs) b ≡ ok (bytes_read (length xs), b'))
      × IsValid b'
      × (contents b' ≡ contents b ++ xs)
unfolding read_fd has_written
read_fd_lem {b} xs v h s = elim (Bool-cases (leb (length xs) (writable_bytes b))) [
  | inl t ↦
      let le : length xs ≤ writable_bytes b = leb→le (length xs) (writable_bytes b) t in
      let l = layout v in
      let (w, v', c) =
        append-Layout (contents b) xs v l (omega (arith, length-Layout b (contents b) l)) in
      let i : add_size b.writer_index (length xs) ≡ b.writer_index + length xs = omega arith in
      let z : leb (length xs - writable_bytes b) extra_size ≡ true = ground arith in
      (_, rw (take_all (writable_bytes b) xs le, w, ◌>>=◌, z, t, i), v', c)
  | inr t ↦
      let gt : writable_bytes b < length xs = ground arith in
      let (bytes, w, v', c, len) = fill_lem xs v gt in
      let left = length-drop (writable_bytes b) xs in
      let z : leb (length xs - writable_bytes b) extra_size ≡ true = ground arith in
      let (b', e, v'', c') =
        append_lem (drop (writable_bytes b) xs) v' (omega (arith, len, left)) in
      (
        b',
        rw (w, ◌>>=◌, z, t, e),
        v'',
        c'
            ∙ (ap (λ (t' : List ℕ). t' ++ drop (writable_bytes b) xs) c
                ∙ (append_assoc (contents b) (take (writable_bytes b) xs)
                      (drop (writable_bytes b) xs)
                    ∙ ap (◌++◌ (contents b)) (take-append-drop (writable_bytes b) xs))),
      )
]
