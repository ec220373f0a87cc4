-- ===== src/Buffer/Front.antt =====
-- `retrieve`, `retrieveUntil`, `retrieveAsString` and `prepend` of Buffer.h: the front of the readable
-- bytes.
use simplev.Prelude.{
  ℕ, ◌+◌, ◌-◌, ◌≤◌, ◌<◌, ◌≡◌, refl, sym, ap, ◌∙◌, ◌⊎◌, inl, inr, List, [], ◌++◌, true, length, take,
  drop, arith, append_assoc, length-append, length-take, length-drop, ok, err, assertion,
  write_at-ok, leb, leb→le, Bool-cases, add_size, sub_size, take-append-drop, drop-append_length,
}
use simplev.Buffer.{
  Buffer, readable_bytes, retrieve, retrieve_until, retrieve_all, retrieve_as_string, prepend,
}
use simplev.Buffer.Contents.{IsValid, contents, Layout, layout, contents-Layout, length-contents}
use simplev.Buffer.Space.{Yields, peek_all-contents}

drop-Layout :
    {b : Buffer} (n : ℕ)
    → IsValid b
    → n ≤ length (contents b)
    → contents (record b { reader_index = b.reader_index + n }) ≡ drop n (contents b)
drop-Layout {b} n v h =
    contents-Layout (record b { reader_index = b.reader_index + n }) (drop n (contents b))
      (record {
        before = l.before ++ take n (contents b);
        after = l.after;
        parts =
            l.parts
            ∙ (ap (λ (t : List ℕ). l.before ++ (t ++ l.after))
                  (sym (take-append-drop n (contents b)))
                ∙ (ap (◌++◌ l.before)
                      (append_assoc (take n (contents b)) (drop n (contents b)) l.after)
                    ∙ sym (
                        append_assoc l.before (take n (contents b))
                          (drop n (contents b) ++ l.after))));
        starts = omega (
          arith,
          length-append l.before (take n (contents b)),
          length-take n (contents b),
          l.starts,
        );
        ends = omega (arith, length-drop n (contents b), l.ends);
      })
  where
    l : Layout b (contents b)
    l = layout v

-- `retrieve` of at most the readable bytes takes that many from the front and keeps the buffer
-- well-formed; of more, its assertion fails.
pub retrieve_lem :
    {b : Buffer} (n : ℕ)
    → IsValid b
    → ((n ≤ length (contents b)) × Yields (retrieve n b) (drop n (contents b)))
      ⊎ ((length (contents b) < n) × (retrieve n b ≡ err assertion))
unfolding retrieve
retrieve_lem {b} n v = elim (Bool-cases (leb n (readable_bytes b))) [
  | inl t ↦
      let h : n ≤ length (contents b) =
        omega (arith, leb→le n (readable_bytes b) t, length-contents v) in
      let e : add_size b.reader_index n ≡ b.reader_index + n = omega (arith, length-contents v) in
      inl (
        h,
        (
          record b { reader_index = b.reader_index + n },
          rw (t, e),
          omega (arith, length-contents v),
          drop-Layout n v h,
        ),
      )
  | inr t ↦ inr (ground (arith, length-contents v), rw t)
]

-- `retrieveAsString` returns all readable bytes and leaves none; it never faults.
pub retrieve_as_string_lem :
    {b : Buffer}
    → IsValid b
    → (retrieve_as_string b ≡ ok (contents b, retrieve_all b))
      × IsValid (retrieve_all b)
      × (contents (retrieve_all b) ≡ [])
unfolding retrieve_as_string retrieve_all
retrieve_as_string_lem {b} v = (rw (peek_all-contents v), omega arith, refl)

prepended : Buffer → List ℕ → Buffer
prepended b str = record b {
  bytes =
      take (b.reader_index - length str) b.bytes
      ++ (str ++ drop (b.reader_index - length str + length str) b.bytes);
  reader_index = b.reader_index - length str;
}

prepended-contents :
    {b : Buffer} (str : List ℕ)
    → IsValid b
    → length str ≤ b.reader_index
    → contents (prepended b str) ≡ str ++ contents b
unfolding prepended
prepended-contents {b} str v h = contents-Layout (prepended b str) (str ++ contents b) (record {
  before = take (b.reader_index - length str) b.bytes;
  after = l.after;
  parts =
      ap (λ (t : List ℕ). take (b.reader_index - length str) b.bytes ++ (str ++ t)) rest
      ∙ sym (
          ap (◌++◌ (take (b.reader_index - length str) b.bytes))
            (append_assoc str (contents b) l.after));
  starts = omega (arith, length-take (b.reader_index - length str) b.bytes);
  ends = omega (arith, l.ends, length-append str (contents b));
})
  where
    l : Layout b (contents b)
    l = layout v

    rest : drop (b.reader_index - length str + length str) b.bytes ≡ contents b ++ l.after
    rest =
        ap (λ k. drop k b.bytes) (omega arith)
        ∙ (ap (drop b.reader_index) l.parts
            ∙ drop-append_length b.reader_index l.before (contents b ++ l.after) l.starts)

prepend-ok :
    {b : Buffer} (str : List ℕ)
    → IsValid b
    → length str ≤ b.reader_index
    → prepend str b ≡ ok (prepended b str)
unfolding prepend prepended
prepend-ok {b} str v h =
    let e : sub_size b.reader_index (length str) ≡ b.reader_index - length str = omega arith in
    rw e (ground (arith, write_at-ok b.bytes (b.reader_index - length str) str))

prepend-IsValid :
    {b : Buffer} (str : List ℕ)
    → IsValid b
    → length str ≤ b.reader_index
    → IsValid (prepended b str)
unfolding prepended
prepend-IsValid {b} str v h = omega (
  arith,
  length-append (take (b.reader_index - length str) b.bytes)
      (str ++ drop (b.reader_index - length str + length str) b.bytes),
  length-append str (drop (b.reader_index - length str + length str) b.bytes),
  length-take (b.reader_index - length str) b.bytes,
  length-drop (b.reader_index - length str + length str) b.bytes,
)

-- `prepend` puts the bytes in front of the readable ones if the free part there is large enough;
-- otherwise its assertion fails.
pub prepend_lem :
    {b : Buffer} (str : List ℕ)
    → IsValid b
    → ((length str ≤ b.reader_index) × Yields (prepend str b) (str ++ contents b))
      ⊎ ((b.reader_index < length str) × (prepend str b ≡ err assertion))
unfolding prepend
prepend_lem {b} str v = elim (Bool-cases (leb (length str) b.reader_index)) [
  | inl t ↦
      let h : length str ≤ b.reader_index = leb→le (length str) b.reader_index t in
      inl (
        h,
        (prepended b str, prepend-ok str v h, prepend-IsValid str v h, prepended-contents str v h),
      )
  | inr t ↦ inr (ground arith, rw t)
]

-- `retrieveUntil` a position between `peek()` and `beginWrite()` drops the readable bytes before it;
-- at any other position an assertion fails.
pub retrieve_until_lem :
    {b : Buffer} (end : ℕ)
    → IsValid b
    → ((b.reader_index ≤ end)
        × (end ≤ b.writer_index)
        × Yields (retrieve_until end b) (drop (end - b.reader_index) (contents b)))
      ⊎ (((end < b.reader_index) ⊎ (b.writer_index < end)) × (retrieve_until end b ≡ err assertion))
unfolding retrieve_until retrieve
retrieve_until_lem {b} end v = elim (Bool-cases (leb b.reader_index end)) [
  | inr t ↦ inr (inl (ground arith), rw t)
  | inl t ↦ elim (Bool-cases (leb end b.writer_index)) [
    | inr u ↦ inr (inr (ground arith), rw (t, u))
    | inl u ↦
        let low : b.reader_index ≤ end = leb→le b.reader_index end t in
        let high : end ≤ b.writer_index = leb→le end b.writer_index u in
        let n : sub_size end b.reader_index ≡ end - b.reader_index = omega arith in
        let i : add_size b.reader_index (end - b.reader_index)
            ≡ b.reader_index + (end - b.reader_index) =
          omega arith in
        let z : leb (end - b.reader_index) (readable_bytes b) ≡ true = ground arith in
        inl (
          low,
          high,
          (
            record b { reader_index = b.reader_index + (end - b.reader_index) },
            rw (t, u, n, z, i),
            omega arith,
            drop-Layout (end - b.reader_index) v (omega (arith, length-contents v)),
          ),
        )
  ]
]
