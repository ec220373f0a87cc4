-- ===== src/Buffer/Space.antt =====
-- `makeSpace` and `ensureWritableBytes` of Buffer.h: room behind the readable bytes.
use simplev.Prelude.{
  ℕ, ◌+◌, ◌-◌, ◌≤◌, ◌<◌, ◌≡◌, refl, ap, ◌∙◌, inl, inr, List, ◌++◌, true, false, length, take, drop,
  replicate, arith, append_assoc, length-append, length-take, length-drop, Result, ok, read_at,
  read_at_lem, write_at-ok, resize, resize_grow, length-resize, ltb, Bool-cases, ltb→lt, not-ltb→le,
  add_size,
}
use simplev.Buffer.{
  Buffer, readable_bytes, writable_bytes, peek_all, cheap_prepend, max_size, make_space,
  ensure_writable_bytes,
}
use simplev.Buffer.Contents.{IsValid, contents, Layout, layout, contents-Layout, length-contents}

-- A run that ends in a well-formed buffer with the readable bytes `xs`.
abbrev pub Yields : Result Buffer → List ℕ → Type 0
Yields m xs = (b : Buffer) × (m ≡ ok b) × IsValid b × (contents b ≡ xs)

-- The same, with room for `len` more bytes.
abbrev pub MakesRoom : Result Buffer → List ℕ → ℕ → Type 0
MakesRoom m xs len =
    (b : Buffer) × (m ≡ ok b)
    × IsValid b
    × (contents b ≡ xs)
    × (b.writer_index + len ≤ length b.bytes)

pub peek_all-contents : {b : Buffer} → IsValid b → peek_all b ≡ ok (contents b)
unfolding peek_all
peek_all-contents {b} v =
    let l = layout v in
    ap (λ (bs : List ℕ). read_at bs b.reader_index (readable_bytes b)) l.parts
    ∙ read_at_lem b.reader_index (readable_bytes b) l.before (contents b) l.after l.starts
        (omega (arith, length-contents v))

grown : Buffer → ℕ → Buffer
grown b len = record b { bytes = resize b.bytes (b.writer_index + len) 0 }

grown-contents :
    {b : Buffer} (len : ℕ)
    → IsValid b
    → length b.bytes ≤ b.writer_index + len
    → contents (grown b len) ≡ contents b
unfolding grown
grown-contents {b} len v h = contents-Layout (grown b len) (contents b) (record {
  before = l.before;
  after = l.after ++ fill;
  parts =
      resize_grow b.bytes (b.writer_index + len) 0 h
      ∙ (ap (λ (t : List ℕ). t ++ fill) l.parts
          ∙ (append_assoc l.before (contents b ++ l.after) fill
              ∙ ap (◌++◌ l.before) (append_assoc (contents b) l.after fill)));
  starts = l.starts;
  ends = l.ends;
})
  where
    l : Layout b (contents b)
    l = layout v

    fill : List ℕ
    fill = replicate (b.writer_index + len - length b.bytes) 0

moved : Buffer → Buffer
moved b = record {
  bytes =
      take cheap_prepend b.bytes
      ++ (contents b ++ drop (cheap_prepend + length (contents b)) b.bytes);
  reader_index = cheap_prepend;
  writer_index = cheap_prepend + length (contents b);
}

moved-contents : {b : Buffer} → IsValid b → contents (moved b) ≡ contents b
unfolding moved
moved-contents {b} v = contents-Layout (moved b) (contents b) (record {
  before = take cheap_prepend b.bytes;
  after = drop (cheap_prepend + length (contents b)) b.bytes;
  parts = refl;
  starts = omega (arith, length-take cheap_prepend b.bytes, v.roomy);
  ends = refl;
})

grown-IsValid :
    {b : Buffer} (len : ℕ)
    → IsValid b
    → length b.bytes ≤ b.writer_index + len
    → b.writer_index + len ≤ max_size
    → IsValid (grown b len)
unfolding grown
grown-IsValid {b} len v h s = omega (arith, length-resize b.bytes (b.writer_index + len) 0)

length-moved :
    {b : Buffer}
    → IsValid b
    → cheap_prepend + length (contents b) ≤ length b.bytes
    → length (moved b).bytes ≡ length b.bytes
unfolding moved
length-moved {b} v h = omega (
  arith,
  length-append (take cheap_prepend b.bytes)
      (contents b ++ drop (cheap_prepend + length (contents b)) b.bytes),
  length-append (contents b) (drop (cheap_prepend + length (contents b)) b.bytes),
  length-take cheap_prepend b.bytes,
  length-drop (cheap_prepend + length (contents b)) b.bytes,
)

make_space_grows :
    {b : Buffer} (len : ℕ)
    → IsValid b
    → b.writer_index + len ≤ max_size
    → ltb (add_size (writable_bytes b) b.reader_index) (add_size len cheap_prepend) ≡ true
    → make_space len b ≡ ok (grown b len)
unfolding make_space grown
make_space_grows {b} len v s t =
    let e : add_size b.writer_index len ≡ b.writer_index + len = omega arith in
    rw (t, e) (ground arith)

make_space_moves :
    {b : Buffer} (len : ℕ)
    → IsValid b
    → ltb (add_size (writable_bytes b) b.reader_index) (add_size len cheap_prepend) ≡ false
    → cheap_prepend < b.reader_index
    → make_space len b ≡ ok (moved b)
unfolding make_space moved peek_all
make_space_moves {b} len v t h =
    ground (
      arith,
      peek_all-contents v,
      length-contents v,
      write_at-ok b.bytes cheap_prepend (contents b),
    )

grown-room : (b : Buffer) (len : ℕ) → (grown b len).writer_index + len ≤ length (grown b len).bytes
unfolding grown
grown-room b len = omega (arith, length-resize b.bytes (b.writer_index + len) 0)

-- When the free parts suffice together, the readable bytes stand past the cheap prepend.
movable :
    {b : Buffer} (len : ℕ)
    → IsValid b
    → length b.bytes < b.writer_index + len
    → b.writer_index + len ≤ max_size
    → ltb (add_size (writable_bytes b) b.reader_index) (add_size len cheap_prepend) ≡ false
    → (cheap_prepend < b.reader_index)
      × (cheap_prepend + length (contents b) + len ≤ length b.bytes)
movable {b} len v h s t = omega (
  arith,
  length-contents v,
  not-ltb→le (add_size (writable_bytes b) b.reader_index) (add_size len cheap_prepend) t,
)

moved-MakesRoom :
    {b : Buffer} (len : ℕ)
    → IsValid b
    → cheap_prepend + length (contents b) + len ≤ length b.bytes
    → IsValid (moved b) × ((moved b).writer_index + len ≤ length (moved b).bytes)
moved-MakesRoom {b} len v h = let e = length-moved v (omega arith) in unfold moved in omega arith

-- `makeSpace` is called when the room is too small; the vector may then grow to its limit.
pub make_space_lem :
    {b : Buffer} (len : ℕ)
    → IsValid b
    → length b.bytes < b.writer_index + len
    → b.writer_index + len ≤ max_size
    → MakesRoom (make_space len b) (contents b) len
make_space_lem {b} len v h s =
    elim (Bool-cases
      (ltb (add_size (writable_bytes b) b.reader_index) (add_size len cheap_prepend))) [
        | inl t ↦ (
          grown b len,
          make_space_grows len v s t,
          grown-IsValid len v (omega arith) s,
          grown-contents len v (omega arith),
          grown-room b len,
        )
        | inr t ↦ (
          moved b,
          make_space_moves len v t (movable len v h s t).0,
          (moved-MakesRoom len v (movable len v h s t).1).0,
          moved-contents v,
          (moved-MakesRoom len v (movable len v h s t).1).1,
        )
      ]

-- `ensureWritableBytes` makes room for `len` bytes and keeps the readable ones; no assertion fails.
pub ensure_writable_bytes_lem :
    {b : Buffer} (len : ℕ)
    → IsValid b
    → b.writer_index + len ≤ max_size
    → MakesRoom (ensure_writable_bytes len b) (contents b) len
unfolding ensure_writable_bytes
ensure_writable_bytes_lem {b} len v s = elim (Bool-cases (ltb (writable_bytes b) len)) [
  | inl t ↦
      let (b', e, v', c, r) =
        make_space_lem len v (omega (arith, ltb→lt (writable_bytes b) len t)) s in
      (b', ground arith, v', c, r)
  | inr t ↦ (b, ground arith, v, refl, omega (arith, not-ltb→le (writable_bytes b) len t))
]
