-- ===== src/Buffer/Contents.antt =====
-- The well-formed buffers of Buffer.h, and the readable bytes of one.
use simplev.Prelude.{
  ℕ, [], refl, ◌+◌, ◌-◌, ◌≤◌, ◌≡◌, List, ◌++◌, length, take, drop, arith, length-append,
  length-take, length-drop, length-replicate, take-append-drop, take-append_length,
  drop-append_length, ap, ◌∙◌, sym,
}
use simplev.Buffer.{Buffer, init, readable_bytes, cheap_prepend, initial_size, max_size}

pub record IsValid (b : Buffer) : Type 0 where
  pub ordered : b.reader_index ≤ b.writer_index
  pub in_bounds : b.writer_index ≤ length b.bytes
  pub roomy : cheap_prepend ≤ length b.bytes
  pub small : length b.bytes ≤ max_size

-- The abstract value of a buffer.
abbrev pub contents : Buffer → List ℕ
contents b = take (b.writer_index - b.reader_index) (drop b.reader_index b.bytes)

-- The vector as three parts, of which the middle one is readable.
pub record Layout (b : Buffer) (xs : List ℕ) : Type 0 where
  pub before : List ℕ
  pub after : List ℕ
  pub parts : b.bytes ≡ before ++ (xs ++ after)
  pub starts : length before ≡ b.reader_index
  pub ends : b.reader_index + length xs ≡ b.writer_index

pub length-contents :
    {b : Buffer} → IsValid b → length (contents b) ≡ b.writer_index - b.reader_index
length-contents {b} v = omega (
  arith,
  length-take (b.writer_index - b.reader_index) (drop b.reader_index b.bytes),
  length-drop b.reader_index b.bytes,
)

pub layout : {b : Buffer} → IsValid b → Layout b (contents b)
layout {b} v = record {
  before = take b.reader_index b.bytes;
  after = drop (b.writer_index - b.reader_index) (drop b.reader_index b.bytes);
  parts = sym (
      ap (◌++◌ (take b.reader_index b.bytes))
        (take-append-drop (b.writer_index - b.reader_index) (drop b.reader_index b.bytes))
      ∙ take-append-drop b.reader_index b.bytes);
  starts = omega (arith, length-take b.reader_index b.bytes);
  ends = omega (arith, length-contents v);
}

-- A layout determines the readable bytes.
pub contents-Layout : (b : Buffer) (xs : List ℕ) → Layout b xs → contents b ≡ xs
contents-Layout b xs l =
    ap (λ (bs : List ℕ). take (b.writer_index - b.reader_index) (drop b.reader_index bs)) l.parts
    ∙ (ap (take (b.writer_index - b.reader_index))
          (drop-append_length b.reader_index l.before (xs ++ l.after) l.starts)
        ∙ take-append_length (b.writer_index - b.reader_index) xs l.after n)
  where
    n : length xs ≡ b.writer_index - b.reader_index
    n = omega (arith, l.ends)

pub length-Layout :
    (b : Buffer) (xs : List ℕ) (l : Layout b xs) → length b.bytes ≡ b.writer_index + length l.after
length-Layout b xs l = omega (
  arith,
  ap length l.parts,
  length-append l.before (xs ++ l.after),
  length-append xs l.after,
  l.starts,
  l.ends,
)

pub readable_bytes-contents : {b : Buffer} → IsValid b → readable_bytes b ≡ length (contents b)
readable_bytes-contents v = omega (arith, length-contents v)

pub init-IsValid : IsValid init
unfolding init
init-IsValid = omega (arith, length-replicate {A = ℕ} (cheap_prepend + initial_size) 0)

pub contents-init : contents init ≡ []
unfolding init
contents-init = refl
