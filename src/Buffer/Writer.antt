-- ===== src/Buffer/Writer.antt =====
-- How far the calls of Buffer.h move the end of the readable bytes.
use simplev.Prelude.{
  ℕ, ◌+◌, ◌≡◌, ◌≤◌, refl, subst, List, length, arith, Result, ok, assert, ensure, length_error,
  >>=-eq-ok, ltb, leb, if◌then◌else◌, inl, inr, Bool-cases, read_at, write_at, add_size,
}
use simplev.Buffer.{
  Buffer, init, max_size, cheap_prepend, readable_bytes, writable_bytes, prependable_bytes,
  make_space, ensure_writable_bytes, append, has_written, retrieve,
}
use simplev.Buffer.Contents.{IsValid}

ok-injective : {b b' : Buffer} → ◌≡◌ {A = Result Buffer} (ok b) (ok b') → b ≡ b'
ok-injective h = cc

-- Making room never moves the end of the readable bytes up.
make_space-writer :
    (len : ℕ) {b b' : Buffer}
    → IsValid b
    → make_space len b ≡ ok b'
    → b'.writer_index ≤ b.writer_index
unfolding make_space
make_space-writer len {b} {b'} v h =
    elim (Bool-cases
      (ltb (add_size (writable_bytes b) (prependable_bytes b)) (add_size len cheap_prepend))) [
        | inl t ↦
            let (_, _, e) =
              >>=-eq-ok (ensure (leb (add_size b.writer_index len) max_size) length_error) _
                (rw t at h) in
            subst (λ (d : Buffer). d.writer_index ≤ b.writer_index) (ok-injective e) (omega arith)
        | inr t ↦
            let (_, moves, h₁) =
              >>=-eq-ok (assert (ltb cheap_prepend b.reader_index)) _ (rw t at h) in
            let (front, _, h₂) =
              >>=-eq-ok (read_at b.bytes b.reader_index (readable_bytes b)) _ h₁ in
            let (moved, _, e) = >>=-eq-ok (write_at b.bytes cheap_prepend front) _ h₂ in
            subst (λ (d : Buffer). d.writer_index ≤ b.writer_index) (ok-injective e)
              (ground (arith, moves, v))
      ]

pub ensure-writer :
    (len : ℕ) {b b' : Buffer}
    → IsValid b
    → ensure_writable_bytes len b ≡ ok b'
    → b'.writer_index ≤ b.writer_index
unfolding ensure_writable_bytes
ensure-writer len {b} {b'} v h =
    let (b₁, made, h₁) =
      >>=-eq-ok (if ltb (writable_bytes b) len then make_space len b else ok b) _ h in
    let (_, _, e) = >>=-eq-ok (assert (leb len (writable_bytes b₁))) _ h₁ in
    subst (λ (d : Buffer). d.writer_index ≤ b.writer_index) (ok-injective e)
      (elim (Bool-cases (ltb (writable_bytes b) len)) [
        | inl t ↦ make_space-writer len v (rw t at made)
        | inr t ↦
            subst (λ (d : Buffer). d.writer_index ≤ b.writer_index) (ok-injective (rw t at made))
              (omega arith)
      ])

pub append-writer :
    (str : List ℕ) {b b' : Buffer}
    → IsValid b
    → append str b ≡ ok b'
    → b'.writer_index ≤ b.writer_index + length str
unfolding append has_written
append-writer str {b} {b'} v h =
    let (b₁, made, h₁) = >>=-eq-ok (ensure_writable_bytes (length str) b) _ h in
    let (bytes, _, e) = >>=-eq-ok (write_at b₁.bytes b₁.writer_index str) _ h₁ in
    let up = ensure-writer (length str) v made in
    subst (λ (d : Buffer). d.writer_index ≤ b.writer_index + length str) (ok-injective e)
      (omega (arith, up))

pub retrieve-writer :
    (len : ℕ) (b : Buffer) {b' : Buffer} → retrieve len b ≡ ok b' → b'.writer_index ≡ b.writer_index
unfolding retrieve
retrieve-writer len b h =
    let (_, _, e) = >>=-eq-ok (assert (leb len (readable_bytes b))) _ h in
    subst (λ (d : Buffer). d.writer_index ≡ b.writer_index) (ok-injective e) refl

pub init-writer : init.writer_index ≤ 8
unfolding init
init-writer = omega arith
