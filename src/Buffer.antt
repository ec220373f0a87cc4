-- ===== src/Buffer.antt =====
-- simplev/src/simplev/net/Buffer.h and Buffer.cc: the byte buffer of a connection, a vector with the
-- readable bytes between two indices. A method that changes the buffer returns the new one; a failed
-- `assert`, an access outside the vector and the `length_error` of `resize` are faults.
pub mod Contents
pub mod Space
pub mod Front
pub mod Back
pub mod Writer
pub mod Refine
pub mod Shrink
mod Tests
use simplev.Prelude.{
  ℕ, ◌+◌, ◌-◌, ◌*◌, ◌^◌, ◌≤◌, List, ◌++◌, ltb, leb, if◌then◌else◌, length, take, drop, replicate,
  Result, ok, err, ensure, assert, length_error, out_of_range, ◌>>=◌, ◌>>◌, add_size, sub_size,
  read_at, write_at, resize,
}

pub record Buffer : Type 0 where
  pub bytes : List ℕ
  pub reader_index : ℕ
  pub writer_index : ℕ

abbrev pub cheap_prepend : ℕ
cheap_prepend = 8

abbrev pub initial_size : ℕ
initial_size = 1024

-- `vector<char>::max_size()`
abbrev pub max_size : ℕ
max_size = 2 ^ 63 - 1

unfoldable pub init : Buffer
init = record {
  bytes = replicate (cheap_prepend + initial_size) 0;
  reader_index = cheap_prepend;
  writer_index = cheap_prepend;
}

abbrev pub readable_bytes : Buffer → ℕ
readable_bytes b = sub_size b.writer_index b.reader_index

abbrev pub writable_bytes : Buffer → ℕ
writable_bytes b = sub_size (length b.bytes) b.writer_index

abbrev pub prependable_bytes : Buffer → ℕ
prependable_bytes b = b.reader_index

-- The bytes that a caller reads from `peek()` on, `readableBytes()` of them.
unfoldable pub peek_all : Buffer → Result (List ℕ)
peek_all b = read_at b.bytes b.reader_index (readable_bytes b)

unfoldable pub retrieve : ℕ → Buffer → Result Buffer
retrieve len b = do
  assert (leb len (readable_bytes b))
  ok (record b { reader_index = add_size b.reader_index len })

-- `end` as an index of the vector.
unfoldable pub retrieve_until : ℕ → Buffer → Result Buffer
unfolding retrieve
retrieve_until end b = do
  assert (leb b.reader_index end)
  assert (leb end b.writer_index)
  retrieve (sub_size end b.reader_index) b

unfoldable pub retrieve_all : Buffer → Buffer
retrieve_all b = record b { reader_index = cheap_prepend; writer_index = cheap_prepend }

unfoldable pub retrieve_as_string : Buffer → Result (List ℕ × Buffer)
unfolding peek_all retrieve_all
retrieve_as_string b = do str ← peek_all b; ok (str, retrieve_all b)

unfoldable pub has_written : ℕ → Buffer → Buffer
has_written len b = record b { writer_index = add_size b.writer_index len }

-- The vector grows only in the first branch; the second moves the readable bytes to the front.
unfoldable pub make_space : ℕ → Buffer → Result Buffer
make_space len b =
    if ltb (add_size (writable_bytes b) (prependable_bytes b)) (add_size len cheap_prepend)
    then grow
    else move
  where
    wanted : ℕ
    wanted = add_size b.writer_index len

    grow : Result Buffer
    grow = do
      ensure (leb wanted max_size) length_error
      ok (record b { bytes = resize b.bytes wanted 0 })

    move : Result Buffer
    move = do
      assert (ltb cheap_prepend b.reader_index)
      front ← read_at b.bytes b.reader_index (readable_bytes b)
      moved ← write_at b.bytes cheap_prepend front
      ok (record {
        bytes = moved;
        reader_index = cheap_prepend;
        writer_index = add_size cheap_prepend (readable_bytes b);
      })

unfoldable pub ensure_writable_bytes : ℕ → Buffer → Result Buffer
ensure_writable_bytes len b = do
  b' ← if ltb (writable_bytes b) len then make_space len b else ok b
  assert (leb len (writable_bytes b'))
  ok b'

unfoldable pub append : List ℕ → Buffer → Result Buffer
unfolding has_written
append str b = do
  b' ← ensure_writable_bytes (length str) b
  bytes ← write_at b'.bytes b'.writer_index str
  ok (has_written (length str) (record b' { bytes = bytes }))

unfoldable pub prepend : List ℕ → Buffer → Result Buffer
prepend str b = do
  assert (leb (length str) (prependable_bytes b))
  let start = sub_size b.reader_index (length str)
  bytes ← write_at b.bytes start str
  ok (record b { bytes = bytes; reader_index = start })

-- The indices stay as they are.
unfoldable pub shrink : ℕ → Buffer → Result Buffer
shrink reserve b = do
  let size = add_size (add_size cheap_prepend (readable_bytes b)) reserve
  ensure (leb size max_size) length_error
  front ← read_at b.bytes b.reader_index (readable_bytes b)
  buf ← write_at (replicate size 0) cheap_prepend front
  ok (record b { bytes = buf })

abbrev pub extra_size : ℕ
extra_size = 65536

-- What `readv` answers: an errno, or bytes, of which it puts the first ones behind the readable
-- bytes of the vector and the others into `extrabuf`.
pub data ReadReply : Type 0 where
  failed : ℕ → ReadReply
  received : List ℕ → ReadReply

-- The result of `readFd`, with `*savedErrno`.
pub data ReadResult : Type 0 where
  read_error : ℕ → ReadResult
  bytes_read : ℕ → ReadResult

unfoldable pub read_fd : ReadReply → Buffer → Result (ReadResult × Buffer)
unfolding has_written
read_fd (failed e) b = ok (read_error e, b)
read_fd (received xs) b = do
  let n = length xs
  let writable = writable_bytes b
  bytes ← write_at b.bytes b.writer_index (take writable xs)
  ensure (leb (n - writable) extra_size) out_of_range
  b' ←
      if leb n writable
      then ok (has_written n (record b { bytes = bytes }))
      else append (drop writable xs) (record b { bytes = bytes; writer_index = length bytes })
  ok (bytes_read n, b')
