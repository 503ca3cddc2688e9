-- ===== src/Buffer.antt =====
-- src/base/buffer.h and src/base/buffer.cc: the byte buffer between a socket and its handlers.
-- A vector of bytes with a read and a write index; `peek()` is the region between the two.
pub mod Bounds
pub mod View
pub mod Growth
pub mod Run
mod Tests
use tiny_http_server.Prelude.{
  ℕ, ◌+◌, ◌-◌, ◌^◌, Bool, true, List, ◌++◌, Option, none, some, ltb, leb, ◌==◌, if◌then◌else◌,
  length, take, drop, replicate, slice, write_at, add_size, sub_size,
}
use tiny_http_server.Prelude.Result.{
  Result, ok, fail, ◌>>=◌, ◌>>◌, check, assertion, length_error, out_of_bounds,
}

-- `buffer_` holds bytes; its size is the vector's, and the capacity is not modelled.
pub record Buffer : Type 0 where
  pub bytes : List ℕ
  pub reader_index : ℕ
  pub writer_index : ℕ

abbrev pub cheap_prepend : ℕ
cheap_prepend = 8

abbrev pub initial_size_default : ℕ
initial_size_default = 1024

-- `std::vector<char>::max_size()`
abbrev pub max_size : ℕ
max_size = 2 ^ 63 - 1

-- `vector::resize`: it cuts, or pads with zero bytes.
pub resize : List ℕ → ℕ → Result (List ℕ)
resize xs n =
    if ltb max_size n then fail length_error else ok (take n xs ++ replicate (n - length xs) 0)

-- The constructor.
unfoldable pub make : ℕ → Result Buffer
unfolding resize
make initial_size = do
  xs ← resize List.[] (add_size cheap_prepend initial_size)
  ok (record { bytes = xs; reader_index = cheap_prepend; writer_index = cheap_prepend })

abbrev pub read_able_bytes : Buffer → ℕ
read_able_bytes b = sub_size b.writer_index b.reader_index

abbrev pub write_able_bytes : Buffer → ℕ
write_able_bytes b = sub_size (length b.bytes) b.writer_index

abbrev pub prepend_able_bytes : Buffer → ℕ
prepend_able_bytes b = b.reader_index

unfoldable pub retrieve_all : Buffer → Buffer
retrieve_all b = record b { reader_index = cheap_prepend; writer_index = cheap_prepend }

unfoldable pub retrieve : Buffer → ℕ → Result Buffer
unfolding retrieve_all
retrieve b len = do
  check (leb len (read_able_bytes b)) assertion
  ok (
      if ltb len (read_able_bytes b)
      then record b { reader_index = add_size b.reader_index len }
      else retrieve_all b)

-- The pointer `end` is given by its index.
unfoldable pub retrieve_until : Buffer → ℕ → Result Buffer
unfolding retrieve
retrieve_until b end = do
  check (leb b.reader_index end) assertion
  check (leb end b.writer_index) assertion
  retrieve b (sub_size end b.reader_index)

-- `std::string(peek(), len)`
abbrev pub peek_string : Buffer → ℕ → List ℕ
peek_string b len = slice b.bytes b.reader_index len

unfoldable pub retrieve_string : Buffer → ℕ → Result (List ℕ × Buffer)
unfolding retrieve
retrieve_string b len = do
  check (leb len (read_able_bytes b)) assertion
  b' ← retrieve b len
  ok (peek_string b len, b')

unfoldable pub retrieve_all_string : Buffer → Result (List ℕ × Buffer)
unfolding retrieve_string
retrieve_all_string b = retrieve_string b (read_able_bytes b)

-- `std::copy(first, last, begin_() + i)`, at most to the end of the vector.
unfoldable pub copy_to : List ℕ → ℕ → List ℕ → Result (List ℕ)
copy_to xs i ds = do check (leb (i + length ds) (length xs)) out_of_bounds; ok (write_at xs i ds)

unfoldable pub makespace : Buffer → ℕ → Result Buffer
unfolding resize copy_to
makespace b len =
    if ltb (add_size (write_able_bytes b) (prepend_able_bytes b)) (add_size len cheap_prepend)
    then (do xs ← resize b.bytes (add_size b.writer_index len); ok (record b { bytes = xs }))
    else (do
      check (ltb cheap_prepend b.reader_index) assertion
      let readable = read_able_bytes b
      xs ← copy_to b.bytes cheap_prepend (slice b.bytes b.reader_index readable)
      let b' : Buffer = record {
        bytes = xs;
        reader_index = cheap_prepend;
        writer_index = add_size cheap_prepend readable;
      }
      check (readable == read_able_bytes b') assertion
      ok b')

unfoldable pub ensure : Buffer → ℕ → Result Buffer
unfolding makespace
ensure b len = if ltb (write_able_bytes b) len then makespace b len else ok b

unfoldable pub has_written : Buffer → ℕ → Buffer
has_written b len = record b { writer_index = add_size b.writer_index len }

unfoldable pub append : Buffer → List ℕ → Result Buffer
unfolding ensure copy_to has_written
append b data_ = do
  b' ← ensure b (length data_)
  xs ← copy_to b'.bytes b'.writer_index data_
  ok (has_written (record b' { bytes = xs }) (length data_))

unfoldable pub prepend : Buffer → List ℕ → ℕ → Result Buffer
unfolding copy_to
prepend b data_ len = do
  check (leb len (prepend_able_bytes b)) assertion
  check (leb len (length data_)) out_of_bounds
  let i = sub_size b.reader_index len
  xs ← copy_to b.bytes i (take len data_)
  ok (record b { bytes = xs; reader_index = i })

-- What `readv` or `write` returns: -1 with an `errno`, or what was transferred.
pub data Transfer {ℓ} (A : Type ℓ) : Type ℓ where
  failed : ℕ → Transfer A
  done : A → Transfer A

abbrev pub extrabuf_size : ℕ
extrabuf_size = 65535

-- `readv` fills the writable region first and `extrabuf` next; the bytes it read are given.
-- The results: the buffer, `len` (none for -1), and `*save_errno`.
unfoldable pub read_fd : Buffer → Transfer (List ℕ) → ℕ → Result (Buffer × Option ℕ × ℕ)
unfolding append
read_fd b (failed e) save_errno = ok (b, none, e)
read_fd b (done input) save_errno =
    let write_size = write_able_bytes b in
    let filled = write_at b.bytes b.writer_index (take write_size input) in
    if leb (length input) write_size
    then ok (
      record b { bytes = filled; writer_index = add_size b.writer_index (length input) },
      some (length input),
      save_errno,
    )
    else (do
      check (leb (length input - write_size) extrabuf_size) out_of_bounds
      b' ←
          append (record b { bytes = filled; writer_index = length b.bytes })
            (drop write_size input)
      ok (b', some (length input), save_errno))

-- `::write` of the readable region, which took the given number of bytes.
unfoldable pub write_fd : Buffer → Transfer ℕ → ℕ → Buffer × Option ℕ × ℕ
write_fd b (failed e) save_errno = (b, none, e)
write_fd b (done len) save_errno =
    (record b { reader_index = add_size b.reader_index len }, some len, save_errno)

-- `swap`, on both buffers.
unfoldable pub swap : Buffer → Buffer → Buffer × Buffer
swap b rhs = (rhs, b)
