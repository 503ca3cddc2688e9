-- ===== src/Buffer/Bounds.antt =====
-- The invariant of a buffer: the indices stand in order inside the vector, so that no `size_t`
-- operation wraps and no access is out of bounds.
use tiny_http_server.Prelude.{
  ℕ, ◌+◌, ◌-◌, ◌≤◌, ◌≡◌, List, [], ◌++◌, refl, arith, length, replicate, slice, take_all, le→ltb,
  length-replicate, length-slice, add_size,
}
use tiny_http_server.Prelude.Result.{ok, Returns}
use tiny_http_server.Buffer.{
  Buffer, cheap_prepend, max_size, resize, make, read_able_bytes, write_able_bytes,
}

pub record IsValid (b : Buffer) : Type 0 where
  pub ordered : b.reader_index ≤ b.writer_index
  pub inside : b.writer_index ≤ length b.bytes
  pub header : cheap_prepend ≤ b.writer_index
  pub small : length b.bytes ≤ max_size

-- The readable bytes, oldest first.
abbrev pub view : Buffer → List ℕ
view b = slice b.bytes b.reader_index (b.writer_index - b.reader_index)

-- On a valid buffer the two sizes are the plain differences.
pub read_able_bytes_lem :
    {b : Buffer} → IsValid b → read_able_bytes b ≡ b.writer_index - b.reader_index
read_able_bytes_lem v = omega arith

pub write_able_bytes_lem :
    {b : Buffer} → IsValid b → write_able_bytes b ≡ length b.bytes - b.writer_index
write_able_bytes_lem v = omega arith

pub length-view : {b : Buffer} → IsValid b → length (view b) ≡ b.writer_index - b.reader_index
length-view {b} v =
    length-slice b.bytes b.reader_index (b.writer_index - b.reader_index) (omega arith)

pub resize_grows :
    (xs : List ℕ) (n : ℕ)
    → length xs ≤ n
    → n ≤ max_size
    → resize xs n ≡ ok (xs ++ replicate (n - length xs) 0)
unfolding resize
resize_grows xs n h small = rw (le→ltb max_size n small, take_all n xs h)

-- A new buffer of a size that fits is valid and empty.
pub make-IsValid :
    (n : ℕ) → cheap_prepend + n ≤ max_size → Returns (make n) (λ b. IsValid b × (view b ≡ []))
unfolding make
make-IsValid n h =
    let size : add_size cheap_prepend n ≡ cheap_prepend + n = omega arith in
    let whole : cheap_prepend + n - 0 ≡ cheap_prepend + n = omega arith in
    let fill : length (replicate {A = ℕ} (cheap_prepend + n) 0) ≡ cheap_prepend + n =
      length-replicate (cheap_prepend + n) 0 in
    (
      record {
        bytes = replicate (cheap_prepend + n) 0;
        reader_index = cheap_prepend;
        writer_index = cheap_prepend;
      },
      rw (size, resize_grows [] (cheap_prepend + n) (omega arith) h, whole) refl,
      (omega (arith, fill), refl),
    )
