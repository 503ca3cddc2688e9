-- ===== src/Buffer/Growth.antt =====
-- `ensure` and `makespace`: room is made by moving the readable bytes to the front or by growing
-- the vector, and neither changes what can be read.
use tiny_http_server.Prelude.{
  ℕ, ◌+◌, ◌-◌, ◌≤◌, ◌<◌, ◌≡◌, List, ◌++◌, inl, inr, refl, arith, length, replicate, write_at,
  length-write_at, length-append, length-replicate, slice-append, slice-write_at, ltb, Bool-cases,
  add_size,
}
use native.Mathlib.Decide.{dec_lt}
use tiny_http_server.Prelude.Result.{Returns}
use tiny_http_server.Buffer.{
  Buffer, cheap_prepend, max_size, copy_to, makespace, ensure, read_able_bytes, write_able_bytes,
}
use tiny_http_server.Buffer.Bounds.{
  IsValid, view, resize_grows, length-view, read_able_bytes_lem, write_able_bytes_lem,
}

-- `b'` is a valid buffer with the readable bytes of `b` and room for `len` more.
pub record HasRoom (b : Buffer) (len : ℕ) (b' : Buffer) : Type 0 where
  pub valid : IsValid b'
  pub room : b'.writer_index + len ≤ length b'.bytes
  pub same : view b' ≡ view b
  pub low : b'.writer_index ≤ b.writer_index

-- the test of `makespace`: not even the space before the reader would make room
abbrev pub NeedsGrowth : Buffer → ℕ → Type 0
NeedsGrowth b len = length b.bytes - b.writer_index + b.reader_index < len + cheap_prepend

module _ {b : Buffer} (v : IsValid b) (len : ℕ) where
  makespace_grows :
      b.writer_index + len ≤ max_size
      → NeedsGrowth b len
      → length b.bytes < b.writer_index + len
      → Returns (makespace b len) (HasRoom b len)
  unfolding makespace
  makespace_grows small tight short =
      let size : add_size b.writer_index len ≡ b.writer_index + len = omega arith in
      let grown = b.bytes ++ replicate (b.writer_index + len - length b.bytes) 0 in
      let wide : length grown ≡ b.writer_index + len = omega (
        arith,
        length-append b.bytes (replicate (b.writer_index + len - length b.bytes) 0),
        length-replicate {A = ℕ} (b.writer_index + len - length b.bytes) 0,
      ) in
      (
        record b { bytes = grown },
        ground (arith, resize_grows b.bytes (b.writer_index + len) (omega arith) small, size),
        record {
          valid = omega (arith, wide);
          room = omega (arith, wide);
          low = omega arith;
          same =
              slice-append b.bytes _ b.reader_index (b.writer_index - b.reader_index) (omega arith);
        },
      )

  makespace_moves :
      ¬ NeedsGrowth b len
      → length b.bytes < b.writer_index + len
      → Returns (makespace b len) (HasRoom b len)
  unfolding makespace copy_to
  makespace_moves loose short =
      let n : ℕ = b.writer_index - b.reader_index in
      let readable : read_able_bytes b ≡ n = read_able_bytes_lem v in
      let shown : length (view b) ≡ n = length-view v in
      let moved : List ℕ = write_at b.bytes cheap_prepend (view b) in
      let size : length moved ≡ length b.bytes = length-write_at b.bytes cheap_prepend (view b) in
      (
        record { bytes = moved; reader_index = cheap_prepend; writer_index = cheap_prepend + n },
        ground (arith, readable, shown),
        record {
          valid = omega (arith, size);
          room = omega (arith, size);
          low = omega arith;
          same =
              slice-write_at b.bytes cheap_prepend 0 cheap_prepend
                (cheap_prepend + n - cheap_prepend) (view b) (omega arith) (omega (arith, shown))
                (omega (arith, shown));
        },
      )

  -- `makespace`, called for more bytes than fit, makes room for them and keeps the readable bytes;
  -- neither assertion in it fails.
  pub makespace-HasRoom :
      b.writer_index + len ≤ max_size
      → length b.bytes < b.writer_index + len
      → Returns (makespace b len) (HasRoom b len)
  makespace-HasRoom small short =
      elim (dec_lt (length b.bytes - b.writer_index + b.reader_index) (len + cheap_prepend)) [
        | yes tight ↦ makespace_grows small tight short
        | no loose ↦ makespace_moves loose short
      ]

  pub ensure-HasRoom : b.writer_index + len ≤ max_size → Returns (ensure b len) (HasRoom b len)
  unfolding ensure
  ensure-HasRoom small = elim (Bool-cases (ltb (write_able_bytes b) len)) [
    | inl short ↦ rw short (makespace-HasRoom small (ground (arith, write_able_bytes_lem v)))
    | inr enough ↦ rw enough (
      b,
      refl,
      record {
        valid = v;
        room = ground (arith, write_able_bytes_lem v);
        same = refl;
        low = omega arith;
      },
    )
  ]
