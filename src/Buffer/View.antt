-- ===== src/Buffer/View.antt =====
-- What the operations of a buffer do to its readable bytes: `append` puts bytes behind them,
-- `retrieve` takes bytes off their front, and `prepend` puts bytes in front of them.
use tiny_http_server.Prelude.{
  ℕ, ◌+◌, ◌-◌, ◌≤◌, ◌<◌, ◌≡◌, ◌∙◌, List, [], ◌++◌, inl, inr, refl, sym, ap, arith, length, take,
  drop, slice-write_at_front, write_at, length-write_at, slice-write_at, length-take, length-drop,
  drop-slice, take-take, take_all, drop_all, take-append-drop, ltb, leb, Bool-cases, some,
  append_assoc, add_size, sub_size,
}
use tiny_http_server.Prelude.Result.{fail, Returns, assertion}
use tiny_http_server.Buffer.{
  Buffer, max_size, copy_to, append, retrieve, retrieve_all, retrieve_string, peek_string,
  retrieve_all_string, prepend, has_written, read_able_bytes, write_able_bytes, done, read_fd,
  write_fd, extrabuf_size,
}
use tiny_http_server.Buffer.Bounds.{
  IsValid, view, length-view, read_able_bytes_lem, write_able_bytes_lem,
}
use tiny_http_server.Buffer.Growth.{ensure-HasRoom}

-- `b` is valid, its readable bytes are `bytes`, and it writes at `w` or before.
pub record Shows (w : ℕ) (bytes : List ℕ) (b : Buffer) : Type 0 where
  pub valid : IsValid b
  pub low : b.writer_index ≤ w
  pub shown : view b ≡ bytes

pub Shows-le :
    {w w' : ℕ} {bytes : List ℕ} {b : Buffer} → w ≤ w' → Shows w bytes b → Shows w' bytes b
Shows-le h s = record { valid = s.valid; low = omega (arith, s.low); shown = s.shown }

-- A write into free room, then `has_written`.
pub write-Shows :
    {b : Buffer} (v : IsValid b) (ds : List ℕ)
    → b.writer_index + length ds ≤ length b.bytes
    → Shows
        (b.writer_index + length ds)
        (view b ++ ds)
        (has_written (record b { bytes = write_at b.bytes b.writer_index ds }) (length ds))
unfolding has_written
write-Shows {b} v ds h =
    let size : length (write_at b.bytes b.writer_index ds) ≡ length b.bytes =
      length-write_at b.bytes b.writer_index ds in
    record {
      valid = omega (arith, size);
      low = omega arith;
      shown =
          slice-write_at b.bytes b.reader_index (b.writer_index - b.reader_index) b.writer_index
            (add_size b.writer_index (length ds) - b.reader_index) ds (omega arith) (omega arith)
            (omega arith);
    }

module _ {b : Buffer} (v : IsValid b) where
  -- `append` puts the bytes behind the readable ones, whether it grows the vector, moves the
  -- readable bytes or just writes, and no assertion fails on the way.
  pub append-Shows :
      (ds : List ℕ)
      → b.writer_index + length ds ≤ max_size
      → Returns (append b ds) (Shows (b.writer_index + length ds) (view b ++ ds))
  unfolding append copy_to
  append-Shows ds small =
      let (b', e, r) = ensure-HasRoom v (length ds) small in
      (
        has_written (record b' { bytes = write_at b'.bytes b'.writer_index ds }) (length ds),
        rw e (ground (arith, r.room)),
        rw (← r.same) (Shows-le (omega (arith, r.low)) (write-Shows r.valid ds r.room)),
      )

  retrieve_all-Shows : Shows b.writer_index [] (retrieve_all b)
  unfolding retrieve_all
  retrieve_all-Shows = record { valid = omega arith; low = omega arith; shown = refl }

  -- `retrieve` takes exactly the first `n` readable bytes off.
  pub retrieve-Shows :
      (n : ℕ)
      → n ≤ length (view b)
      → Returns (retrieve b n) (Shows b.writer_index (drop n (view b)))
  unfolding retrieve
  retrieve-Shows n h =
      let readable : read_able_bytes b ≡ b.writer_index - b.reader_index = read_able_bytes_lem v in
      let shown : length (view b) ≡ b.writer_index - b.reader_index = length-view v in
      elim (Bool-cases (ltb n (read_able_bytes b))) [
        | inl some_left ↦ (
          record b { reader_index = add_size b.reader_index n },
          rw some_left (ground (arith, readable, shown)),
          record {
            valid = ground (arith, readable, shown);
            low = omega arith;
            shown = sym (
                drop-slice b.bytes b.reader_index (b.writer_index - b.reader_index) n
                  (add_size b.reader_index n) (b.writer_index - add_size b.reader_index n)
                  (ground (arith, readable)) (ground (arith, readable)));
          },
        )
        | inr all_taken ↦ (
          retrieve_all b,
          rw all_taken (ground (arith, readable, shown)),
          rw (drop_all n (view b) (ground (arith, readable))) retrieve_all-Shows,
        )
      ]

  -- Asking for more than there is fails an assertion.
  pub retrieve-assertion : (n : ℕ) → length (view b) < n → retrieve b n ≡ fail assertion
  unfolding retrieve
  retrieve-assertion n h = ground (arith, read_able_bytes_lem v, length-view v)

  -- `retrieve_string` returns the bytes that it takes off.
  pub retrieve_string-Shows :
      (n : ℕ)
      → n ≤ length (view b)
      → Returns
          (retrieve_string b n)
          (λ r. (r.0 ≡ take n (view b)) × Shows b.writer_index (drop n (view b)) r.1)
  unfolding retrieve_string
  retrieve_string-Shows n h =
      let (b', e, s) = retrieve-Shows n h in
      (
        (peek_string b n, b'),
        rw e (ground (arith, read_able_bytes_lem v, length-view v)),
        (sym (take-take n _ _ (omega (arith, length-view v))), s),
      )

  pub retrieve_string-assertion :
      (n : ℕ) → length (view b) < n → retrieve_string b n ≡ fail assertion
  unfolding retrieve_string
  retrieve_string-assertion n h = ground (arith, read_able_bytes_lem v, length-view v)

  -- `retrieve_all_string` returns all the readable bytes and leaves none.
  pub retrieve_all_string-Shows :
      Returns (retrieve_all_string b) (λ r. (r.0 ≡ view b) × Shows b.writer_index [] r.1)
  unfolding retrieve_all_string
  retrieve_all_string-Shows =
      let n : read_able_bytes b ≡ length (view b) =
        omega (arith, read_able_bytes_lem v, length-view v) in
      let (r, e, (e', s)) = retrieve_string-Shows (length (view b)) (omega arith) in
      (
        r,
        ap (retrieve_string b) n ∙ e,
        (
          e' ∙ take_all (length (view b)) (view b) (omega arith),
          rw (drop_all (length (view b)) (view b) (omega arith)) at s,
        ),
      )

  -- `prepend` puts the first `len` of the given bytes in front, if there is room for them.
  pub prepend-Shows :
      (ds : List ℕ) (len : ℕ)
      → len ≤ b.reader_index
      → len ≤ length ds
      → Returns (prepend b ds len) (Shows b.writer_index (take len ds ++ view b))
  unfolding prepend copy_to
  prepend-Shows ds len fits given =
      let i : ℕ = sub_size b.reader_index len in
      let at : i ≡ b.reader_index - len = omega arith in
      let ahead : length (take len ds) ≡ len = omega (arith, length-take len ds) in
      let written : List ℕ = write_at b.bytes i (take len ds) in
      let size : length written ≡ length b.bytes = length-write_at b.bytes i (take len ds) in
      (
        record b { bytes = written; reader_index = i },
        ground (arith, ahead),
        record {
          valid = omega (arith, size);
          low = omega arith;
          shown =
              slice-write_at_front b.bytes i (b.writer_index - i) (b.writer_index - b.reader_index)
                b.reader_index (take len ds) (omega (arith, ahead)) (omega (arith, ahead))
                (omega arith);
        },
      )

  -- More than the space in front of the reader fails an assertion.
  pub prepend-assertion :
      (ds : List ℕ) (len : ℕ) → b.reader_index < len → prepend b ds len ≡ fail assertion
  unfolding prepend
  prepend-assertion ds len h = ground arith

module _ {b : Buffer} (v : IsValid b) (input : List ℕ) (save_errno : ℕ) where
  -- the buffer of `read_fd` once `readv` has filled its writable region
  abbrev filled : Buffer
  filled = record b {
    bytes = write_at b.bytes b.writer_index (take (write_able_bytes b) input);
    writer_index = length b.bytes;
  }

  filled-Shows :
      write_able_bytes b < length input
      → Shows (length b.bytes) (view b ++ take (write_able_bytes b) input) filled
  unfolding has_written
  filled-Shows spills =
      let room : write_able_bytes b ≡ length b.bytes - b.writer_index = write_able_bytes_lem v in
      let part = length-take (write_able_bytes b) input in
      let full : add_size b.writer_index (length (take (write_able_bytes b) input))
          ≡ length b.bytes =
        omega (arith, room, part) in
      Shows-le (omega (arith, room, part))
        (rw full at (write-Shows v (take (write_able_bytes b) input) (omega (arith, room, part))))

  -- `read_fd` puts what `readv` read behind the readable bytes, through `extrabuf` if need be.
  pub read_fd-Shows :
      b.writer_index + length input ≤ max_size
      → length input ≤ write_able_bytes b + extrabuf_size
      → Returns (read_fd b (done input) save_errno) (λ r.
        (r.1 ≡ some (length input))
        × (r.2 ≡ save_errno)
        × Shows (b.writer_index + length input) (view b ++ input) r.0)
  unfolding read_fd has_written
  read_fd-Shows small given =
      let room : write_able_bytes b ≡ length b.bytes - b.writer_index = write_able_bytes_lem v in
      elim (Bool-cases (leb (length input) (write_able_bytes b))) [
        | inl fits ↦
            let whole : take (write_able_bytes b) input ≡ input =
              take_all (write_able_bytes b) input (ground arith) in
            rw (fits, whole) ((_, refl, (refl, refl, write-Shows v input (ground (arith, room)))))
        | inr spills ↦
            let start : Shows _ _ filled = filled-Shows (ground arith) in
            let rest = drop (write_able_bytes b) input in
            let (b', e, s) =
              append-Shows start.valid rest
                (ground (arith, room, length-drop (write_able_bytes b) input)) in
            (
              (b', some (length input), save_errno),
              rw (spills, e) (ground arith),
              (
                refl,
                refl,
                record {
                  valid = s.valid;
                  low = ground (arith, s.low, room, length-drop (write_able_bytes b) input);
                  shown =
                      s.shown
                      ∙ ap (λ t. t ++ rest) start.shown
                      ∙ append_assoc (view b) (take (write_able_bytes b) input) rest
                      ∙ ap (λ t. view b ++ t) (take-append-drop (write_able_bytes b) input);
                },
              ),
            )
      ]

-- `write_fd` takes the bytes that `::write` took off the front.
pub write_fd-Shows :
    {b : Buffer} (v : IsValid b) (n save_errno : ℕ)
    → n ≤ read_able_bytes b
    → Shows b.writer_index (drop n (view b)) (write_fd b (done n) save_errno).0
unfolding write_fd
write_fd-Shows {b} v n save_errno h =
    let readable : read_able_bytes b ≡ b.writer_index - b.reader_index = read_able_bytes_lem v in
    record {
      valid = omega (arith, readable);
      low = omega arith;
      shown = sym (
          drop-slice b.bytes b.reader_index (b.writer_index - b.reader_index) n
            (add_size b.reader_index n) (b.writer_index - add_size b.reader_index n)
            (omega (arith, readable)) (omega (arith, readable)));
    }
