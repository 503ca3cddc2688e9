-- ===== src/HttpRequest/Refine.antt =====
-- The parser on the readable bytes alone, without the indices of the buffer.
use Prim.Native.Nat.{ℕ}
use tiny_http_server.Prelude.{
  zero, suc, ◌+◌, ◌-◌, ◌≤◌, ◌<◌, ◌≡◌, ◌⊎◌, ◌∙◌, Bool, true, false, [], ◌∷◌, refl, arith, ◌==◌,
  if◌then◌else◌, ◌||◌, not, length, take, drop, take-take, Bool-cases, inl, inr, ap, sym, leb,
  slice,
}
use tiny_http_server.Prelude.Result.{Result, ok, fail, ◌>>=◌, out_of_fuel, Returns}
use tiny_http_server.Prelude.Map.{Bytes}
use tiny_http_server.Buffer.{Buffer, read_able_bytes, retrieve_until}
use tiny_http_server.Buffer.Bounds.{IsValid, view, length-view, read_able_bytes_lem}
use tiny_http_server.Buffer.View.{Shows, retrieve-Shows}
use tiny_http_server.UserVerify.{Database, World}
use tiny_http_server.HttpRequest.{HttpRequest, parse_line, parse_loop, parse, find_crlf, is_finish}

-- a line that ends in CRLF, or the whole input
pub find_crlf_cases : (xs : Bytes) → (find_crlf xs ≡ length xs) ⊎ (find_crlf xs + 2 ≤ length xs)
unfolding find_crlf
find_crlf_cases [] = inl refl
find_crlf_cases (c ∷ []) = inl refl
find_crlf_cases (c ∷ d ∷ cs) = ground (arith, find_crlf_cases (d ∷ cs))

-- `retrieve_until` takes the bytes before the pointer.
pub retrieve_until-Shows :
    {b : Buffer} (v : IsValid b) (n i : ℕ)
    → i ≡ b.reader_index + n
    → n ≤ length (view b)
    → Returns (retrieve_until b i) (Shows b.writer_index (drop n (view b)))
unfolding retrieve_until
retrieve_until-Shows {b} v n i at h =
    let (b', e, s) = retrieve-Shows v n h in (b', ground (arith, e, length-view v), s)

to_true : (m n : ℕ) → m ≡ n → (m == n) ≡ true
to_true m n h = ground arith

to_false : (m n : ℕ) → m < n → (m == n) ≡ false
to_false m n h = ground arith

module _ (db : Database) where
  unfoldable pub parse_bytes :
      ℕ → HttpRequest → Bytes → World db → Result (Bool × HttpRequest × Bytes × World db)
  parse_bytes zero q input w = fail out_of_fuel
  parse_bytes (suc rounds) q input w =
      if (length input == 0) || is_finish q.state then ok (true, q, input, w) else (do
        let line_end = find_crlf input
        r ← parse_line db q q.state (take line_end input) (length input) w
        let last_line = line_end == length input
        if not r.0
            then ok (false, r.1, input, r.2)
            else if last_line
            then ok (true, r.1, input, r.2)
            else parse_bytes rounds r.1 (drop (line_end + 2) input) r.2)

  -- the outcome of the parser with the buffer seen as its readable bytes
  abbrev pub seen :
      Result (Bool × HttpRequest × Buffer × World db)
      → Result (Bool × HttpRequest × Bytes × World db)
  seen (fail f) = fail f
  seen (ok (good, q, b, w)) = ok (good, q, view b, w)

  seen_bind :
      {V : Type 0} (x : Result V) (f : V → Result (Bool × HttpRequest × Buffer × World db))
      (g : V → Result (Bool × HttpRequest × Bytes × World db))
      → ((r : V) → seen (f r) ≡ g r)
      → seen (x >>= f) ≡ x >>= g
  seen_bind (fail e) f g h = refl
  seen_bind (ok r) f g h = h r

  pub parse_loop_refines :
      (rounds : ℕ) (q : HttpRequest) (b : Buffer) (w : World db)
      → IsValid b
      → seen (parse_loop db rounds q b w) ≡ parse_bytes rounds q (view b) w
  unfolding parse_loop parse_bytes
  parse_loop_refines zero q b w v = refl
  parse_loop_refines (suc rounds) q b w v =
      let readable : read_able_bytes b ≡ length (view b) =
        read_able_bytes_lem v ∙ sym (length-view v) in
      let whole : slice b.bytes b.reader_index (length (view b)) ≡ view b =
        ap (slice b.bytes b.reader_index) (length-view v) in
      rw (readable, whole)
        (elim (Bool-cases ((length (view b) == 0) || is_finish q.state)) [
          | inl e ↦ rw e refl
          | inr e ↦
              let n : ℕ = find_crlf (view b) in
              let line : slice b.bytes b.reader_index n ≡ take n (view b) = sym (
                take-take n (b.writer_index - b.reader_index) (drop b.reader_index b.bytes)
                  (ground (arith, find_crlf_cases (view b), length-view v))) in
              let at_end : (b.reader_index + n == b.writer_index) ≡ (n == length (view b)) =
                ground (arith, length-view v) in
              rw (e, line, at_end)
                (seen_bind (parse_line db q q.state (take n (view b)) (length (view b)) w) _ _ λ r.
                  elim (Bool-cases r.0) [
                    | inr bad ↦ rw bad refl
                    | inl good ↦ elim (find_crlf_cases (view b)) [
                      | inl last ↦ rw (good, (to_true n (length (view b)) last)) refl
                      | inr more ↦
                          let (b', e', s) =
                            retrieve_until-Shows v (n + 2) (b.reader_index + n + 2) (omega arith)
                              more in
                          rw (good, to_false n (length (view b)) (omega (arith, more)), e')
                            (parse_loop_refines rounds r.1 b' r.2 s.valid
                              ∙ ap (λ t. parse_bytes rounds r.1 t r.2) s.shown)
                    ]
                  ])
        ])

  unfoldable pub parse_all :
      HttpRequest → Bytes → World db → Result (Bool × HttpRequest × Bytes × World db)
  parse_all q input w =
      if leb (length input) 0
      then ok (false, q, input, w)
      else parse_bytes (suc (length input)) q input w

-- On a valid buffer `parse` does what the parser on the plain bytes does: the same faults, the same
-- answer, request and world, and what is left in the buffer are the bytes that are left there.
pub parse_refines :
    (db : Database) (q : HttpRequest) (b : Buffer) (w : World db)
    → IsValid b
    → seen db (parse db q b w) ≡ parse_all db q (view b) w
unfolding parse parse_all
parse_refines db q b w v =
    let readable : read_able_bytes b ≡ length (view b) =
      read_able_bytes_lem v ∙ sym (length-view v) in
    rw readable (elim (Bool-cases (leb (length (view b)) 0)) [
      | inl e ↦ rw e refl
      | inr e ↦ rw e (parse_loop_refines db (suc (length (view b))) q b w v)
    ])
