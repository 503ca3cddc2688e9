-- ===== src/Urlencoded/Progress.antt =====
-- How the decoder of src/http/httprequest.cc ends.
use Prim.Native.Nat.{ℕ}
use tiny_http_server.Prelude.{
  zero, suc, ◌+◌, ◌-◌, ◌≤◌, ◌<◌, ◌≡◌, ◌⊎◌, ◌∙◌, [], ◌∷◌, refl, arith, ltb, ◌==◌, length, length-set,
  get_elem?, set, Bool-cases, Option-cases, inl, inr, false, some, le→leb,
}
use tiny_http_server.Prelude.Result.{ok, fail, Returns, out_of_bounds}
use tiny_http_server.Prelude.Map.{Bytes, Map}
use tiny_http_server.Urlencoded.{
  Scan, read, write, escape, scan_char, scan, finish, stored, parse_from_urlencoded, equals, plus,
  percent, ampersand, conver_hex, store_digits, hex_pair, digit_char, ones, tens, ℤ,
}

get_elem?-lt : (xs : Bytes) (i c : ℕ) → get_elem? xs i ≡ some c → i < length xs
get_elem?-lt [] i c e = cc
get_elem?-lt (x ∷ xs) zero c e = omega arith
get_elem?-lt (x ∷ xs) (suc i) c e = omega (arith, get_elem?-lt xs i c e)

read_cases :
    (body : Bytes) (i : ℕ) → (read body i ≡ fail out_of_bounds) ⊎ ((c : ℕ) × (read body i ≡ ok c))
unfolding read
read_cases body i = elim (Option-cases (get_elem? body i)) [
  | inl e ↦ elim (Bool-cases (i == length body)) [
    | inl t ↦ inr (0, rw (e, read, t) refl)
    | inr f ↦ inl (rw (e, read, f) refl)
  ]
  | inr (c, e) ↦ inr (c, rw (e, read) refl)
]

pub read_ok : (body : Bytes) (i c : ℕ) → get_elem? body i ≡ some c → read body i ≡ ok c
unfolding read
read_ok body i c e = rw (e, read) refl

-- what one round leaves: the same length, a later position, and no field that starts behind it
record Moves (s t : Scan) : Type 0 where
  pub kept : length t.body ≡ length s.body
  pub later : s.i < t.i
  pub ordered : t.j ≤ t.i
  pub inside : t.i ≤ length t.body

-- what an escape leaves
record Escapes (s t : Scan) : Type 0 where
  pub kept : length t.body ≡ length s.body
  pub at : t.i ≡ s.i + 2
  pub same : t.j ≡ s.j
  pub inside : s.i + 2 < length s.body

pub write_ok : (body : Bytes) (i c : ℕ) → i < length body → write body i c ≡ ok (set body i c)
unfolding write
write_ok body i c h = ground arith

write_fails :
    (body : Bytes) (i c : ℕ) → ltb i (length body) ≡ false → write body i c ≡ fail out_of_bounds
unfolding write
write_fails body i c h = rw h refl

store_digits_cases :
    (s : Scan) (num : ℤ)
    → (store_digits s num ≡ fail out_of_bounds) ⊎ Returns (store_digits s num) (Escapes s)
unfolding store_digits
store_digits_cases s num = elim (Bool-cases (ltb (s.i + 2) (length s.body))) [
  | inl t ↦
      let d = digit_char (ones num) in
      let body' = set s.body (s.i + 2) d in
      let kept : length body' ≡ length s.body = length-set s.body (s.i + 2) d in
      inr (
        record s { body = set body' (s.i + 1) (digit_char (tens num)); i = s.i + 2 },
        rw
            (
              write_ok s.body (s.i + 2) d (ground arith),
              write_ok body' (s.i + 1) (digit_char (tens num)) (ground (arith, kept)),
            )
            refl,
        record {
          kept = length-set body' (s.i + 1) (digit_char (tens num)) ∙ kept;
          at = refl;
          same = refl;
          inside = ground arith;
        },
      )
  | inr f ↦ inl (rw (write_fails s.body (s.i + 2) (digit_char (ones num)) f) refl)
]

escape_cases : (s : Scan) → (escape s ≡ fail out_of_bounds) ⊎ Returns (escape s) (Escapes s)
unfolding escape
escape_cases s = elim (read_cases s.body (s.i + 1)) [
  | inl e ↦ inl (rw e refl)
  | inr (hi, e) ↦ elim (read_cases s.body (s.i + 2)) [
    | inl e' ↦ inl (rw (e, e') refl)
    | inr (lo, e') ↦ rw (e, e') (store_digits_cases s (hex_pair (conver_hex hi) (conver_hex lo)))
  ]
]

scan_char_cases :
    (s : Scan) (c : ℕ)
    → s.j ≤ s.i
    → s.i < length s.body
    → (scan_char s c ≡ fail out_of_bounds) ⊎ Returns (scan_char s c) (Moves s)
unfolding scan_char
scan_char_cases s c h h' = elim (Bool-cases (c == equals)) [
  | inl e ↦ rw e (inr (_, refl, omega arith))
  | inr e ↦ rw e (elim (Bool-cases (c == plus)) [
    | inl e' ↦ rw e' (inr (_, refl, omega (arith, length-set s.body s.i b' ')))
    | inr e' ↦ rw e' (elim (Bool-cases (c == percent)) [
      | inl e'' ↦ rw e'' (elim (escape_cases s) [
        | inl bad ↦ inl (rw bad refl)
        | inr (t, good, v) ↦ inr (record t { i = t.i + 1 }, rw good refl, omega (arith, v))
      ])
      | inr e'' ↦ rw e'' (elim (Bool-cases (c == ampersand)) [
        | inl f4 ↦ rw f4 (inr (_, refl, omega arith))
        | inr f4 ↦ rw f4 (inr (_, refl, omega arith))
      ])
    ])
  ])
]

-- what the whole loop leaves
record Scanned (s t : Scan) : Type 0 where
  pub kept : length t.body ≡ length s.body
  pub ordered : t.j ≤ t.i

scan_cases :
    (rounds : ℕ) (s : Scan)
    → length s.body - s.i < rounds
    → s.j ≤ s.i
    → s.i ≤ length s.body
    → (scan rounds s ≡ fail out_of_bounds) ⊎ Returns (scan rounds s) (Scanned s)
unfolding scan
scan_cases zero s f h h' = absurd (omega arith)
scan_cases (suc rounds) s f h h' = elim (Option-cases (get_elem? s.body s.i)) [
  | inl e ↦ inr (s, rw (e, scan) refl, omega arith)
  | inr (c, e) ↦ elim (scan_char_cases s c h (get_elem?-lt s.body s.i c e)) [
    | inl bad ↦ inl (rw (e, scan, bad) refl)
    | inr (t, good, v) ↦
        elim (scan_cases rounds t (omega (arith, get_elem?-lt s.body s.i c e)) v.ordered v.inside) [
          | inl bad ↦ inl (rw (e, scan, good) bad)
          | inr (u, done, w) ↦ inr (u, rw (e, scan, good) done, omega (arith, v, w))
        ]
  ]
]

-- Whatever the body, the decoder comes to an end, and its assertion `j <= i` does not fail: either
-- it reads or writes behind the body, or it returns a body of the same length.
pub parse_cases :
    (body : Bytes) (post : Map)
    → (parse_from_urlencoded body post ≡ fail out_of_bounds)
      ⊎ Returns (parse_from_urlencoded body post) (λ r. length r.0 ≡ length body)
unfolding parse_from_urlencoded finish
parse_cases body post = elim (Bool-cases (length body == 0)) [
  | inl e ↦ rw e (inr ((body, post), refl, refl))
  | inr e ↦
      let start : Scan = record { body = body; i = 0; j = 0; key = []; post = post } in
      rw e (elim (scan_cases (suc (length body)) start (omega arith) (omega arith) (omega arith)) [
        | inl bad ↦ inl (rw bad refl)
        | inr (t, good, w) ↦
            inr ((t.body, stored t), rw (good, le→leb t.j t.i w.ordered) refl, w.kept)
      ])
]
