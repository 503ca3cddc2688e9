-- ===== src/Urlencoded/Fields.antt =====
-- Which fields are read from a body of fields, and how the body is rewritten.
use Prim.Native.Nat.{ℕ}
use tiny_http_server.Prelude.{
  suc, ◌+◌, ◌-◌, ◌≡◌, false, [], ◌∷◌, ◌++◌, refl, ap, arith, ◌==◌, if◌then◌else◌, ◌||◌, length,
  length-append, All, get_elem?, get_elem?-append, set-append, slice-append_mid, some, none,
  append_assoc, slice,
}
use tiny_http_server.Prelude.Result.{ok, ◌>>=◌}
use tiny_http_server.Prelude.Map.{Bytes, Map, insert}
use tiny_http_server.Urlencoded.{Scan, scan, scan_char, equals, plus, percent, ampersand}

-- A byte that is no `=`, `%` or `&`.
abbrev pub IsPlain : ℕ → Type 0
IsPlain c = ((c == equals) || (c == percent) || (c == ampersand)) ≡ false

unfoldable pub spaces : Bytes → Bytes
spaces [] = []
spaces (c ∷ cs) = (if c == plus then b' ' else c) ∷ spaces cs

pub length-spaces : (cs : Bytes) → length (spaces cs) ≡ length cs
unfolding spaces
length-spaces [] = refl
length-spaces (c ∷ cs) = ap suc (length-spaces cs)

abbrev pub state : Bytes → ℕ → ℕ → Bytes → Map → Scan
state body i j key post = record { body = body; i = i; j = j; key = key; post = post }

pub scan_step :
    (s : Scan) (r c : ℕ)
    → get_elem? s.body s.i ≡ some c
    → scan (suc r) s ≡ (scan_char s c >>= scan r)
unfolding scan
scan_step s r c e = rw (e, scan) refl

pub scan_end : (s : Scan) (r : ℕ) → get_elem? s.body s.i ≡ none → scan (suc r) s ≡ ok s
unfolding scan
scan_end s r e = rw (e, scan) refl

module _ (done rest : Bytes) (i j : ℕ) (key : Bytes) (post : Map) (e : i ≡ length done) where
  plain_step :
      (c : ℕ)
      → IsPlain c
      → scan_char (state (done ++ c ∷ rest) i j key post) c
        ≡ ok (state (done ++ (if c == plus then b' ' else c) ∷ rest) (i + 1) j key post)
  unfolding scan_char
  plain_step c h = ground (arith, set-append done c rest i b' ' e)

  equals_step :
      scan_char (state (done ++ equals ∷ rest) i j key post) equals
      ≡ ok (
          state
            (done ++ equals ∷ rest)
            (i + 1)
            (i + 1)
            (slice (done ++ equals ∷ rest) j (i - j))
            post)
  unfolding scan_char
  equals_step = refl

  pub ampersand_step :
      scan_char (state (done ++ ampersand ∷ rest) i j key post) ampersand
      ≡ ok (
          state
            (done ++ ampersand ∷ rest)
            (i + 1)
            (i + 1)
            key
            (insert key (slice (done ++ ampersand ∷ rest) j (i - j)) post))
  unfolding scan_char
  ampersand_step = refl

-- A run of plain bytes is passed over, and each `+` in it becomes a space.
scan_plain :
    (seg done rest : Bytes) (r i j : ℕ) (key : Bytes) (post : Map)
    → All IsPlain seg
    → i ≡ length done
    → scan (length seg + r) (state (done ++ (seg ++ rest)) i j key post)
      ≡ scan r (state (done ++ (spaces seg ++ rest)) (i + length seg) j key post)
unfolding spaces
scan_plain [] done rest r i j key post h e =
    let p : 0 + r ≡ r = omega arith in let q : i + 0 ≡ i = omega arith in rw (p, q) refl
scan_plain (c ∷ seg) done rest r i j key post h e =
    let c' = if c == plus then b' ' else c in
    let rounds : suc (length seg) + r ≡ suc (length seg + r) = omega arith in
    let i' : i + 1 + length seg ≡ i + suc (length seg) = omega arith in
    let here = get_elem?-append done c (seg ++ rest) i e in
    let ih =
      scan_plain seg (done ++ c' ∷ []) rest r (i + 1) j key post h.1
        (omega (arith, length-append done (c' ∷ []))) in
    rw
      (
        rounds,
        scan_step (state (done ++ c ∷ (seg ++ rest)) i j key post) (length seg + r) c here,
        plain_step done (seg ++ rest) i j key post e c h.0,
        ← i',
        ← append_assoc done (c' ∷ []) (seg ++ rest),
        ← append_assoc done (c' ∷ []) (spaces seg ++ rest),
      )
      ih

-- what has been read when the value of a field named `k` starts
abbrev pub named : Bytes → Bytes → Bytes
named k done = done ++ (spaces k ++ equals ∷ [])

pub length-named : (k done : Bytes) → length (named k done) ≡ length done + length k + 1
length-named k done = omega (
  arith,
  length-append done (spaces k ++ equals ∷ []),
  length-append (spaces k) (equals ∷ []),
  length-spaces k,
)

-- A field `k=v` is read up to the end of its value: its name is in `key`, and its value starts at
-- `j`.
module _ (k v : Bytes) (hk : All IsPlain k) (hv : All IsPlain v) where
  pub scan_field :
      (done tail : Bytes) (r i : ℕ) (key : Bytes) (post : Map)
      → i ≡ length done
      → scan
          (length k + suc (length v + r))
          (state (done ++ (k ++ equals ∷ (v ++ tail))) i i key post)
        ≡ scan r (
            state
              (named k done ++ (spaces v ++ tail))
              (i + length k + 1 + length v)
              (i + length k + 1)
              (spaces k)
              post)
  scan_field done tail r i key post e =
      let at : i + length k ≡ length (done ++ spaces k) =
        omega (arith, length-append done (spaces k), length-spaces k) in
      let n : i + length k - i ≡ length (spaces k) = omega (arith, length-spaces k) in
      let before = append_assoc done (spaces k) (equals ∷ (v ++ tail)) in
      let after : named k done ++ (v ++ tail) ≡ (done ++ spaces k) ++ equals ∷ (v ++ tail) =
        simp append_assoc in
      let cut : slice ((done ++ spaces k) ++ equals ∷ (v ++ tail)) i (i + length k - i) ≡ spaces k =
        rw before
          (slice-append_mid done (spaces k) (equals ∷ (v ++ tail)) i (i + length k - i) e n) in
      let start : i + length k + 1 ≡ length (named k done) = omega (arith, length-named k done) in
      rw
        (
          scan_plain k done (equals ∷ (v ++ tail)) (suc (length v + r)) i i key post hk e,
          ← before,
          scan_step (state ((done ++ spaces k) ++ equals ∷ (v ++ tail)) (i + length k) i key post)
              (length v + r) equals
              (get_elem?-append (done ++ spaces k) equals (v ++ tail) (i + length k) at),
          equals_step (done ++ spaces k) (v ++ tail) (i + length k) i key post at,
          cut,
          ← after,
        )
        (scan_plain v (named k done) tail r (i + length k + 1) (i + length k + 1) (spaces k) post hv
          start)
