-- ===== src/Urlencoded/Escape.antt =====
-- Percent escapes: the decoder rewrites the two digits in place and keeps all three bytes.
use Prim.Native.Nat.{ℕ}
use tiny_http_server.Prelude.{
  suc, ◌+◌, ◌-◌, ◌≡◌, [], ◌∷◌, ◌++◌, refl, arith, ltb, leb, ◌==◌, le→leb, lt→ltb, false, true,
  length, length-append, All, get_elem?_end, get_elem?-append_right, set-append_right, slice,
  slice-append_mid,
}
use tiny_http_server.Prelude.Result.{ok}
use tiny_http_server.Prelude.Map.{Bytes, Map, insert, contains}
use tiny_http_server.Urlencoded.{
  ℤ, store_digits, escape, scan_char, finish, conver_hex, hex_pair, digit_char, ones, tens,
  parse_from_urlencoded, equals, percent,
}
use tiny_http_server.Urlencoded.Progress.{read_ok, write_ok}
use tiny_http_server.Urlencoded.Fields.{
  IsPlain, spaces, state, scan_step, scan_end, named, length-named, scan_field,
}

-- the number that the code makes of the two bytes behind a `%`
abbrev pub escaped : ℕ → ℕ → ℤ
escaped hi lo = hex_pair (conver_hex hi) (conver_hex lo)

-- the two bytes that it puts in their place
abbrev pub rewritten : ℕ → ℕ → Bytes
rewritten hi lo = digit_char (tens (escaped hi lo)) ∷ digit_char (ones (escaped hi lo)) ∷ []

store_digits_step :
    (done rest : Bytes) (hi lo i j : ℕ) (key : Bytes) (post : Map) (num : ℤ)
    → i ≡ length done
    → store_digits (state (done ++ percent ∷ hi ∷ lo ∷ rest) i j key post) num
      ≡ ok (
          state
            (done ++ percent ∷ digit_char (tens num) ∷ digit_char (ones num) ∷ rest)
            (i + 2)
            j
            key
            post)
unfolding store_digits
store_digits_step done rest hi lo i j key post num e =
    let x = digit_char (tens num) in
    let y = digit_char (ones num) in
    let size = length-append done (percent ∷ hi ∷ lo ∷ rest) in
    let size' = length-append done (percent ∷ hi ∷ y ∷ rest) in
    rw
      (
        write_ok (done ++ percent ∷ hi ∷ lo ∷ rest) (i + 2) y (omega (arith, size)),
        set-append_right done (percent ∷ hi ∷ lo ∷ rest) (i + 2) 2 y (omega arith),
        write_ok (done ++ percent ∷ hi ∷ y ∷ rest) (i + 1) x (omega (arith, size')),
        set-append_right done (percent ∷ hi ∷ y ∷ rest) (i + 1) 1 x (omega arith),
      )
      refl

percent_step :
    (done rest : Bytes) (hi lo i j : ℕ) (key : Bytes) (post : Map)
    → i ≡ length done
    → scan_char (state (done ++ percent ∷ hi ∷ lo ∷ rest) i j key post) percent
      ≡ ok (state (done ++ percent ∷ (rewritten hi lo ++ rest)) (i + 2 + 1) j key post)
unfolding scan_char escape
percent_step done rest hi lo i j key post e =
    let body = done ++ percent ∷ hi ∷ lo ∷ rest in
    let first =
      read_ok body (i + 1) hi
        (get_elem?-append_right done (percent ∷ hi ∷ lo ∷ rest) (i + 1) 1 (omega arith)) in
    let second =
      read_ok body (i + 2) lo
        (get_elem?-append_right done (percent ∷ hi ∷ lo ∷ rest) (i + 2) 2 (omega arith)) in
    rw (first, second, store_digits_step done rest hi lo i j key post (escaped hi lo) e) refl

-- A value that is one percent escape is stored as three bytes, the `%` among them, whatever the
-- two digits are: it is not decoded.
pub parse_escape :
    (k : Bytes) (hi lo : ℕ) (post : Map)
    → All IsPlain k
    → contains (spaces k) post ≡ false
    → parse_from_urlencoded (k ++ equals ∷ percent ∷ hi ∷ lo ∷ []) post
      ≡ ok (
        named k [] ++ percent ∷ rewritten hi lo,
        insert (spaces k) (percent ∷ rewritten hi lo) post,
      )
unfolding parse_from_urlencoded finish spaces
parse_escape k hi lo post h new =
    let p : ℕ = 0 + length k + 1 + 0 in
    let j : ℕ = 0 + length k + 1 in
    let tail : Bytes = percent ∷ hi ∷ lo ∷ [] in
    let out : Bytes = percent ∷ rewritten hi lo in
    let size = length-append k (equals ∷ tail) in
    let size' = length-append (named k []) out in
    let name = length-named k [] in
    let some_bytes : (length (k ++ equals ∷ tail) == 0) ≡ false = ground (arith, size) in
    let rounds : suc (length (k ++ equals ∷ tail)) ≡ length k + suc (0 + 4) = omega (arith, size) in
    let last = state (named k [] ++ out) (p + 2 + 1) j (spaces k) post in
    let in_order : leb j (p + 2 + 1) ≡ true = le→leb j (p + 2 + 1) (omega arith) in
    let long : ltb j (p + 2 + 1) ≡ true = lt→ltb j (p + 2 + 1) (omega arith) in
    let value : slice (named k [] ++ (out ++ [])) j (p + 2 + 1 - j) ≡ out =
      slice-append_mid (named k []) out [] j (p + 2 + 1 - j) (omega (arith, name)) (omega arith) in
    rw
      (
        some_bytes,
        rounds,
        scan_field k [] h tt [] tail 4 0 [] post refl,
        scan_step (state (named k [] ++ tail) p j (spaces k) post) 3 percent
            (get_elem?-append_right (named k []) tail p 0 (omega (arith, name))),
        percent_step (named k []) [] hi lo p j (spaces k) post (omega (arith, name)),
        scan_end last 2
            (get_elem?_end (named k [] ++ out) (p + 2 + 1) (omega (arith, size', name))),
        in_order,
        new,
        long,
        value,
      )
      refl
