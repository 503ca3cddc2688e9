-- ===== src/Urlencoded/Decode.antt =====
-- A body of fields, decoded: the fields that are stored, and the rewritten body.
use Prim.Native.Nat.{ℕ}
use tiny_http_server.Prelude.{
  suc, ◌+◌, ◌-◌, ◌<◌, ◌≡◌, ◌∙◌, true, false, List, [], ◌∷◌, ◌++◌, refl, ap, arith, ltb, leb, ◌==◌,
  if◌then◌else◌, ◌&&◌, not, length, length-append, All, get_elem?-append, slice-append_mid,
  get_elem?_end, append_assoc, slice, le→leb,
}
use tiny_http_server.Prelude.Result.{ok, ◌>>=◌}
use tiny_http_server.Prelude.Map.{Bytes, Map, insert, contains}
use tiny_http_server.Urlencoded.{scan, finish, parse_from_urlencoded, equals, ampersand, plus}
use tiny_http_server.Urlencoded.Fields.{
  IsPlain, spaces, length-spaces, state, scan_step, scan_end, ampersand_step, named, length-named,
  scan_field,
}

abbrev pub Fields : Type 0
Fields = List (Bytes × Bytes)

-- `&k=v` for each field
unfoldable pub encode_tail : Fields → Bytes
encode_tail [] = []
encode_tail ((k, v) ∷ fs) = ampersand ∷ (k ++ equals ∷ (v ++ encode_tail fs))

-- `k=v`, and the further fields behind it
unfoldable pub encode : Bytes → Bytes → Fields → Bytes
unfolding encode_tail
encode k v fs = k ++ equals ∷ (v ++ encode_tail fs)

-- Each field is stored under its name, a later one over an earlier one; but the last is stored
-- only if its name is new and its value not empty.
unfoldable pub store : Bytes → Bytes → Fields → Map → Map
store k v [] m =
    if not (contains (spaces k) m) && ltb 0 (length v) then insert (spaces k) (spaces v) m else m
store k v ((k', v') ∷ fs) m = store k' v' fs (insert (spaces k) (spaces v) m)

abbrev pub IsPlainField : Bytes × Bytes → Type 0
IsPlainField f = All IsPlain f.0 × All IsPlain f.1

spaces-append : (xs ys : Bytes) → spaces (xs ++ ys) ≡ spaces xs ++ spaces ys
unfolding spaces
spaces-append [] ys = refl
spaces-append (x ∷ xs) ys = ap (◌∷◌ (if x == plus then b' ' else x)) (spaces-append xs ys)

finish_value :
    (read v key : Bytes) (post : Map) (i j : ℕ)
    → j ≡ length read
    → i ≡ j + length v
    → finish (state (read ++ (spaces v ++ [])) i j key post)
      ≡ ok (
        read ++ (spaces v ++ []),
        if not (contains key post) && ltb 0 (length v) then insert key (spaces v) post else post,
      )
unfolding finish
finish_value read v key post i j e e' =
    let in_order : leb j i ≡ true = le→leb j i (omega arith) in
    let long : ltb j i ≡ ltb 0 (length v) = ground arith in
    let n : i - j ≡ length (spaces v) = omega (arith, length-spaces v) in
    rw (in_order, long, slice-append_mid read (spaces v) [] j (i - j) e n) refl

module _ (k v : Bytes) (hk : All IsPlain k) (hv : All IsPlain v) where
  last_field :
      (done : Bytes) (i : ℕ) (key : Bytes) (post : Map)
      → i ≡ length done
      → (scan
            (length k + suc (length v + 1))
            (state (done ++ (k ++ equals ∷ (v ++ []))) i i key post)
          >>= finish)
        ≡ ok (named k done ++ (spaces v ++ []), store k v [] post)
  unfolding store
  last_field done i key post e =
      let start : i + length k + 1 ≡ length (named k done) = omega (arith, length-named k done) in
      let after : length (named k done ++ (spaces v ++ [])) ≡ i + length k + 1 + length v = omega (
        arith,
        length-named k done,
        length-append (named k done) (spaces v ++ []),
        length-append (spaces v) [],
        length-spaces v,
      ) in
      rw
        (
          scan_field k v hk hv done [] 1 i key post e,
          scan_end
              (state (named k done ++ (spaces v ++ [])) (i + length k + 1 + length v)
                (i + length k + 1) (spaces k) post)
              0 (get_elem?_end _ (i + length k + 1 + length v) (omega (arith, after))),
        )
        (finish_value (named k done) v (spaces k) post (i + length k + 1 + length v)
          (i + length k + 1) start refl)

  -- A field with more behind it is stored at its `&`, and the next field starts there.
  next_field :
      (done rest : Bytes) (r i : ℕ) (key : Bytes) (post : Map)
      → i ≡ length done
      → scan
          (length k + suc (length v + suc r))
          (state (done ++ (k ++ equals ∷ (v ++ ampersand ∷ rest))) i i key post)
        ≡ scan r (
            state
              ((named k done ++ (spaces v ++ ampersand ∷ [])) ++ rest)
              (i + length k + 1 + length v + 1)
              (i + length k + 1 + length v + 1)
              (spaces k)
              (insert (spaces k) (spaces v) post))
  next_field done rest r i key post e =
      let p : ℕ = i + length k + 1 + length v in
      let seen : Bytes = named k done ++ spaces v in
      let start : i + length k + 1 ≡ length (named k done) = omega (arith, length-named k done) in
      let at : p ≡ length seen =
        omega
          (arith, length-named k done, length-append (named k done) (spaces v), length-spaces v) in
      let before = append_assoc (named k done) (spaces v) (ampersand ∷ rest) in
      let after : (named k done ++ (spaces v ++ ampersand ∷ [])) ++ rest
          ≡ seen ++ ampersand ∷ rest =
        simp append_assoc in
      let n : p - (i + length k + 1) ≡ length (spaces v) = omega (arith, length-spaces v) in
      let cut : slice (seen ++ ampersand ∷ rest) (i + length k + 1) (p - (i + length k + 1))
          ≡ spaces v =
        rw before (
          slice-append_mid (named k done) (spaces v) (ampersand ∷ rest) (i + length k + 1)
            (p - (i + length k + 1)) start n) in
      rw
        (
          scan_field k v hk hv done (ampersand ∷ rest) (suc r) i key post e,
          ← before,
          scan_step (state (seen ++ ampersand ∷ rest) p (i + length k + 1) (spaces k) post) r
              ampersand (get_elem?-append seen ampersand rest p at),
          ampersand_step seen rest p (i + length k + 1) (spaces k) post at,
          cut,
          after,
        )
        refl

-- The rounds that the fields take: one for each byte, and one for the end.
rounds : Bytes → Bytes → Fields → ℕ
rounds k v [] = length k + suc (length v + 1)
rounds k v ((k', v') ∷ fs) = length k + suc (length v + suc (rounds k' v' fs))

rounds_lem : (k v : Bytes) (fs : Fields) → rounds k v fs ≡ suc (length (encode k v fs))
unfolding rounds encode encode_tail
rounds_lem k v [] = omega (arith, length-append k (equals ∷ (v ++ [])), length-append v [])
rounds_lem k v ((k', v') ∷ fs) = omega (
  arith,
  rounds_lem k' v' fs,
  length-append k (equals ∷ (v ++ encode_tail ((k', v') ∷ fs))),
  length-append v (encode_tail ((k', v') ∷ fs)),
)

encode_pos : (k v : Bytes) (fs : Fields) → 0 < length (encode k v fs)
unfolding encode
encode_pos k v fs = omega (arith, length-append k (equals ∷ (v ++ encode_tail fs)))

spaces-encode :
    (k v : Bytes) (fs : Fields)
    → spaces (encode k v fs) ≡ spaces k ++ equals ∷ (spaces v ++ spaces (encode_tail fs))
unfolding encode spaces
spaces-encode k v fs =
    spaces-append k (equals ∷ (v ++ encode_tail fs))
    ∙ ap (λ t. spaces k ++ equals ∷ t) (spaces-append v (encode_tail fs))

decode_fields :
    (fs : Fields) (k v : Bytes)
    → All IsPlain k
    → All IsPlain v
    → All IsPlainField fs
    → (done : Bytes) (i : ℕ) (key : Bytes) (post : Map) → i ≡ length done
    → (scan (rounds k v fs) (state (done ++ encode k v fs) i i key post) >>= finish)
      ≡ ok (done ++ spaces (encode k v fs), store k v fs post)
unfolding rounds encode encode_tail store spaces
decode_fields [] k v hk hv hs done i key post e =
    let whole : done ++ spaces (encode k v []) ≡ named k done ++ (spaces v ++ []) =
      rw (spaces-encode k v []) (simp append_assoc) in
    rw whole (last_field k v hk hv done i key post e)
decode_fields ((k', v') ∷ fs) k v hk hv hs done i key post e =
    let read : Bytes = named k done ++ (spaces v ++ ampersand ∷ []) in
    let at : i + length k + 1 + length v + 1 ≡ length read = omega (
      arith,
      length-named k done,
      length-append (named k done) (spaces v ++ ampersand ∷ []),
      length-append (spaces v) (ampersand ∷ []),
      length-spaces v,
    ) in
    let whole : done ++ spaces (encode k v ((k', v') ∷ fs)) ≡ read ++ spaces (encode k' v' fs) =
      rw (spaces-encode k v ((k', v') ∷ fs)) (simp append_assoc) in
    rw (whole, next_field k v hk hv done (encode k' v' fs) (rounds k' v' fs) i key post e)
      (decode_fields fs k' v' hs.0.0 hs.0.1 hs.1 read (i + length k + 1 + length v + 1) (spaces k)
        (insert (spaces k) (spaces v) post) at)

-- A body that is written from fields of plain names and values is decoded: its fields are stored in
-- turn, each under its name, a later one over an earlier one, but the last field is stored only if
-- its name is not yet stored and its value is not empty; each `+` is a space there, and in the
-- rewritten body that is returned.
pub parse-encode :
    (k v : Bytes) (fs : Fields) (post : Map)
    → All IsPlainField ((k, v) ∷ fs)
    → parse_from_urlencoded (encode k v fs) post ≡ ok (spaces (encode k v fs), store k v fs post)
unfolding parse_from_urlencoded
parse-encode k v fs post h =
    let some_bytes : (length (encode k v fs) == 0) ≡ false = ground (arith, encode_pos k v fs) in
    rw (some_bytes, ← rounds_lem k v fs) (decode_fields fs k v h.0.0 h.0.1 h.1 [] 0 [] post refl)
