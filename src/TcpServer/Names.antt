-- ===== src/TcpServer/Names.antt =====
-- The names of the connections of src/server/tcpserver.cc, and the map that holds them by name.
use Prim.Native.Nat.{ℕ, ◌+◌}
use mathlib.Core.Option.{some_inj}
use tiny_http_server.Prelude.{
  ◌<◌, ◌≤◌, ◌≡◌, ◌≢◌, ◌∙◌, refl, arith, ap, sym, List, [], ◌∷◌, ◌++◌, map, Option, none, some,
  if_true, if_false, ◌==◌, codes, bytes_eq, bytes_eq_iff, Bool-cases, inl, inr, true, false, All,
  Option-cases,
}
use tiny_http_server.Prelude.Map.{Bytes}
use tiny_http_server.Prelude.Digits.{to_string-injective}
use tiny_http_server.TcpServer.{Connection, assign, erase, conn_name}
use tiny_http_server.TcpServer.Spec.{Open, remove}

abbrev pub with_first : Open → Option (List Open) → Option (List Open)
with_first o rest = elim rest [ none ↦ none | some os ↦ some (o ∷ os) ]

append_cancel {ℓ} : {A : Type ℓ} (xs : List A) {ys zs : List A} → xs ++ ys ≡ xs ++ zs → ys ≡ zs
append_cancel [] e = e
append_cancel (x ∷ xs) {ys} {zs} e = let rest : xs ++ ys ≡ xs ++ zs = cc in append_cancel xs rest

module _ (ip_port name : Bytes) (due : ℕ → ℕ) where
  -- the connection that the server makes for a number, whose loop is `due`
  abbrev pub conn_of : Open → Connection
  conn_of o = record {
    name = conn_name name ip_port (o.index + 1);
    loop = due o.index;
    sockfd = o.sockfd;
  }

  abbrev pub entry_of : Open → Bytes × Connection
  entry_of o = ((conn_of o).name, conn_of o)

  name-injective :
      (i j : ℕ)
      → i < 2147483647
      → j < 2147483647
      → conn_name name ip_port (i + 1) ≡ conn_name name ip_port (j + 1)
      → i ≡ j
  name-injective i j hi hj e =
      let digits_same =
        append_cancel (codes "#")
          (append_cancel ip_port (append_cancel (codes "-") (append_cancel name e))) in
      omega (arith, to_string-injective (omega arith) (omega arith) digits_same)

  abbrev name_of : ℕ → Bytes
  name_of i = conn_name name ip_port (i + 1)

  -- two numbers have the same name only if they are equal
  pub name_differs :
      (i j : ℕ) → i < 2147483647 → j < 2147483647 → i ≢ j → bytes_eq (name_of i) (name_of j) ≡ false
  name_differs i j hi hj differ = elim (Bool-cases (bytes_eq (name_of i) (name_of j))) [
    | inl same ↦
        absurd (differ (name-injective i j hi hj ((bytes_eq_iff (name_of i) (name_of j)).0 same)))
    | inr other ↦ other
  ]

  pub name_same : (i j : ℕ) → i ≡ j → bytes_eq (name_of i) (name_of j) ≡ true
  name_same i j e = (bytes_eq_iff (name_of i) (name_of j)).1 (ap name_of e)

  -- a connection of a new number comes last in the map
  pub assign_new :
      (o : Open) (os : List Open)
      → o.index < 2147483647
      → All (λ x. x.index < o.index) os
      → assign (conn_of o).name (conn_of o) (map entry_of os) ≡ map entry_of (os ++ o ∷ [])
  unfolding assign
  assign_new o [] h older = refl
  assign_new o (x ∷ os) h older =
      if_false _ _ _
        (name_differs x.index o.index (omega (arith, older.0)) h (λ e. omega (arith, older.0)))
      ∙ ap (◌∷◌ (entry_of x)) (assign_new o os h older.1)

  -- what `erase` does by the name is what `remove` does by the number
  pub erase_open :
      (n : ℕ) (o : Open) (os os' : List Open)
      → n ≤ 2147483647
      → All (λ x. x.index < n) os
      → o.index < n
      → remove o.index os ≡ some os'
      → erase (conn_of o).name (map entry_of os) ≡ (1, map entry_of os')
  unfolding erase remove
  erase_open n o [] os' h older ho e = absurd (let clash = e in cc)
  erase_open n o (x ∷ os) os' h older ho e = elim (Bool-cases (x.index == o.index)) [
    | inl same ↦
        if_true _ _ _ (name_same x.index o.index (ground arith))
        ∙ ap (λ l. (1, map entry_of l)) (some_inj.0 (sym (if_true _ _ _ same) ∙ e))
    | inr other ↦ elim (Option-cases (remove o.index os)) [
      | inl missing ↦
          absurd (let clash = sym (if_false _ _ _ other ∙ ap (with_first x) missing) ∙ e in cc)
      | inr (os1, found) ↦
          if_false _ _ _ (
            name_differs x.index o.index (omega (arith, older.0)) (omega arith)
              (λ same. ground arith))
          ∙ ap (λ r. (r.0, entry_of x ∷ r.1)) (erase_open n o os os1 h older.1 ho found)
          ∙ ap (λ l. (1, map entry_of l))
              (some_inj.0 (sym (if_false _ _ _ other ∙ ap (with_first x) found) ∙ e))
    ]
  ]
