-- ===== src/TcpServer/Count.antt =====
-- The numbers of the connections that a server of src/server/tcpserver.cc should keep.
use Prim.Native.Nat.{ℕ}
use mathlib.Core.Option.{some_inj}
use tiny_http_server.Prelude.{
  ◌<◌, ◌≤◌, ◌≡◌, ◌∙◌, arith, ap, sym, subst, List, [], ◌∷◌, Option, none, some, if_true, if_false,
  ◌==◌, Bool-cases, inl, inr, All, All-append, All-map, Option-cases,
}
use tiny_http_server.TcpServer.{Event, accepts, removes}
use tiny_http_server.TcpServer.Names.{with_first}
use tiny_http_server.TcpServer.Spec.{Open, Spec, closed, remove, accept, close, spec_run}

-- a connection that can be removed has a number that was given
pub remove_index :
    (n i : ℕ) (os os' : List Open)
    → All (λ o. o.index < n) os
    → remove i os ≡ some os'
    → (i < n) × All (λ o. o.index < n) os'
unfolding remove
remove_index n i [] os' older e = absurd (let clash = e in cc)
remove_index n i (o ∷ os) os' older e = elim (Bool-cases (o.index == i)) [
  | inl same ↦
      let kept = some_inj.0 (sym (if_true _ _ _ same) ∙ e) in
      (ground (arith, older.0), subst (All (λ o. o.index < n)) kept older.1)
  | inr other ↦ elim (Option-cases (remove i os)) [
    | inl missing ↦
        absurd (let clash = sym (if_false _ _ _ other ∙ ap (with_first o) missing) ∙ e in cc)
    | inr (os1, found) ↦
        let kept = some_inj.0 (sym (if_false _ _ _ other ∙ ap (with_first o) found) ∙ e) in
        let (less, older') = remove_index n i os os1 older.1 found in
        (less, subst (All (λ o. o.index < n)) kept (older.0, older'))
  ]
]

abbrev pub IsNumbered : Spec → Type 0
IsNumbered a = All (λ o. o.index < a.count) a.opened

pub close_kept :
    (o : Open) (a a' : Spec)
    → IsNumbered a
    → close o a ≡ some a'
    → (a'.count ≡ a.count) × IsNumbered a'
close_kept o a a' older e = elim (Option-cases (remove o.index a.opened)) [
  | inl missing ↦ absurd (let clash = sym (ap (closed o a) missing) ∙ e in cc)
  | inr (os, found) ↦
      let same = some_inj.0 (sym (ap (closed o a) found) ∙ e) in
      (
        ap (λ x. x.count) (sym same),
        subst IsNumbered same (remove_index a.count o.index a.opened os older found).1,
      )
]

pub accept_kept : (sockfd : ℕ) (a : Spec) → IsNumbered a → IsNumbered (accept sockfd a)
accept_kept sockfd a older =
    All-append _ a.opened _ (All-map a.opened (λ o h. omega (arith, h)) older) (omega arith, tt)

-- the rest of a run, after its first event
abbrev rest_run : List (Event Open) → Option Spec → Option Spec
rest_run es o = elim o [ none ↦ none | some a ↦ spec_run es a ]

-- a removal that the specification allows
pub close_first :
    (o : Open) (es : List (Event Open)) (a a' : Spec)
    → spec_run (removes o ∷ es) a ≡ some a'
    → (a1 : Spec) × (close o a ≡ some a1) × (spec_run es a1 ≡ some a')
unfolding spec_run
close_first o es a a' e = elim (Option-cases (close o a)) [
  | inl missing ↦ absurd (let clash = sym (ap (rest_run es) missing) ∙ e in cc)
  | inr (a1, found) ↦ (a1, found, sym (ap (rest_run es) found) ∙ e)
]

-- connections are only ever added to the count
pub spec_count :
    (es : List (Event Open)) (a a' : Spec)
    → IsNumbered a
    → spec_run es a ≡ some a'
    → a.count ≤ a'.count
unfolding spec_run
spec_count [] a a' older e = omega (arith, ap (λ x. x.count) (some_inj.0 e))
spec_count (accepts sockfd ∷ es) a a' older e =
    omega (arith, spec_count es (accept sockfd a) a' (accept_kept sockfd a older) e)
spec_count (removes o ∷ es) a a' older e =
    let (a1, found, e1) = close_first o es a a' e in
    let (same, older1) = close_kept o a a1 older found in
    omega (arith, same, spec_count es a1 a' older1 e1)
