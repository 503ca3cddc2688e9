-- ===== src/FourHeap/Found.antt =====
-- What `get_k` of src/base/four_heap.cc finds, if it returns.
use Prim.Native.Nat.{ℕ, zero, suc, ◌/◌}
use tiny_http_server.Prelude.{
  ◌≤◌, ◌≡◌, ◌∙◌, arith, ap, subst, sym, List, [], ◌∷◌, ◌++◌, some, if_true, if_false, Bool-cases,
  inl, inr, List-cases, ltb, All, All-append,
}
use tiny_http_server.Prelude.Result.{ok, Yields, Yields-ok}
use tiny_http_server.FourHeap.{TimerNode, FourHeap, get_k, get_k_rounds, children}
use tiny_http_server.FourHeap.Index.{IsIndexed, view, view_at}
use tiny_http_server.FourHeap.Expired.{
  All-get, All-take, All-drop, take_top_lem, index_or_zero-some, round, go_on, first_round,
}

-- a timer of the heap, and one that has expired
abbrev IsIn : FourHeap → TimerNode → Type 0
IsIn h a = (view h a.node_seq ≡ some a) × ((i : ℕ) × (h.index a.node_seq ≡ some i))

abbrev IsDue : FourHeap → ℕ → TimerNode → Type 0
IsDue h timer a = (a.timer ≤ timer) × (view h a.node_seq ≡ some a)

get_k_rounds-IsDue :
    (rounds : ℕ) (h : FourHeap) (timer : ℕ) (q res : List TimerNode)
    → All (IsIn h) h.heap
    → All (IsIn h) q
    → All (IsDue h timer) res
    → Yields (get_k_rounds rounds timer q res h) (All (IsDue h timer))
unfolding get_k_rounds
get_k_rounds-IsDue zero h timer q res all qs found = tt
get_k_rounds-IsDue (suc rounds) h timer [] res all qs found = found
get_k_rounds-IsDue (suc rounds) h timer (c ∷ q) res all qs found =
    let (a, rest, top, (there, (i, noted)), others) = take_top_lem (IsIn h) c q qs.0 qs.1 in
    let next = children (i / 4) h.heap in
    subst (λ o. Yields (round rounds timer res h o) (All (IsDue h timer))) (sym top)
      (elim (Bool-cases (ltb timer a.timer)) [
        | inl late ↦ subst (λ r. Yields r (All (IsDue h timer))) (sym (if_true _ _ _ late)) found
        | inr early ↦
            subst (λ r. Yields r (All (IsDue h timer)))
              (sym (
                if_false _ _ _ early
                ∙ ap (go_on rounds timer res a rest) (index_or_zero-some h a.node_seq i noted)))
              (get_k_rounds-IsDue rounds h timer (next ++ rest) (res ++ a ∷ []) all
                (All-append _ next rest (All-take _ 4 _ (All-drop _ _ _ all)) others)
                (All-append _ res (a ∷ []) found ((ground arith, there), tt)))
      ])

-- What `get_k` returns are timers of the heap that have expired.
pub get_k-IsDue :
    (rounds timer : ℕ) (h : FourHeap) (es : List TimerNode)
    → IsIndexed h
    → get_k rounds timer h ≡ ok es
    → All (λ a. (a.timer ≤ timer) × (view h a.node_seq ≡ some a)) es
unfolding get_k
get_k-IsDue rounds timer h es v e =
    let all : All (IsIn h) h.heap =
      All-get (IsIn h) h.heap (λ i a found. (view_at h i a v found, (i, v.at i a found))) in
    Yields-ok (All (IsDue h timer))
      (elim (List-cases h.heap) [
        | inl empty ↦
            subst (λ xs. Yields (first_round rounds timer h xs) (All (IsDue h timer))) (sym empty)
              tt
        | inr (a, rest, there) ↦
            subst (λ xs. Yields (first_round rounds timer h xs) (All (IsDue h timer))) (sym there)
              (get_k_rounds-IsDue rounds h timer (a ∷ []) [] all
                ((subst (All (IsIn h)) there all).0, tt) tt)
      ])
      e
