-- ===== src/FourHeap/Removal.antt =====
-- How src/base/four_heap.cc takes a timer out.
use Prim.Native.Nat.{ℕ, zero, suc, ◌-◌}
use tiny_http_server.Prelude.{
  ◌<◌, ◌≡◌, ◌∙◌, arith, ap, sym, subst, List, [], ◌∷◌, Option, none, some, if◌then◌else◌, ◌==◌,
  if_true, if_false, Bool, Bool-cases, inl, inr, true, false, length, get_elem?, get_elem?-lt, take,
  ltb, le→leb, Option-cases,
}
use tiny_http_server.Prelude.Result.{Result, ok, ◌>>=◌, ◌>>◌, check, assertion, Returns}
use tiny_http_server.FourHeap.{TimerNode, FourHeap, forget, swap, shif, destory, drop_last, remove}
use tiny_http_server.FourHeap.Index.{
  IsIndexed, IsSame, swap_lem, swapped, swapped-get, swapped-IsSame, node_at_lem, view, view-none,
  view_of, view_agrees,
}
use tiny_http_server.FourHeap.Shift.{shif_keeps}
use tiny_http_server.FourHeap.Timers.{Holds, without, IsSame-Holds}

get_elem?-take {ℓ} :
    {A : Type ℓ} (xs : List A) (k i : ℕ)
    → get_elem? (take k xs) i ≡ (if ltb i k then get_elem? xs i else none)
get_elem?-take xs zero i = ground arith
get_elem?-take [] (suc k) i = ground arith
get_elem?-take (x ∷ xs) (suc k) zero = ground arith
get_elem?-take (x ∷ xs) (suc k) (suc i) = get_elem?-take xs k i ∙ ground arith

-- the heap without its last node, `a`
abbrev dropped : TimerNode → FourHeap → FourHeap
dropped a h = record { heap = take (length h.heap - 1) h.heap; index = forget a.node_seq h.index }

dropped-IsIndexed :
    (a : TimerNode) (h : FourHeap)
    → get_elem? h.heap (length h.heap - 1) ≡ some a
    → IsIndexed h
    → IsIndexed (dropped a h)
dropped-IsIndexed a h ea v = record {
  at = λ i c e.
      let e' = sym (get_elem?-take h.heap (length h.heap - 1) i) ∙ e in
      grind (arith, v.at i c, v.at (length h.heap - 1) a ea);
  only = λ s i e.
      let kept : h.index s ≡ some i = grind (arith, e) in
      let (c, ec, es) = v.only s i kept in
      let less = get_elem?-lt h.heap i ec in
      (c, get_elem?-take h.heap (length h.heap - 1) i ∙ grind (arith, ec, ea, es, e, less), es);
}

dropped-Holds :
    (a : TimerNode) (h : FourHeap) (m : ℕ → Option TimerNode)
    → get_elem? h.heap (length h.heap - 1) ≡ some a
    → Holds m h
    → Holds (without a.node_seq m) (dropped a h)
dropped-Holds a h m ea v =
    let w = dropped-IsIndexed a h ea v.indexed in
    record {
      indexed = w;
      timers = λ s. elim (Bool-cases (a.node_seq == s)) [
        | inl gone ↦ view-none (dropped a h) s (if_true _ _ _ gone) ∙ sym (if_true _ _ _ gone)
        | inr other ↦
            view_agrees h (dropped a h) s v.indexed w (λ missing. if_false _ _ _ other ∙ missing)
              (λ i c ec es.
                let less = get_elem?-lt h.heap i ec in
                (
                  i,
                  get_elem?-take h.heap (length h.heap - 1) i
                      ∙ grind (arith, ec, ea, es, other, less),
                ))
            ∙ v.timers s
            ∙ sym (if_false _ _ _ other)
      ];
    }

-- the end of `drop_last`, once the last node is known
abbrev settle : ℕ → FourHeap → TimerNode → Result FourHeap
settle pos h a =
    if ltb pos (length (dropped a h).heap) then shif pos (dropped a h) else ok (dropped a h)

drop_last_refines :
    (pos : ℕ) (a : TimerNode) (h : FourHeap) (m : ℕ → Option TimerNode)
    → get_elem? h.heap (length h.heap - 1) ≡ some a
    → Holds m h
    → Returns (drop_last pos h) (Holds (without a.node_seq m))
drop_last_refines pos a h m ea v =
    let w = dropped-Holds a h m ea v in
    let first = ap (λ x. x >>= settle pos h) (node_at_lem h.heap (length h.heap - 1) ea) in
    elim (Bool-cases (ltb pos (length (dropped a h).heap))) [
      | inl inside ↦
          let (h', moves, same) = shif_keeps pos (dropped a h) (ground arith) w.indexed in
          (h', first ∙ if_true _ _ _ inside ∙ moves, IsSame-Holds w same)
      | inr last ↦ (dropped a h, first ∙ if_false _ _ _ last, w)
    ]

-- the swap of `destory_`, and what follows it
abbrev take_out : ℕ → FourHeap → Bool → Result FourHeap
take_out pos h inner =
    if inner then (swap pos (length h.heap - 1) h >>= drop_last pos) else drop_last pos h

-- the node to take out is swapped to the end
swap_last :
    (pos : ℕ) (a : TimerNode) (h : FourHeap)
    → pos < length h.heap
    → get_elem? h.heap pos ≡ some a
    → IsIndexed h
    → Returns
        (swap pos (length h.heap - 1) h)
        (λ h'. IsSame h h' × (get_elem? h'.heap (length h'.heap - 1) ≡ some a))
swap_last pos a h less ea v =
    let hn : length h.heap - 1 < length h.heap = omega (arith, less) in
    let (a', b, ea', eb, swaps) = swap_lem pos (length h.heap - 1) h less hn in
    let moved = swapped-IsSame pos (length h.heap - 1) a' b h ea' eb less hn v in
    (
      swapped pos (length h.heap - 1) a' b h,
      swaps,
      (
        moved,
        subst (λ k. get_elem? (swapped pos (length h.heap - 1) a' b h).heap (k - 1) ≡ some a)
            (sym moved.size)
            (swapped-get pos (length h.heap - 1) (length h.heap - 1) a' b h less hn
              ∙ if_true (length h.heap - 1 == length h.heap - 1) _ _ (ground arith)
              ∙ sym ea'
              ∙ ea),
      ),
    )

take_out_refines :
    (pos : ℕ) (a : TimerNode) (h : FourHeap) (m : ℕ → Option TimerNode)
    → get_elem? h.heap pos ≡ some a
    → Holds m h
    → Returns (take_out pos h (ltb pos (length h.heap - 1))) (Holds (without a.node_seq m))
take_out_refines pos a h m ea v = elim (Bool-cases (ltb pos (length h.heap - 1))) [
  | inl inner ↦
      let (h1, swaps, (moved, last)) =
        swap_last pos a h (get_elem?-lt h.heap pos ea) ea v.indexed in
      let (h', drops, w) = drop_last_refines pos a h1 m last (IsSame-Holds v moved) in
      (h', if_true _ _ _ inner ∙ ap (λ x. x >>= drop_last pos) swaps ∙ drops, w)
  | inr at_end ↦
      let less = get_elem?-lt h.heap pos ea in
      let e : pos ≡ length h.heap - 1 = ground (arith, less) in
      let (h', drops, w) =
        drop_last_refines pos a h m (subst (λ i. get_elem? h.heap i ≡ some a) e ea) v in
      (h', if_false _ _ _ at_end ∙ drops, w)
]

destory_refines :
    (pos : ℕ) (a : TimerNode) (h : FourHeap) (m : ℕ → Option TimerNode)
    → get_elem? h.heap pos ≡ some a
    → Holds m h
    → Returns (destory pos h) (Holds (without a.node_seq m))
unfolding destory
destory_refines pos a h m ea v =
    let less = get_elem?-lt h.heap pos ea in
    let (h', takes, w) = take_out_refines pos a h m ea v in
    (
      h',
      ap (λ b. check b assertion >> take_out pos h (ltb pos (length h.heap - 1)))
            (le→leb pos (length h.heap - 1) (omega (arith, less)))
          ∙ takes,
      w,
    )

pub without-none :
    (id : ℕ) (h : FourHeap) (m : ℕ → Option TimerNode)
    → h.index id ≡ none
    → Holds m h
    → Holds (without id m) h
without-none id h m missing v = record {
  indexed = v.indexed;
  timers = λ s. elim (Bool-cases (id == s)) [
    | inl same ↦
        let e : id ≡ s = ground arith in
        subst (λ t. view h t ≡ none) e (view-none h id missing) ∙ sym (if_true _ _ _ same)
    | inr other ↦ v.timers s ∙ sym (if_false _ _ _ other)
  ];
}

abbrev remove_at : FourHeap → Option ℕ → Result (Bool × FourHeap)
remove_at h o = elim o [ none ↦ ok (false, h) | some pos ↦ destory pos h >>= λ h'. ok (true, h') ]

-- whether a map has an entry
abbrev pub is_there : Option TimerNode → Bool
is_there none = false
is_there (some a) = true

-- `remove` takes the timer of a number out, and says whether there was one.
pub remove_refines :
    (id : ℕ) (h : FourHeap) (m : ℕ → Option TimerNode)
    → Holds m h
    → Returns (remove id h) (λ r. (r.0 ≡ is_there (m id)) × Holds (without id m) r.1)
unfolding remove
remove_refines id h m v = elim (Option-cases (h.index id)) [
  | inl missing ↦
      let gone = sym (v.timers id) ∙ view-none h id missing in
      (
        (false, h),
        ap (remove_at h) missing,
        (ap is_there (sym gone), without-none id h m missing v),
      )
  | inr (pos, found) ↦
      let (a, ea, es) = v.indexed.only id pos found in
      let (h', e, w) = destory_refines pos a h m ea v in
      (
        (true, h'),
        ap (remove_at h) found ∙ ap (λ x. x >>= λ h2. ok (true, h2)) e,
        (
          ap is_there (sym (view_of h id pos found ∙ ea) ∙ v.timers id),
          subst (λ s. Holds (without s m) h') es w,
        ),
      )
]
