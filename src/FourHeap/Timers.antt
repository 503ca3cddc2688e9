-- ===== src/FourHeap/Timers.antt =====
-- The timers that src/base/four_heap.cc holds, as a map from their numbers.
use Prim.Native.Nat.{ℕ, zero, suc}
use tiny_http_server.Prelude.{
  ◌<◌, ◌≡◌, ◌∙◌, refl, arith, ap, sym, subst, List, [], ◌∷◌, ◌++◌, Option, none, some,
  if◌then◌else◌, ◌==◌, if_true, if_false, Bool-cases, inl, inr, length, get_elem?, get_elem?-lt,
  set, length-set, length-append, Option-cases,
}
use tiny_http_server.Prelude.Result.{Result, Returns}
use tiny_http_server.FourHeap.{TimerNode, FourHeap, put, shif_up, shif, push}
use tiny_http_server.FourHeap.Index.{IsIndexed, IsSame, view, view_at, view_agrees, get_elem?-set}
use tiny_http_server.FourHeap.Shift.{shif_keeps, shif_up_keeps}

-- A map from numbers to timers: with a timer put under its number, and without a number.
abbrev pub with_timer : TimerNode → (ℕ → Option TimerNode) → ℕ → Option TimerNode
with_timer a m s = if a.node_seq == s then some a else m s

abbrev pub without : ℕ → (ℕ → Option TimerNode) → ℕ → Option TimerNode
without id m s = if id == s then none else m s

-- The heap holds the timers of a map.
pub record Holds (m : ℕ → Option TimerNode) (h : FourHeap) : Type 0 where
  pub indexed : IsIndexed h
  pub timers : (s : ℕ) → view h s ≡ m s

pub IsSame-Holds :
    {m : ℕ → Option TimerNode} {h h' : FourHeap} → Holds m h → IsSame h h' → Holds m h'
IsSame-Holds v p = record { indexed = p.indexed; timers = λ s. p.same s ∙ v.timers s }

get_elem?-snoc {ℓ} :
    {A : Type ℓ} (xs : List A) (a : A) (i : ℕ)
    → get_elem? (xs ++ a ∷ []) i ≡ (if length xs == i then some a else get_elem? xs i)
get_elem?-snoc [] a zero = refl
get_elem?-snoc [] a (suc i) = ground arith
get_elem?-snoc (x ∷ xs) a zero = ground arith
get_elem?-snoc (x ∷ xs) a (suc i) = get_elem?-snoc xs a i ∙ ground arith

-- a new node at the end
abbrev added : TimerNode → FourHeap → FourHeap
added node h = record {
  heap = h.heap ++ node ∷ [];
  index = put node.node_seq (length h.heap) h.index;
}

added-IsIndexed :
    (node : TimerNode) (h : FourHeap)
    → h.index node.node_seq ≡ none
    → IsIndexed h
    → IsIndexed (added node h)
added-IsIndexed node h new v = record {
  at = λ i c e. let e' = sym (get_elem?-snoc h.heap node i) ∙ e in grind (arith, v.at i c, new);
  only = λ s i e. elim (Bool-cases (node.node_seq == s)) [
    | inl is_new ↦ (node, get_elem?-snoc h.heap node i ∙ grind (arith, e), ground arith)
    | inr old ↦
        let kept : h.index s ≡ some i = grind (arith, e) in
        let (c, ec, es) = v.only s i kept in
        let less = get_elem?-lt h.heap i ec in
        (c, get_elem?-snoc h.heap node i ∙ grind (arith, ec, less), es)
  ];
}

added-Holds :
    (node : TimerNode) (h : FourHeap) (m : ℕ → Option TimerNode)
    → h.index node.node_seq ≡ none
    → Holds m h
    → Holds (with_timer node m) (added node h)
added-Holds node h m new v =
    let w = added-IsIndexed node h new v.indexed in
    record {
      indexed = w;
      timers = λ s. elim (Bool-cases (node.node_seq == s)) [
        | inl is_new ↦
            let e : node.node_seq ≡ s = ground arith in
            subst (λ t. view (added node h) t ≡ some node) e
              (view_at (added node h) (length h.heap) node w
                (get_elem?-snoc h.heap node (length h.heap) ∙ ground arith))
            ∙ sym (if_true _ _ _ is_new)
        | inr old ↦
            view_agrees h (added node h) s v.indexed w (λ missing. if_false _ _ _ old ∙ missing)
              (λ i c ec es.
                let less = get_elem?-lt h.heap i ec in
                (i, get_elem?-snoc h.heap node i ∙ grind (arith, ec, less)))
            ∙ v.timers s
            ∙ sym (if_false _ _ _ old)
      ];
    }

-- a node in the place of one of the same number
abbrev pub replaced : ℕ → TimerNode → FourHeap → FourHeap
replaced pos node h = record h { heap = set h.heap pos node }

replaced-IsIndexed :
    (pos : ℕ) (node : TimerNode) (h : FourHeap)
    → h.index node.node_seq ≡ some pos
    → pos < length h.heap
    → IsIndexed h
    → IsIndexed (replaced pos node h)
replaced-IsIndexed pos node h there hp v = record {
  at = λ i c e.
      let e' = sym (get_elem?-set h.heap pos i node hp) ∙ e in grind (arith, v.at i c, there);
  only = λ s i e. elim (Bool-cases (pos == i)) [
    | inl here ↦
        let (c, ec, es) = v.only s i e in
        let (d, ed, es') = v.only node.node_seq pos there in
        (
          node,
          get_elem?-set h.heap pos i node hp ∙ if_true _ _ _ here,
          grind (arith, ec, ed, es, es'),
        )
    | inr away ↦
        let (c, ec, es) = v.only s i e in
        (c, get_elem?-set h.heap pos i node hp ∙ if_false _ _ _ away ∙ ec, es)
  ];
}

pub replaced-Holds :
    (pos : ℕ) (node : TimerNode) (h : FourHeap) (m : ℕ → Option TimerNode)
    → h.index node.node_seq ≡ some pos
    → Holds m h
    → Holds (with_timer node m) (replaced pos node h) × (pos < length h.heap)
replaced-Holds pos node h m there v =
    let (d, ed, es) = v.indexed.only node.node_seq pos there in
    let hp = get_elem?-lt h.heap pos ed in
    let w = replaced-IsIndexed pos node h there hp v.indexed in
    (
      record {
        indexed = w;
        timers = λ s. elim (Bool-cases (node.node_seq == s)) [
          | inl is_new ↦
              let e : node.node_seq ≡ s = ground arith in
              subst (λ t. view (replaced pos node h) t ≡ some node) e
                (view_at (replaced pos node h) pos node w
                  (get_elem?-set h.heap pos pos node hp ∙ ground arith))
              ∙ sym (if_true _ _ _ is_new)
          | inr old ↦
              view_agrees h (replaced pos node h) s v.indexed w (λ missing. missing)
                (λ i c ec es'.
                  (i, get_elem?-set h.heap pos i node hp ∙ grind (arith, ec, ed, es, es', old)))
              ∙ v.timers s
              ∙ sym (if_false _ _ _ old)
        ];
      },
      hp,
    )

abbrev push_at : TimerNode → FourHeap → Option ℕ → Result FourHeap
push_at node h o = elim o [
  | none ↦ shif_up (length h.heap) (added node h)
  | some pos ↦ shif pos (replaced pos node h)
]

-- `push` puts a timer under its number, new or not.
pub push_refines :
    (node : TimerNode) (h : FourHeap) (m : ℕ → Option TimerNode)
    → Holds m h
    → Returns (push node h) (Holds (with_timer node m))
unfolding push
push_refines node h m v = elim (Option-cases (h.index node.node_seq)) [
  | inl new ↦
      let w = added-Holds node h m new v in
      let (h', up, same) =
        shif_up_keeps (length h.heap) (added node h)
          (omega (arith, length-append h.heap (node ∷ []))) w.indexed in
      (h', ap (push_at node h) new ∙ up, IsSame-Holds w same)
  | inr (pos, there) ↦
      let (w, hp) = replaced-Holds pos node h m there v in
      let (h', moves, same) =
        shif_keeps pos (replaced pos node h) (omega (arith, hp, length-set h.heap pos node))
          w.indexed in
      (h', ap (push_at node h) there ∙ moves, IsSame-Holds w same)
]
