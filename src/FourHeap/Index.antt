-- ===== src/FourHeap/Index.antt =====
-- The positions that src/base/four_heap.cc keeps in `index_`, beside the nodes in `heap_`.
use Prim.Native.Nat.{ℕ}
use tiny_http_server.Prelude.{
  ◌<◌, ◌≡◌, ◌∙◌, refl, arith, ap, sym, subst, List, Option, none, some, if◌then◌else◌, ◌==◌,
  if_true, if_false, Bool-cases, inl, inr, length, get_elem?, set, length-set, get_elem-there,
  get_elem?-set_self, get_elem?-set_ne, Option-cases,
}
use tiny_http_server.Prelude.Result.{ok, fail, ◌>>=◌, Returns, out_of_bounds}
use tiny_http_server.FourHeap.{TimerNode, FourHeap, put, swap, node_at}

-- `index_` holds the number of every node, with its position, and nothing else.
pub record IsIndexed (h : FourHeap) : Type 0 where
  pub at : (i : ℕ) (a : TimerNode) → get_elem? h.heap i ≡ some a → h.index a.node_seq ≡ some i
  pub only :
      (s i : ℕ)
      → h.index s ≡ some i
      → (a : TimerNode) × (get_elem? h.heap i ≡ some a) × (a.node_seq ≡ s)

pub get_elem?-set {ℓ} :
    {A : Type ℓ} (xs : List A) (i j : ℕ) (v : A)
    → i < length xs
    → get_elem? (set xs i v) j ≡ (if i == j then some v else get_elem? xs j)
get_elem?-set xs i j v h = elim (Bool-cases (i == j)) [
  | inl same ↦
      let e : i ≡ j = ground arith in
      subst (λ k. get_elem? (set xs i v) k ≡ some v) e (get_elem?-set_self xs i v h)
      ∙ sym (if_true _ _ _ same)
  | inr other ↦ get_elem?-set_ne xs v (λ e. ground arith) ∙ sym (if_false _ _ _ other)
]

abbrev pub swapped : ℕ → ℕ → TimerNode → TimerNode → FourHeap → FourHeap
swapped l r a b h = record {
  heap = set (set h.heap l b) r a;
  index = put a.node_seq r (put b.node_seq l h.index);
}

pub swapped-get :
    (l r i : ℕ) (a b : TimerNode) (h : FourHeap)
    → l < length h.heap
    → r < length h.heap
    → get_elem? (swapped l r a b h).heap i
      ≡ (if r == i then some a else if l == i then some b else get_elem? h.heap i)
swapped-get l r i a b h hl hr =
    get_elem?-set (set h.heap l b) r i a (omega (arith, length-set h.heap l b))
    ∙ ap (λ x. if r == i then some a else x) (get_elem?-set h.heap l i b hl)

swapped-IsIndexed :
    (l r : ℕ) (a b : TimerNode) (h : FourHeap)
    → get_elem? h.heap l ≡ some a
    → get_elem? h.heap r ≡ some b
    → l < length h.heap
    → r < length h.heap
    → IsIndexed h
    → IsIndexed (swapped l r a b h)
swapped-IsIndexed l r a b h ea eb hl hr v = record {
  at = λ i c e.
      let e' = sym (swapped-get l r i a b h hl hr) ∙ e in
      grind (arith, v.at l a ea, v.at r b eb, v.at i c);
  only = λ s i e. elim (Bool-cases (a.node_seq == s)) [
    | inl is_a ↦ (a, swapped-get l r i a b h hl hr ∙ grind (arith, e), ground arith)
    | inr not_a ↦ elim (Bool-cases (b.node_seq == s)) [
      | inl is_b ↦ (
        b,
        swapped-get l r i a b h hl hr ∙ grind (arith, e, v.at l a ea, v.at r b eb),
        ground arith,
      )
      | inr not_b ↦
          let old : h.index s ≡ some i = grind (arith, e) in
          let (c, ec, es) = v.only s i old in
          (c, swapped-get l r i a b h hl hr ∙ grind (arith, ec, es), es)
    ]
  ];
}

-- The timers by their numbers: what a heap stands for.
abbrev pub view : FourHeap → ℕ → Option TimerNode
view h s = elim (h.index s) [ none ↦ none | some i ↦ get_elem? h.heap i ]

-- The same timers, perhaps in other places.
pub record IsSame (h h' : FourHeap) : Type 0 where
  pub indexed : IsIndexed h'
  pub size : length h'.heap ≡ length h.heap
  pub same : (s : ℕ) → view h' s ≡ view h s

pub IsSame-refl : {h : FourHeap} → IsIndexed h → IsSame h h
IsSame-refl v = record { indexed = v; size = refl; same = λ s. refl }

pub IsSame-trans : {h h' h'' : FourHeap} → IsSame h h' → IsSame h' h'' → IsSame h h''
IsSame-trans p q = record {
  indexed = q.indexed;
  size = q.size ∙ p.size;
  same = λ s. q.same s ∙ p.same s;
}

pub view_of : (h : FourHeap) (s i : ℕ) → h.index s ≡ some i → view h s ≡ get_elem? h.heap i
view_of h s i e = ap (λ o. elim o [ none ↦ none | some j ↦ get_elem? h.heap j ]) e

pub view_at :
    (h : FourHeap) (i : ℕ) (a : TimerNode)
    → IsIndexed h
    → get_elem? h.heap i ≡ some a
    → view h a.node_seq ≡ some a
view_at h i a v e = view_of h a.node_seq i (v.at i a e) ∙ e

pub view-none : (h : FourHeap) (s : ℕ) → h.index s ≡ none → view h s ≡ none
view-none h s e = ap (λ o. elim o [ none ↦ none | some j ↦ get_elem? h.heap j ]) e

-- where a node is after the swap
swapped_to :
    (l r i : ℕ) (a b c : TimerNode) (h : FourHeap)
    → get_elem? h.heap l ≡ some a
    → get_elem? h.heap r ≡ some b
    → l < length h.heap
    → r < length h.heap
    → get_elem? h.heap i ≡ some c
    → (j : ℕ) × (get_elem? (swapped l r a b h).heap j ≡ some c)
swapped_to l r i a b c h ea eb hl hr ec = elim (Bool-cases (l == i)) [
  | inl at_l ↦ (r, swapped-get l r r a b h hl hr ∙ grind (arith, ea, ec, at_l))
  | inr not_l ↦ elim (Bool-cases (r == i)) [
    | inl at_r ↦ (l, swapped-get l r l a b h hl hr ∙ grind (arith, eb, ec, at_r, not_l))
    | inr not_r ↦ (i, swapped-get l r i a b h hl hr ∙ grind (arith, ec, not_l, not_r))
  ]
]

-- Two heaps agree on a number that both or none of them have, under the same node.
pub view_agrees :
    (h h' : FourHeap) (s : ℕ)
    → IsIndexed h
    → IsIndexed h'
    → (h.index s ≡ none → h'.index s ≡ none)
    → ((i : ℕ) (c : TimerNode)
        → get_elem? h.heap i ≡ some c
        → c.node_seq ≡ s
        → (j : ℕ) × (get_elem? h'.heap j ≡ some c))
    → view h' s ≡ view h s
view_agrees h h' s v v' gone kept = elim (Option-cases (h.index s)) [
  | inl missing ↦ view-none h' s (gone missing) ∙ sym (view-none h s missing)
  | inr (i, found) ↦
      let (c, ec, es) = v.only s i found in
      let (j, moved) = kept i c ec es in
      subst (λ t. view h' t ≡ some c) es (view_at h' j c v' moved) ∙ sym (view_of h s i found ∙ ec)
]

swapped-view :
    (l r : ℕ) (a b : TimerNode) (h : FourHeap)
    → get_elem? h.heap l ≡ some a
    → get_elem? h.heap r ≡ some b
    → l < length h.heap
    → r < length h.heap
    → IsIndexed h
    → (s : ℕ) → view (swapped l r a b h) s ≡ view h s
swapped-view l r a b h ea eb hl hr v s =
    view_agrees h (swapped l r a b h) s v (swapped-IsIndexed l r a b h ea eb hl hr v)
      (λ missing. grind (arith, missing, v.at l a ea, v.at r b eb))
      (λ i c ec es. swapped_to l r i a b c h ea eb hl hr ec)

pub node_at_lem :
    (xs : List TimerNode) (i : ℕ) {a : TimerNode} → get_elem? xs i ≡ some a → node_at xs i ≡ ok a
node_at_lem xs i e = ap (λ o. elim o [ none ↦ fail out_of_bounds | some b ↦ ok b ]) e

pub swap_lem :
    (l r : ℕ) (h : FourHeap)
    → l < length h.heap
    → r < length h.heap
    → (a : TimerNode) × (b : TimerNode) × (get_elem? h.heap l ≡ some a)
      × (get_elem? h.heap r ≡ some b)
      × (swap l r h ≡ ok (swapped l r a b h))
unfolding swap
swap_lem l r h hl hr =
    let (a, ea) = get_elem-there h.heap l hl in
    let (b, eb) = get_elem-there h.heap r hr in
    (
      a,
      b,
      ea,
      eb,
      ap (λ x. x >>= λ c. node_at h.heap r >>= λ d. ok (swapped l r c d h))
            (node_at_lem h.heap l ea)
          ∙ ap (λ x. x >>= λ d. ok (swapped l r a d h)) (node_at_lem h.heap r eb),
    )

pub swapped-IsSame :
    (l r : ℕ) (a b : TimerNode) (h : FourHeap)
    → get_elem? h.heap l ≡ some a
    → get_elem? h.heap r ≡ some b
    → l < length h.heap
    → r < length h.heap
    → IsIndexed h
    → IsSame h (swapped l r a b h)
swapped-IsSame l r a b h ea eb hl hr v = record {
  indexed = swapped-IsIndexed l r a b h ea eb hl hr v;
  size = length-set (set h.heap l b) r a ∙ length-set h.heap l b;
  same = swapped-view l r a b h ea eb hl hr v;
}

pub swap_keeps :
    (l r : ℕ) (h : FourHeap)
    → l < length h.heap
    → r < length h.heap
    → IsIndexed h
    → Returns (swap l r h) (IsSame h)
swap_keeps l r h hl hr v =
    let (a, b, ea, eb, e) = swap_lem l r h hl hr in
    (swapped l r a b h, e, swapped-IsSame l r a b h ea eb hl hr v)
