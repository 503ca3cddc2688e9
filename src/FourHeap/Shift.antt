-- ===== src/FourHeap/Shift.antt =====
-- The moves up and down of src/base/four_heap.cc: they end, and lose no timer.
use Prim.Native.Nat.{ℕ, zero, suc, ◌+◌, ◌*◌, ◌/◌}
use mathlib.Core.Option.{some_inj}
use tiny_http_server.Prelude.{
  ◌<◌, ◌≤◌, ◌≡◌, ◌≢◌, ◌∙◌, refl, arith, ap, sym, subst, List, Option, none, some, if◌then◌else◌,
  ◌==◌, if_true, if_false, Bool-cases, inl, inr, length, get_elem?, get_elem-there, get_elem?-lt,
  ltb, leb, Option-cases,
}
use tiny_http_server.Prelude.Result.{Result, ok, ◌>>=◌, Returns}
use tiny_http_server.FourHeap.{
  TimerNode, FourHeap, swap, node_at, least, shif_down_rounds, shif_up_rounds, shif_up, shif,
}
use tiny_http_server.FourHeap.Index.{
  IsIndexed, IsSame, IsSame-refl, IsSame-trans, swap_keeps, node_at_lem,
}

-- a position from `k` on whose timer is before `mini`
record IsBetter (xs : List TimerNode) (k mini m : ℕ) : Type 0 where
  inside : m < length xs
  beyond : k ≤ m
  node : TimerNode
  there : get_elem? xs m ≡ some node
  before : node.timer < mini

-- `least` with the node at its position
abbrev least_at : ℕ → ℕ → ℕ → Option ℕ → List TimerNode → Option TimerNode → Option ℕ
least_at left k mini best xs o = elim o [
  | none ↦ best
  | some a ↦
      if ltb a.timer mini
      then least left (k + 1) a.timer (some k) xs
      else least left (k + 1) mini best xs
]

least-IsBetter :
    (xs : List TimerNode) (k0 mini0 left k mini : ℕ) (best : Option ℕ) (m : ℕ)
    → k0 ≤ k
    → mini ≤ mini0
    → ((m' : ℕ) → best ≡ some m' → IsBetter xs k0 mini0 m')
    → least left k mini best xs ≡ some m
    → IsBetter xs k0 mini0 m
unfolding least
least-IsBetter xs k0 mini0 zero k mini best m hk hm h e = h m e
least-IsBetter xs k0 mini0 (suc left) k mini best m hk hm h e =
    elim (Option-cases (get_elem? xs k)) [
      | inl past ↦ h m (sym (ap (least_at left k mini best xs) past) ∙ e)
      | inr (a, found) ↦ elim (Bool-cases (ltb a.timer mini)) [
        | inl better ↦
            least-IsBetter xs k0 mini0 left (k + 1) a.timer (some k) m (omega (arith, hk))
              (ground arith)
              (λ m' e'. subst (IsBetter xs k0 mini0) (some_inj.0 e') (record {
                inside = get_elem?-lt xs k found;
                beyond = hk;
                node = a;
                there = found;
                before = ground arith;
              }))
              (sym (if_true _ _ _ better) ∙ sym (ap (least_at left k mini best xs) found) ∙ e)
        | inr worse ↦
            least-IsBetter xs k0 mini0 left (k + 1) mini best m (omega (arith, hk)) hm h
              (sym (if_false _ _ _ worse) ∙ sym (ap (least_at left k mini best xs) found) ∙ e)
      ]
    ]

-- the swap of a round, with the best child
abbrev sink : ℕ → ℕ → ℕ → FourHeap → Option ℕ → Result (ℕ × FourHeap)
sink rounds i count h o = elim o [
  | none ↦ ok (count, h)
  | some m ↦ swap i m h >>= λ h'. shif_down_rounds rounds m (count + 1) h'
]

better-lt :
    (xs : List TimerNode) (i m : ℕ) (a : TimerNode)
    → get_elem? xs i ≡ some a
    → IsBetter xs (i * 8) a.timer m
    → i < m
better-lt xs i m a ea p = elim (Bool-cases (i == m)) [
  | inl same ↦
      let e : i ≡ m = ground arith in
      let twice = ap (λ x. x.timer) (some_inj.0 (sym ea ∙ ap (get_elem? xs) e ∙ p.there)) in
      absurd (omega (arith, twice, p.before))
  | inr other ↦ let differ : i ≢ m = λ e. ground arith in let far = p.beyond in ground arith
]

pub shif_down_keeps :
    (rounds i count : ℕ) (h : FourHeap)
    → i < length h.heap
    → length h.heap < i + rounds
    → IsIndexed h
    → Returns (shif_down_rounds rounds i count h) (λ r. IsSame h r.1)
unfolding shif_down_rounds
shif_down_keeps zero i count h hi hr v = absurd (omega (arith, hi, hr))
shif_down_keeps (suc rounds) i count h hi hr v = elim (Bool-cases (leb (length h.heap) (i * 8))) [
  | inl last ↦ ((count, h), if_true _ _ _ last, IsSame-refl v)
  | inr more ↦
      let (a, ea) = get_elem-there h.heap i hi in
      let first =
        if_false _ _ _ more
        ∙ ap (λ x. x >>= λ b. sink rounds i count h (least 4 (i * 8) b.timer none h.heap))
            (node_at_lem h.heap i ea) in
      elim (Option-cases (least 4 (i * 8) a.timer none h.heap)) [
        | inl low ↦ ((count, h), first ∙ ap (sink rounds i count h) low, IsSame-refl v)
        | inr (m, found) ↦
            let p =
              least-IsBetter h.heap (i * 8) a.timer 4 (i * 8) a.timer none m (omega arith)
                (omega arith) (λ m' e. absurd (let clash = e in cc)) found in
            let (h', swaps, moved) = swap_keeps i m h hi p.inside v in
            let less = better-lt h.heap i m a ea p in
            let (r, rest, same) =
              shif_down_keeps rounds m (count + 1) h' (omega (arith, p.inside, moved.size))
                (omega (arith, less, moved.size)) moved.indexed in
            (
              r,
              first
                  ∙ ap (sink rounds i count h) found
                  ∙ ap (λ x. x >>= λ h2. shif_down_rounds rounds m (count + 1) h2) swaps
                  ∙ rest,
              IsSame-trans moved same,
            )
      ]
]

-- what a round of `shif_up_` does with its two nodes
abbrev climb : ℕ → ℕ → ℕ → FourHeap → TimerNode → TimerNode → Result FourHeap
climb rounds i j h a b =
    if leb a.timer b.timer then ok h else (swap i j h >>= λ h'. shif_up_rounds rounds j j h')

-- a round of `shif_up_` that looks at one node twice ends
round_at_parent :
    (rounds j : ℕ) (h : FourHeap) → j < length h.heap → shif_up_rounds (suc rounds) j j h ≡ ok h
unfolding shif_up_rounds
round_at_parent rounds j h hj =
    let (a, ea) = get_elem-there h.heap j hj in
    ap (λ x. x >>= λ b. x >>= λ c. climb rounds j j h b c) (node_at_lem h.heap j ea)
    ∙ if_true (leb a.timer a.timer) _ _ (ground arith)

shif_up_rounds_keeps :
    (i j : ℕ) (h : FourHeap)
    → i < length h.heap
    → j < length h.heap
    → IsIndexed h
    → Returns (shif_up_rounds 2 i j h) (IsSame h)
unfolding shif_up_rounds
shif_up_rounds_keeps i j h hi hj v =
    let (a, ea) = get_elem-there h.heap j hj in
    let (b, eb) = get_elem-there h.heap i hi in
    let first =
      ap (λ x. x >>= λ c. node_at h.heap i >>= λ d. climb 1 i j h c d) (node_at_lem h.heap j ea)
      ∙ ap (λ x. x >>= λ d. climb 1 i j h a d) (node_at_lem h.heap i eb) in
    elim (Bool-cases (leb a.timer b.timer)) [
      | inl low ↦ (h, first ∙ if_true _ _ _ low, IsSame-refl v)
      | inr high ↦
          let (h', swaps, moved) = swap_keeps i j h hi hj v in
          (
            h',
            first
                ∙ if_false _ _ _ high
                ∙ ap (λ x. x >>= λ h2. shif_up_rounds 1 j j h2) swaps
                ∙ round_at_parent 0 j h' (omega (arith, hj, moved.size)),
            moved,
          )
    ]

pub shif_up_keeps :
    (pos : ℕ) (h : FourHeap)
    → pos < length h.heap
    → IsIndexed h
    → Returns (shif_up pos h) (IsSame h)
unfolding shif_up
shif_up_keeps zero h hp v = (h, refl, IsSame-refl v)
shif_up_keeps (suc pos) h hp v = shif_up_rounds_keeps (suc pos) (pos / 4) h hp (omega (arith, hp)) v

-- Moving a node up or down ends, and the heap stands for the same timers.
pub shif_keeps :
    (pos : ℕ) (h : FourHeap) → pos < length h.heap → IsIndexed h → Returns (shif pos h) (IsSame h)
shif_keeps pos h hp v =
    let (r, down, same) = shif_down_keeps (suc (length h.heap)) pos 0 h hp (omega (arith, hp)) v in
    let start = ap (λ x. x >>= λ r'. if r'.0 == 0 then shif_up pos r'.1 else ok r'.1) down in
    elim (Bool-cases (r.0 == 0)) [
      | inl still ↦
          let (h', up, same') = shif_up_keeps pos r.1 (omega (arith, hp, same.size)) same.indexed in
          (h', start ∙ if_true _ _ _ still ∙ up, IsSame-trans same same')
      | inr moved ↦ (r.1, start ∙ if_false _ _ _ moved, same)
    ]
