-- ===== src/FourHeap/Expired.antt =====
-- `get_k` of src/base/four_heap.cc, which should return the timers that have expired.
use Prim.Native.Nat.{ℕ, zero, suc, ◌+◌, ◌/◌}
use mathlib.Core.Option.{some_inj}
use tiny_http_server.Prelude.{
  ◌<◌, ◌≤◌, ◌≡◌, ◌∙◌, refl, arith, ap, subst, List, [], ◌∷◌, ◌++◌, Option, none, some,
  if◌then◌else◌, if_true, if_false, Bool-cases, inl, inr, length, get_elem?, get_elem?-lt,
  List-cases, take, drop, ltb, le→ltb, All, All-append, length-drop, length-take, length-append,
}
use tiny_http_server.Prelude.Result.{Result, ok, fail, out_of_fuel}
use tiny_http_server.FourHeap.{
  TimerNode, FourHeap, take_top, get_k, get_k_rounds, children, put, index_or_zero,
}
use tiny_http_server.FourHeap.Index.{IsIndexed}

-- a timer of the heap that has expired
abbrev IsExpired : FourHeap → ℕ → TimerNode → Type 0
IsExpired h timer a =
    (a.timer ≤ timer) × ((i : ℕ) × (h.index a.node_seq ≡ some i) × (i < length h.heap))

pub All-get {ℓ κ} :
    {A : Type ℓ} (P : A → Type κ) (xs : List A)
    → ((i : ℕ) (a : A) → get_elem? xs i ≡ some a → P a)
    → All P xs
All-get P [] f = tt
All-get P (x ∷ xs) f = (f 0 x refl, All-get P xs (λ i a e. f (suc i) a e))

get-All {ℓ κ} :
    {A : Type ℓ} (P : A → Type κ) (xs : List A) (i : ℕ) (a : A)
    → All P xs
    → get_elem? xs i ≡ some a
    → P a
get-All P [] i a h e = absurd (let clash = e in cc)
get-All P (x ∷ xs) zero a h e = subst P (some_inj.0 e) h.0
get-All P (x ∷ xs) (suc i) a h e = get-All P xs i a h.1 e

pub All-take {ℓ κ} :
    {A : Type ℓ} (P : A → Type κ) (n : ℕ) (xs : List A) → All P xs → All P (take n xs)
All-take P zero xs h = tt
All-take P (suc n) [] h = tt
All-take P (suc n) (x ∷ xs) h = (h.0, All-take P n xs h.1)

pub All-drop {ℓ κ} :
    {A : Type ℓ} (P : A → Type κ) (n : ℕ) (xs : List A) → All P xs → All P (drop n xs)
All-drop P zero xs h = h
All-drop P (suc n) [] h = tt
All-drop P (suc n) (x ∷ xs) h = All-drop P n xs h.1

-- the latest of a queue, with the first of it and the latest of the others
abbrev later : TimerNode → Option (TimerNode × List TimerNode) → Option (TimerNode × List TimerNode)
later a o = elim o [
  | none ↦ some (a, [])
  | some (b, rest) ↦ if ltb a.timer b.timer then some (b, a ∷ rest) else some (a, b ∷ rest)
]

-- the latest timer of a queue that is not empty, and the others
pub take_top_lem :
    (P : TimerNode → Type 0) (a : TimerNode) (q : List TimerNode)
    → P a
    → All P q
    → (b : TimerNode) × (rest : List TimerNode) × (take_top (a ∷ q) ≡ some (b, rest))
      × P b
      × All P rest
unfolding take_top
take_top_lem P a [] p ps = (a, [], refl, p, tt)
take_top_lem P a (c ∷ q) p ps =
    let (b, rest, e, pb, ps') = take_top_lem P c q ps.0 ps.1 in
    elim (Bool-cases (ltb a.timer b.timer)) [
      | inl less ↦ (b, a ∷ rest, ap (later a) e ∙ if_true _ _ _ less, pb, (p, ps'))
      | inr more ↦ (a, b ∷ rest, ap (later a) e ∙ if_false _ _ _ more, p, (pb, ps'))
    ]

-- the rest of `get_k` after a node that has expired, with what `index_` gives for it
abbrev pub go_on :
    ℕ → ℕ → List TimerNode → TimerNode → List TimerNode → ℕ × FourHeap → Result (List TimerNode)
go_on rounds timer res a rest r =
    get_k_rounds rounds timer (children (r.0 / 4) r.1.heap ++ rest) (res ++ a ∷ []) r.1

-- a round of `get_k`, with the latest of its queue
abbrev pub round :
    ℕ
    → ℕ
    → List TimerNode
    → FourHeap
    → Option (TimerNode × List TimerNode)
    → Result (List TimerNode)
round rounds timer res h o = elim o [
  | none ↦ ok res
  | some (a, rest) ↦
      if ltb timer a.timer
      then ok res
      else go_on rounds timer res a rest (index_or_zero a.node_seq h)
]

abbrev looked_up : ℕ → FourHeap → Option ℕ → ℕ × FourHeap
looked_up s h o = elim o [ none ↦ (0, record h { index = put s 0 h.index }) | some pos ↦ (pos, h) ]

pub index_or_zero-some : (h : FourHeap) (s i : ℕ) → h.index s ≡ some i → index_or_zero s h ≡ (i, h)
index_or_zero-some h s i e = ap (looked_up s h) e

-- there is a node behind a quarter of the way to any node
children-pos :
    (xs rest : List TimerNode) (i : ℕ)
    → i < length xs
    → 2 ≤ length xs
    → 0 < length (children (i / 4) xs ++ rest)
children-pos xs rest i less two = omega (
  arith,
  less,
  two,
  length-append (children (i / 4) xs) rest,
  length-take 4 (drop (i / 4 + 1) xs),
  length-drop (i / 4 + 1) xs,
)

-- `get_k`, with the nodes of its heap
abbrev pub first_round : ℕ → ℕ → FourHeap → List TimerNode → Result (List TimerNode)
first_round rounds timer h xs = elim xs [
  | [] ↦ ok []
  | a ∷ _ ↦ get_k_rounds rounds timer (a ∷ []) [] h
]

get_k_rounds_hang :
    (rounds : ℕ) (h : FourHeap) (timer : ℕ) (q res : List TimerNode)
    → 2 ≤ length h.heap
    → All (IsExpired h timer) h.heap
    → 0 < length q
    → All (IsExpired h timer) q
    → get_k_rounds rounds timer q res h ≡ fail out_of_fuel
unfolding get_k_rounds
get_k_rounds_hang zero h timer q res two all some_left qs = refl
get_k_rounds_hang (suc rounds) h timer [] res two all some_left qs =
    absurd (omega (arith, some_left))
get_k_rounds_hang (suc rounds) h timer (c ∷ q) res two all some_left qs =
    let (a, rest, top, (early, (i, noted, less)), others) =
      take_top_lem (IsExpired h timer) c q qs.0 qs.1 in
    let next = children (i / 4) h.heap in
    ap (round rounds timer res h) top
    ∙ if_false _ _ _ (le→ltb timer a.timer early)
    ∙ ap (go_on rounds timer res a rest) (index_or_zero-some h a.node_seq i noted)
    ∙ get_k_rounds_hang rounds h timer (next ++ rest) (res ++ a ∷ []) two all
        (children-pos h.heap rest i less two)
        (All-append _ next rest (All-take _ 4 _ (All-drop _ _ _ all)) others)

-- Once all timers have expired, `get_k` on a heap of at least two does not return, however many rounds
-- it is given.
pub get_k_hangs :
    (h : FourHeap) (timer rounds : ℕ)
    → IsIndexed h
    → 2 ≤ length h.heap
    → All (λ a. a.timer ≤ timer) h.heap
    → get_k rounds timer h ≡ fail out_of_fuel
unfolding get_k
get_k_hangs h timer rounds v two expired =
    let all : All (IsExpired h timer) h.heap =
      All-get (IsExpired h timer) h.heap
        (λ i a e. (get-All _ h.heap i a expired e, (i, v.at i a e, get_elem?-lt h.heap i e))) in
    elim (List-cases h.heap) [
      | inl empty ↦ absurd (omega (arith, ap length empty, two))
      | inr (a, rest, e) ↦
          ap (first_round rounds timer h) e
          ∙ get_k_rounds_hang rounds h timer (a ∷ []) [] two all (omega arith)
              ((subst (All (IsExpired h timer)) e all).0, tt)
    ]
