-- ===== src/FourHeap/Run.antt =====
-- Runs of calls of src/base/four_heap.cc, beside the same calls on a map of timers.
use Prim.Native.Nat.{ℕ}
use mathlib.Core.Option.{some_inj}
use tiny_http_server.Prelude.{
  Bool, ◌≡◌, ◌∙◌, refl, ap, sym, subst, List, [], ◌∷◌, Option, none, some, Option-cases, inl, inr,
}
use tiny_http_server.Prelude.Result.{Result, ok, ◌>>=◌, Returns}
use tiny_http_server.FourHeap.{
  TimerNode, FourHeap, empty_heap, push, remove, reset, extend, prolong,
}
use tiny_http_server.FourHeap.Timers.{Holds, with_timer, without, push_refines}
use tiny_http_server.FourHeap.Removal.{remove_refines}
use tiny_http_server.FourHeap.Change.{reset_refines, extend_refines}

-- A call: a timer is pushed, that of a number is removed, given a new time, or prolonged.
pub data Call : Type 0 where
  pushes : TimerNode → Call
  removes : ℕ → Call
  resets : ℕ → ℕ → Call
  extends : ℕ → ℕ → Bool → Call

abbrev pub apply : Call → FourHeap → Result FourHeap
apply (pushes a) h = push a h
apply (removes id) h = remove id h >>= λ r. ok r.1
apply (resets id timer) h = reset id timer h
apply (extends interval id repeat) h = extend interval id repeat h

unfoldable pub apply_all : List Call → FourHeap → Result FourHeap
apply_all [] h = ok h
apply_all (c ∷ cs) h = apply c h >>= apply_all cs

-- A map with a timer changed; none where there is no such timer.
abbrev pub changed :
    (TimerNode → TimerNode)
    → (ℕ → Option TimerNode)
    → Option TimerNode
    → Option (ℕ → Option TimerNode)
changed f m o = elim o [ none ↦ none | some a ↦ some (with_timer (f a) m) ]

-- The same on a map; only a timer that is there is changed.
abbrev pub apply_map : Call → (ℕ → Option TimerNode) → Option (ℕ → Option TimerNode)
apply_map (pushes a) m = some (with_timer a m)
apply_map (removes id) m = some (without id m)
apply_map (resets id timer) m = changed (λ a. record a { timer = timer }) m (m id)
apply_map (extends interval id repeat) m = changed (prolong interval repeat) m (m id)

abbrev pub apply_all_map : List Call → (ℕ → Option TimerNode) → Option (ℕ → Option TimerNode)
apply_all_map [] m = some m
apply_all_map (c ∷ cs) m = elim (apply_map c m) [ none ↦ none | some m' ↦ apply_all_map cs m' ]

changed_cases :
    (f : TimerNode → TimerNode) (m m' : ℕ → Option TimerNode) (o : Option TimerNode)
    → changed f m o ≡ some m'
    → (a : TimerNode) × (o ≡ some a) × (with_timer (f a) m ≡ m')
changed_cases f m m' none e = absurd (let clash = e in cc)
changed_cases f m m' (some a) e = (a, refl, some_inj.0 e)

apply_refines :
    (c : Call) (h : FourHeap) (m m' : ℕ → Option TimerNode)
    → apply_map c m ≡ some m'
    → Holds m h
    → Returns (apply c h) (Holds m')
apply_refines (pushes a) h m m' e v =
    subst (λ x. Returns (push a h) (Holds x)) (some_inj.0 e) (push_refines a h m v)
apply_refines (removes id) h m m' e v =
    let (r, removed, (_, w)) = remove_refines id h m v in
    (r.1, ap (λ x. x >>= λ r'. ok r'.1) removed, subst (λ x. Holds x r.1) (some_inj.0 e) w)
apply_refines (resets id timer) h m m' e v =
    let (a, there, e') = changed_cases (λ b. record b { timer = timer }) m m' (m id) e in
    subst (λ x. Returns (reset id timer h) (Holds x)) e' (reset_refines id timer a h m there v)
apply_refines (extends interval id repeat) h m m' e v =
    let (a, there, e') = changed_cases (prolong interval repeat) m m' (m id) e in
    subst (λ x. Returns (extend interval id repeat h) (Holds x)) e'
      (extend_refines interval id repeat a h m there v)

abbrev rest_map : List Call → Option (ℕ → Option TimerNode) → Option (ℕ → Option TimerNode)
rest_map cs o = elim o [ none ↦ none | some m ↦ apply_all_map cs m ]

-- Any calls on a heap that holds the timers of a map, of which those that change a timer name one that
-- is there, return, and the heap then holds the timers that the same calls leave in the map, each
-- at the position that is noted for its number.
pub heap_refines :
    (cs : List Call) (h : FourHeap) (m m' : ℕ → Option TimerNode)
    → Holds m h
    → apply_all_map cs m ≡ some m'
    → Returns (apply_all cs h) (Holds m')
unfolding apply_all
heap_refines [] h m m' v e = (h, refl, subst (λ x. Holds x h) (some_inj.0 e) v)
heap_refines (c ∷ cs) h m m' v e = elim (Option-cases (apply_map c m)) [
  | inl refused ↦ absurd (let clash = sym (ap (rest_map cs) refused) ∙ e in cc)
  | inr (m1, applied) ↦
      let (h1, called, w) = apply_refines c h m m1 applied v in
      let (h', rest, w') = heap_refines cs h1 m1 m' w (sym (ap (rest_map cs) applied) ∙ e) in
      (h', ap (λ x. x >>= apply_all cs) called ∙ rest, w')
]

-- The empty heap holds no timer.
pub empty-Holds : Holds (λ s. none) empty_heap
empty-Holds = record {
  indexed = record {
    at = λ i a e. absurd (let clash = e in cc);
    only = λ s i e. absurd (let clash = e in cc);
  };
  timers = λ s. refl;
}
