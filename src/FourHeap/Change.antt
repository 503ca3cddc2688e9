-- ===== src/FourHeap/Change.antt =====
-- How src/base/four_heap.cc gives a timer a new time.
use Prim.Native.Nat.{ℕ, suc}
use tiny_http_server.Prelude.{
  ◌≡◌, ◌∙◌, refl, arith, ap, sym, Option, none, some, Bool, inl, inr, length, set, length-set,
  Option-cases,
}
use tiny_http_server.Prelude.Result.{Result, ok, ◌>>=◌, Returns}
use tiny_http_server.FourHeap.{
  change, extend, prolong, TimerNode, FourHeap, put, node_at, shif_down, reset,
}
use tiny_http_server.FourHeap.Index.{node_at_lem, view-none, view_of}
use tiny_http_server.FourHeap.Shift.{shif_down_keeps}
use tiny_http_server.FourHeap.Timers.{Holds, with_timer, replaced, replaced-Holds, IsSame-Holds}

abbrev index_at : ℕ → FourHeap → Option ℕ → ℕ × FourHeap
index_at id h o = elim o [ none ↦ (0, record h { index = put id 0 h.index }) | some pos ↦ (pos, h) ]

-- the end of a change, at a position, and the whole of it
abbrev set_at : (TimerNode → TimerNode) → ℕ → FourHeap → TimerNode → Result FourHeap
set_at f pos h a = shif_down pos (record h { heap = set h.heap pos (f a) }) >>= λ s. ok s.1

abbrev set_back : (TimerNode → TimerNode) → ℕ × FourHeap → Result FourHeap
set_back f r = node_at r.1.heap r.0 >>= set_at f r.0 r.1

-- A timer that is there is changed, its number kept, in the heap as in the map.
change_refines :
    (f : TimerNode → TimerNode) (id : ℕ) (a : TimerNode) (h : FourHeap) (m : ℕ → Option TimerNode)
    → (f a).node_seq ≡ a.node_seq
    → m id ≡ some a
    → Holds m h
    → Returns (change f id h) (Holds (with_timer (f a) m))
change_refines f id a h m kept there v = elim (Option-cases (h.index id)) [
  | inl missing ↦ absurd (let clash = sym (view-none h id missing) ∙ v.timers id ∙ there in cc)
  | inr (pos, found) ↦
      let ea = sym (view_of h id pos found) ∙ v.timers id ∙ there in
      let (w, hp) = replaced-Holds pos (f a) h m (ap h.index kept ∙ v.indexed.at pos a ea) v in
      let size = length-set h.heap pos (f a) in
      let (r, down, same) =
        shif_down_keeps (suc (length (set h.heap pos (f a)))) pos 0 (replaced pos (f a) h)
          (omega (arith, hp, size)) (omega (arith, hp, size)) w.indexed in
      (
        r.1,
        ap (set_back f) (ap (index_at id h) found)
            ∙ ap (λ x. x >>= set_at f pos h) (node_at_lem h.heap pos ea)
            ∙ ap (λ x. x >>= λ s. ok s.1) down,
        IsSame-Holds w same,
      )
]

-- `reset` of a number that is there gives its timer the new time.
pub reset_refines :
    (id timer : ℕ) (a : TimerNode) (h : FourHeap) (m : ℕ → Option TimerNode)
    → m id ≡ some a
    → Holds m h
    → Returns (reset id timer h) (Holds (with_timer (record a { timer = timer }) m))
unfolding reset
reset_refines id timer a h m there v =
    change_refines (λ b. record b { timer = timer }) id a h m refl there v

-- `extend` of a number that is there prolongs its timer.
pub extend_refines :
    (interval id : ℕ) (repeat : Bool) (a : TimerNode) (h : FourHeap) (m : ℕ → Option TimerNode)
    → m id ≡ some a
    → Holds m h
    → Returns (extend interval id repeat h) (Holds (with_timer (prolong interval repeat a) m))
unfolding extend
extend_refines interval id repeat a h m there v =
    change_refines (prolong interval repeat) id a h m refl there v
