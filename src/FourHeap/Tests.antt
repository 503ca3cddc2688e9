-- ===== src/FourHeap/Tests.antt =====
-- Two timers that are pushed, the earlier one last.
use tiny_http_server.Prelude.{◌≡◌, ◌∙◌, refl, arith, ap, sym, subst, [], ◌∷◌, none, true}
use tiny_http_server.Prelude.Result.{ok, fail, out_of_fuel}
use tiny_http_server.FourHeap.{
  TimerNode, FourHeap, empty_heap, put, push, swap, shif_up, shif_up_rounds, get_k,
}
use tiny_http_server.FourHeap.Index.{IsIndexed}
use tiny_http_server.FourHeap.Run.{pushes, apply_all, heap_refines, empty-Holds}
use tiny_http_server.FourHeap.Expired.{get_k_hangs}

abbrev late : TimerNode
late = record { node_seq = 1; timer = 20; interval = 5; repeat = true }

abbrev early : TimerNode
early = record { node_seq = 2; timer = 10; interval = 1; repeat = true }

-- as `push` leaves them
abbrev two_timers : FourHeap
two_timers = record {
  heap = early ∷ late ∷ [];
  index = put 2 0 (put 1 1 (put 2 1 (put 1 0 (λ s. none))));
}

pushed : apply_all (pushes late ∷ pushes early ∷ []) empty_heap ≡ ok two_timers
unfolding apply_all push shif_up shif_up_rounds swap
pushed = refl

two_timers-IsIndexed : IsIndexed two_timers
two_timers-IsIndexed =
    let (h, e, v) =
      heap_refines (pushes late ∷ pushes early ∷ []) empty_heap _ _ empty-Holds refl in
    subst IsIndexed (ap (λ r. elim r [ fail _ ↦ h | ok h' ↦ h' ]) (sym e ∙ pushed)) v.indexed

get_k_hangs_example : get_k 1000 25 two_timers ≡ fail out_of_fuel
get_k_hangs_example =
    get_k_hangs two_timers 25 1000 two_timers-IsIndexed (omega arith)
      (omega arith, (omega arith, tt))
