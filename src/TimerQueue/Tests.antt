-- ===== src/TimerQueue/Tests.antt =====
-- A queue with some calls, and one with two timers of which the first has expired.
use tiny_http_server.Prelude.{
  false, true, ◌≡◌, ◌∙◌, ◌++◌, refl, arith, ap, sym, subst, List, [], ◌∷◌, none,
}
use tiny_http_server.Prelude.Result.{ok, fail, Returns}
use tiny_http_server.FourHeap.{
  TimerNode, FourHeap, empty_heap, put, push, swap, shif_up, shif_up_rounds, get_k, get_k_rounds,
  take_top,
}
use tiny_http_server.FourHeap.Timers.{Holds, with_timer}
use tiny_http_server.FourHeap.Run.{pushes, apply_all, heap_refines, empty-Holds}
use tiny_http_server.TimerQueue.{
  TimerQueue, make, Call, adds, cancels, extends, call_all, handle_read,
}
use tiny_http_server.TimerQueue.Book.{Book, new_book, note_all, Keeps}
use tiny_http_server.TimerQueue.Calls.{queue_refines}
use tiny_http_server.TimerQueue.Quiet.{expire, first_time}
use tiny_http_server.TimerQueue.Expiry.{handle_read_refines}

abbrev some_calls : List Call
some_calls = adds 5 2 true ∷ adds 6 1 false ∷ extends 0 1 true ∷ cancels 2 ∷ cancels 7 ∷ []

queue_refines_example :
    Returns
      (call_all some_calls (make 0 0))
      (λ q. Holds (note_all some_calls (new_book 0)).timers q.timer_list)
queue_refines_example = queue_refines some_calls 0 0 (omega arith)

abbrev early : TimerNode
early = record { node_seq = 1; timer = 10; interval = 1; repeat = true }

abbrev late : TimerNode
late = record { node_seq = 2; timer = 20; interval = 5; repeat = true }

abbrev two_timers : FourHeap
two_timers = record { heap = early ∷ late ∷ []; index = put 2 1 (put 1 0 (λ s. none)) }

pushed : apply_all (pushes early ∷ pushes late ∷ []) empty_heap ≡ ok two_timers
unfolding apply_all push shif_up shif_up_rounds swap
pushed = refl

abbrev two_noted : Book
two_noted = record { timers = with_timer late (with_timer early (λ s. none)); last = 2 }

abbrev waiting : TimerQueue
waiting = record (make 2 2) { timer_list = two_timers; armed = 10 ∷ [] }

waiting-Keeps : Keeps two_noted waiting
waiting-Keeps =
    let (h, e, v) =
      heap_refines (pushes early ∷ pushes late ∷ []) empty_heap _ _ empty-Holds refl in
    record {
      held =
          subst (Holds two_noted.timers)
            (ap (λ r. elim r [ fail _ ↦ h | ok h' ↦ h' ]) (sym e ∙ pushed)) v;
      numbered = record { waiting = 0; seq = refl; ends = refl };
    }

first_found : get_k 3 15 two_timers ≡ ok (early ∷ [])
unfolding get_k get_k_rounds take_top
first_found = refl

handle_read_refines_example : Returns (handle_read 3 15 (λ i. 16) (λ s. []) waiting) (λ q'.
    Keeps (record two_noted { timers = expire (λ i. 16) 0 (early ∷ []) two_noted.timers }) q'
    × (q'.armed ≡ waiting.armed ++ first_time q'.timer_list.heap))
handle_read_refines_example =
    handle_read_refines 3 15 (λ i. 16) two_noted waiting (early ∷ []) waiting-Keeps first_found
