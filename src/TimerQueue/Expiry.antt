-- ===== src/TimerQueue/Expiry.antt =====
-- What `handle_read_` of src/base/timerqueue.cc does to the timers that have expired, whose callbacks
-- leave the queue alone, as those of src/httpserver.h do.
use Prim.Native.Nat.{ℕ}
use tiny_http_server.Prelude.{
  ◌≡◌, ◌+◌, ◌*◌, ◌∙◌, refl, ap, sym, subst, true, false, List, [], ◌∷◌, ◌++◌, Option, some,
  List-cases, Bool-cases, inl, inr, not, if_true, if_false, All, All-map, append-nil,
}
use tiny_http_server.Prelude.Result.{Result, ok, ◌>>=◌, Returns}
use tiny_http_server.FourHeap.{TimerNode, get_k, node_at}
use tiny_http_server.FourHeap.Timers.{Holds, with_timer, without}
use tiny_http_server.FourHeap.Change.{reset_refines}
use tiny_http_server.FourHeap.Found.{get_k-IsDue}
use tiny_http_server.TimerQueue.{
  TimerQueue, reset_one, reset_rounds, run_expired, call_all, rearm, is_empty, is_in, reset_timerfd,
  handle_read,
}
use tiny_http_server.TimerQueue.Book.{Book, Keeps}
use tiny_http_server.TimerQueue.Calls.{renumbered}
use tiny_http_server.TimerQueue.Quiet.{
  again, expire_one, expire, first_time, IsQuiet, cancel-IsQuiet, Still, Still-with_timer,
  Still-without,
}

reset_one-Keeps :
    (m0 : ℕ → Option TimerNode) (now : ℕ) (e : TimerNode) (b : Book) (q : TimerQueue)
    (armed : List ℕ)
    → m0 e.node_seq ≡ some e
    → Still m0 b.timers
    → Keeps b q
    → IsQuiet armed q
    → Returns (reset_one now e q) (λ q'.
      Keeps (record b { timers = expire_one now e b.timers }) q'
      × IsQuiet armed q'
      × Still m0 (expire_one now e b.timers))
reset_one-Keeps m0 now e b q armed there still v quiet =
    let timer = now + e.interval * 1000000 in
    let m = b.timers in
    elim (Bool-cases e.repeat) [
      | inl repeats ↦
          let (c, present) = still e.node_seq e there repeats in
          let (h, done, held) = reset_refines e.node_seq timer c q.timer_list m present v.held in
          let noted : with_timer (record c { timer = timer }) m ≡ expire_one now e m =
            ap (again timer m) (sym present) ∙ sym (if_true _ _ _ repeats) in
          let free : not (is_in e.node_seq q.cancel_set) ≡ true =
            ap (λ xs. not (is_in e.node_seq xs)) quiet.cancel_set in
          (
            record q { timer_list = h },
            if_true _ _ _ repeats
                ∙ if_true _ _ _ free
                ∙ ap (λ x. x >>= λ h'. ok (record q { timer_list = h' })) done,
            (
              record {
                held = subst (λ x. Holds x h) noted held;
                numbered = renumbered b.last q (record q { timer_list = h }) v.numbered refl refl;
              },
              record {
                cancel_set = quiet.cancel_set;
                calling = quiet.calling;
                armed_is = quiet.armed_is;
              },
              subst (Still m0) noted (Still-with_timer m0 m (record c { timer = timer }) still),
            ),
          )
      | inr once ↦
          let (q', done, (w, quiet')) = cancel-IsQuiet e.node_seq b q armed v quiet in
          let noted : without e.node_seq m ≡ expire_one now e m = sym (if_false _ _ _ once) in
          (
            q',
            if_false _ _ _ once ∙ done,
            (
              subst (λ x. Keeps (record b { timers = x }) q') noted w,
              quiet',
              subst (Still m0) noted (Still-without m0 m e there once still),
            ),
          )
    ]

reset_rounds-Keeps :
    (m0 : ℕ → Option TimerNode) (now : ℕ → ℕ) (i : ℕ) (es : List TimerNode) (b : Book)
    (q : TimerQueue) (armed : List ℕ)
    → All (λ e. m0 e.node_seq ≡ some e) es
    → Still m0 b.timers
    → Keeps b q
    → IsQuiet armed q
    → Returns
        (reset_rounds now i es q)
        (λ q'. Keeps (record b { timers = expire now i es b.timers }) q' × IsQuiet armed q')
unfolding reset_rounds
reset_rounds-Keeps m0 now i [] b q armed all still v quiet = (q, refl, (v, quiet))
reset_rounds-Keeps m0 now i (e ∷ es) b q armed all still v quiet =
    let (q1, one, (w, quiet', still')) =
      reset_one-Keeps m0 (now i) e b q armed all.0 still v quiet in
    let (q2, rest, p) =
      reset_rounds-Keeps m0 now (i + 1) es (record b { timers = expire_one (now i) e b.timers }) q1
        armed all.1 still' w quiet' in
    (q2, ap (λ x. x >>= reset_rounds now (i + 1) es) one ∙ rest, p)

silent : (es : List TimerNode) (q : TimerQueue) → run_expired (λ s. []) es q ≡ ok q
unfolding run_expired call_all
silent [] q = refl
silent (e ∷ es) q = silent es q

rearm_lem :
    (q : TimerQueue) → rearm q ≡ ok (record q { armed = q.armed ++ first_time q.timer_list.heap })
rearm_lem q = elim (List-cases q.timer_list.heap) [
  | inl empty ↦
      if_true _ _ _ (ap is_empty empty)
      ∙ ap (λ xs. ok (record q { armed = xs })) (sym (append-nil q.armed))
      ∙ ap (λ xs. ok (record q { armed = q.armed ++ first_time xs })) (sym empty)
  | inr (a, rest, there) ↦
      if_false _ _ _ (ap is_empty there)
      ∙ ap (λ xs. node_at xs 0 >>= λ c. ok (reset_timerfd c.timer q)) there
      ∙ ap (λ xs. ok (record q { armed = q.armed ++ first_time xs })) (sym there)
]

-- `handle_read_` with what has expired, where the callbacks leave the queue alone
abbrev expired_on : (ℕ → ℕ) → TimerQueue → List TimerNode → Result TimerQueue
expired_on now q es =
    run_expired (λ s. []) es (record q { calling_expired = true; cancel_set = [] }) >>= λ q1.
    reset_rounds now 0 es (record q1 { calling_expired = false }) >>= rearm

-- When `get_k` returns timers, and their callbacks leave the queue alone, `handle_read_` returns: of the
-- timers that it keeps, each of these that repeats is set to its interval after the time of its
-- round, each other one is gone, and all the rest are as they were; and the timer of the kernel is
-- set to the time of the first timer that is left, if there is one.
pub handle_read_refines :
    (rounds start : ℕ) (now : ℕ → ℕ) (b : Book) (q : TimerQueue) (es : List TimerNode)
    → Keeps b q
    → get_k rounds start q.timer_list ≡ ok es
    → Returns (handle_read rounds start now (λ s. []) q) (λ q'.
      Keeps (record b { timers = expire now 0 es b.timers }) q'
      × (q'.armed ≡ q.armed ++ first_time q'.timer_list.heap))
unfolding handle_read
handle_read_refines rounds start now b q es v found =
    let called : TimerQueue = record q { calling_expired = true; cancel_set = [] } in
    let over : TimerQueue = record called { calling_expired = false } in
    let due =
      All-map es (λ e h. sym (v.held.timers e.node_seq) ∙ h.1)
        (get_k-IsDue rounds start q.timer_list es v.held.indexed found) in
    let ready : Keeps b over = record {
      held = v.held;
      numbered = renumbered b.last q over v.numbered refl refl;
    } in
    let (q', reset_all, (w, quiet)) =
      reset_rounds-Keeps b.timers now 0 es b over q.armed due (λ s a e repeats. (a, e)) ready
        (record { cancel_set = refl; calling = refl; armed_is = refl }) in
    (
      record q' { armed = q'.armed ++ first_time q'.timer_list.heap },
      ap (λ x. x >>= expired_on now q) found
          ∙ ap
              (λ x.
                x >>= λ q1. reset_rounds now 0 es (record q1 { calling_expired = false }) >>= rearm)
              (silent es called)
          ∙ ap (λ x. x >>= rearm) reset_all
          ∙ rearm_lem q',
      (
        record {
          held = w.held;
          numbered =
              renumbered b.last q' (record q' { armed = q'.armed ++ first_time q'.timer_list.heap })
                w.numbered refl refl;
        },
        ap (λ xs. xs ++ first_time q'.timer_list.heap) quiet.armed_is,
      ),
    )
