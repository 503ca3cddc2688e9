-- ===== src/TimerQueue.antt =====
-- `TimerQueue` of src/base/timerqueue.h and src/base/timerqueue.cc, over FourHeap: the numbers of the
-- timers, the calls on them in the thread of the loop, and what follows when some have expired.
pub mod Numbers
pub mod Book
pub mod Calls
pub mod Quiet
pub mod Expiry
mod Tests
use Prim.Native.Nat.{ℕ, zero, suc, ◌+◌, ◌*◌, ◌^◌, ◌%◌}
use tiny_http_server.Prelude.{
  Bool, true, false, List, [], ◌∷◌, ◌++◌, Option, none, some, if◌then◌else◌, ◌==◌, leb, ltb, not,
  ◌&&◌, ◌||◌, add_size, sub_size,
}
use tiny_http_server.Prelude.Result.{Result, ok, fail, ◌>>=◌, ◌>>◌, check, assertion, out_of_bounds}
use tiny_http_server.FourHeap.{
  TimerNode, FourHeap, empty_heap, node_at, push, remove, reset, extend, get_k,
}

-- `armed` lists the times for which the timer of the kernel was set.
pub record TimerQueue : Type 0 where
  pub timer_list : FourHeap
  pub cancel_set : List ℕ
  pub seq : List ℕ
  pub seq_limit : ℕ
  pub index : ℕ
  pub calling_expired : Bool
  pub armed : List ℕ

-- The constructor, which leaves `seq_limit_` and `index_` as they are.
abbrev pub make : ℕ → ℕ → TimerQueue
make seq_limit index = record {
  timer_list = empty_heap;
  cancel_set = [];
  seq = [];
  seq_limit = seq_limit;
  index = index;
  calling_expired = false;
  armed = [];
}

abbrev pub limit : ℕ
limit = 1024

-- The rounds of the loop of `get_`; an `int` takes the lower bits of a `size_t`.
unfoldable pub refill : ℕ → TimerQueue → TimerQueue
refill zero q = q
refill (suc left) q =
    let seq_limit = add_size q.seq_limit 1 in
    refill left (record q {
      seq_limit = seq_limit;
      index = add_size q.index 1;
      seq = q.seq ++ seq_limit % 2 ^ 32 ∷ [];
    })

abbrev pub is_empty {ℓ} : {A : Type ℓ} → List A → Bool
is_empty [] = true
is_empty (x ∷ xs) = false

-- `seq_.front()` and `seq_.pop()`
abbrev pub take_number : List ℕ → TimerQueue → Result (ℕ × TimerQueue)
take_number [] q = fail out_of_bounds
take_number (n ∷ rest) q = ok (n, record q { seq = rest })

unfoldable pub get : TimerQueue → Result (ℕ × TimerQueue)
unfolding refill
get q = let q' = if is_empty q.seq then refill limit q else q in take_number q'.seq q'

-- `reset_timerfd`
abbrev pub reset_timerfd : ℕ → TimerQueue → TimerQueue
reset_timerfd timer q = record q { armed = q.armed ++ timer ∷ [] }

-- `heap_.front()` of a heap that the code takes to have one
abbrev pub front : FourHeap → Result TimerNode
front h = node_at h.heap 0

abbrev pub find : ℕ → FourHeap → Bool
find id h = elim (h.index id) [ none ↦ false | some pos ↦ true ]

unfoldable pub add_timer_in_loop : TimerNode → TimerQueue → Result TimerQueue
unfolding push
add_timer_in_loop node q = do
  h ← push node q.timer_list
  a ← front h
  let q' : TimerQueue = record q { timer_list = h }
  ok (if leb node.timer a.timer then reset_timerfd node.timer q' else q')

-- `add_timer`, called in the thread of the loop at a time `now`.
unfoldable pub add_timer : ℕ → ℕ → Bool → TimerQueue → Result TimerQueue
unfolding get add_timer_in_loop
add_timer now interval repeat q = do
  r ← get q
  check (ltb r.0 (2 ^ 31)) assertion
  add_timer_in_loop
      (record {
        node_seq = r.0;
        timer = now + interval * 1000000;
        interval = interval;
        repeat = repeat;
      })
      r.1

unfoldable pub cancel_timer_in_loop : ℕ → TimerQueue → Result TimerQueue
unfolding remove
cancel_timer_in_loop id q =
    if find id q.timer_list
    then (do r ← remove id q.timer_list; ok (record q { timer_list = r.1 }))
    else ok (if q.calling_expired then record q { cancel_set = id ∷ q.cancel_set } else q)

unfoldable pub extend_timer_in_loop : ℕ → ℕ → Bool → TimerQueue → Result TimerQueue
unfolding extend
extend_timer_in_loop interval id repeat q =
    if find id q.timer_list
    then (do h ← extend interval id repeat q.timer_list; ok (record q { timer_list = h }))
    else ok q

-- A call in the thread of the loop, where `cancel` is `cancel_timer_in_loop_`, and of
-- `extend_timer` its part in the loop; a timer is added at a time, with an interval.
pub data Call : Type 0 where
  adds : ℕ → ℕ → Bool → Call
  cancels : ℕ → Call
  extends : ℕ → ℕ → Bool → Call

abbrev pub call : Call → TimerQueue → Result TimerQueue
call (adds now interval repeat) q = add_timer now interval repeat q
call (cancels id) q = cancel_timer_in_loop id q
call (extends interval id repeat) q = extend_timer_in_loop interval id repeat q

unfoldable pub call_all : List Call → TimerQueue → Result TimerQueue
unfolding add_timer cancel_timer_in_loop extend_timer_in_loop
call_all [] q = ok q
call_all (c ∷ cs) q = do q' ← call c q; call_all cs q'

-- The callbacks of what has expired, each of which makes its calls.
unfoldable pub run_expired : (ℕ → List Call) → List TimerNode → TimerQueue → Result TimerQueue
unfolding call_all
run_expired cb [] q = ok q
run_expired cb (e ∷ es) q = do q' ← call_all (cb e.node_seq) q; run_expired cb es q'

abbrev pub is_in : ℕ → List ℕ → Bool
is_in id [] = false
is_in id (x ∷ xs) = (x == id) || is_in id xs

-- One round of `reset_`, at a time `now`.
abbrev pub reset_one : ℕ → TimerNode → TimerQueue → Result TimerQueue
reset_one now e q =
    if e.repeat
    then (if not (is_in e.node_seq q.cancel_set)
        then (do
          h ← reset e.node_seq (now + e.interval * 1000000) q.timer_list
          ok (record q { timer_list = h }))
        else ok q)
    else cancel_timer_in_loop e.node_seq q

-- The rounds of `reset_`; `now` gives the time of each.
unfoldable pub reset_rounds : (ℕ → ℕ) → ℕ → List TimerNode → TimerQueue → Result TimerQueue
unfolding cancel_timer_in_loop reset
reset_rounds now i [] q = ok q
reset_rounds now i (e ∷ es) q = do q' ← reset_one (now i) e q; reset_rounds now (i + 1) es q'

-- The end of `reset_`.
abbrev pub rearm : TimerQueue → Result TimerQueue
rearm q =
    if is_empty q.timer_list.heap
    then ok q
    else (do a ← front q.timer_list; ok (reset_timerfd a.timer q))

-- `handle_read_`, with the rounds that are given to `get_k`.
unfoldable pub handle_read : ℕ → ℕ → (ℕ → ℕ) → (ℕ → List Call) → TimerQueue → Result TimerQueue
unfolding get_k run_expired reset_rounds
handle_read rounds start now cb q = do
  expired ← get_k rounds start q.timer_list
  q' ← run_expired cb expired (record q { calling_expired = true; cancel_set = [] })
  q'' ← reset_rounds now 0 expired (record q' { calling_expired = false })
  rearm q''

-- `clear_`, with `FourHeap::clear`
unfoldable pub clear : TimerQueue → TimerQueue
clear q = record q { timer_list = empty_heap; cancel_set = [] }

-- `del_`, which nothing calls
unfoldable pub del : TimerNode → TimerQueue → TimerQueue
del node q =
    if q.index == q.seq_limit
    then record q { seq_limit = 0; index = 0; seq = [] }
    else record q { index = sub_size q.index 1; seq = q.seq ++ node.node_seq ∷ [] }
