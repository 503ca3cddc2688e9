-- ===== src/EventLoop/Tests.antt =====
-- Another thread queues a function while the loop polls.
use tiny_http_server.Prelude.{◌+◌, ◌<◌, ◌≡◌, ◌++◌, refl, [], ◌∷◌, arith}
use tiny_http_server.EventLoop.{
  EventLoop, calling, Reach, here, next, push, wake, wait, woken, queues, swaps, calls, start,
  queue_in_loop, take_pending, handle_read,
}
use tiny_http_server.EventLoop.Queue.{left, Reach-order, poll_awake}

abbrev pushed : EventLoop
pushed = record start { pending = 5 ∷ []; waking = 1; queued = 5 ∷ [] }

pushes : Reach start pushed
pushes = next here (push 5)

abbrev ran_one : EventLoop
ran_one = record pushed {
  phase = calling (6 ∷ []);
  pending = [];
  waking = 0;
  queued = 5 ∷ 6 ∷ [];
  ran = 5 ∷ [];
}

runs_one : Reach start ran_one
unfolding queue_in_loop take_pending handle_read
runs_one =
    next
      (next
        (next (next (next (next pushes (wake 0 refl)) (wait refl)) (queues 6 refl))
          (woken refl (omega arith)))
        (swaps refl))
      (calls 5 (6 ∷ []) refl)

Reach-order_example : ran_one.queued ≡ ran_one.ran ++ (left ran_one.phase ++ ran_one.pending)
Reach-order_example = Reach-order runs_one

poll_awake_example : 0 < pushed.wake_count + pushed.waking
poll_awake_example = poll_awake pushes refl (λ e. cc)
