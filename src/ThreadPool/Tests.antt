-- ===== src/ThreadPool/Tests.antt =====
-- A pool of one worker that is stopped while a task waits.
use mathlib.Core.List.{Perm}
use tiny_http_server.Prelude.{◌≤◌, ◌⊎◌, ◌≡◌, [], ◌∷◌, true, refl, arith}
use tiny_http_server.ThreadPool.{
  Work, ThreadPool, start, enqueue, Reach, here, next, enqueues, works, none_yet, then, takes, runs,
  returns, stops,
}
use tiny_http_server.ThreadPool.Ends.{work_left, Runs-ends}
use tiny_http_server.ThreadPool.Join.{join-ran}

abbrev joined : ThreadPool
joined = record (start 1) {
  stop = true;
  waiting = 0;
  returned = 1;
  enqueued = 5 ∷ 6 ∷ [];
  started = 5 ∷ 6 ∷ [];
  ran = 6 ∷ 5 ∷ [];
}

joins : Reach (start 1) joined
unfolding enqueue
joins =
    let two = next (next here (enqueues 5 refl)) (enqueues 6 refl) in
    let first = next (next two stops) (works (takes 5 0 (6 ∷ []) refl refl)) in
    let second = next (next first (works (runs 5 [] [] refl))) (works (takes 6 0 [] refl refl)) in
    next (next second (works (runs 6 [] [] refl))) (works (returns 0 refl refl refl))

join-ran_example : (joined.started ≡ joined.enqueued) × Perm joined.ran joined.enqueued
join-ran_example = join-ran (omega arith) joins refl

abbrev stopped : ThreadPool
stopped = record (start 1) { stop = true; tasks = 5 ∷ []; enqueued = 5 ∷ [] }

abbrev busy : ThreadPool
busy = record stopped { tasks = []; waiting = 0; running = 5 ∷ []; started = 5 ∷ [] }

Runs-ends_example :
    (1 ≤ work_left stopped) × ((busy.returned ≡ 1) ⊎ ((u : ThreadPool) × Work busy u))
unfolding enqueue
Runs-ends_example =
    Runs-ends (next (next here (enqueues 5 refl)) stops) refl
      (then none_yet (takes 5 0 [] refl refl))
