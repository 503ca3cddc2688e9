-- ===== src/LoopPool/Tests.antt =====
-- A pool of two threads, and its third call.
use tiny_http_server.Prelude.{◌≡◌, ◌⊎◌, ◌<◌, ◌+◌, refl, [], ◌∷◌, true, false}
use tiny_http_server.Prelude.Result.{ok, fail, empty_function, Returns}
use tiny_http_server.LoopPool.{LoopPool, make, start, start_threads, get_loop}
use tiny_http_server.LoopPool.Turns.{loop_at, IsAt, get_loop_bounds}

abbrev pool : LoopPool
pool = record (make 3 2) { started = true; loops = 7 ∷ 8 ∷ []; inited = 7 ∷ 8 ∷ [] }

starts : start true (λ i. i + 7) (make 3 2) ≡ ok pool
unfolding start start_threads
starts = refl

no_callback : start false (λ i. i + 7) (make 3 0) ≡ fail empty_function
unfolding start start_threads
no_callback = refl

get_loop_bounds_example :
    Returns
      (get_loop pool)
      (λ r. (r.0 ≡ loop_at pool 2) × IsAt 3 r.1 × ((pool.loops ≡ []) ⊎ (r.1.next < 2)))
get_loop_bounds_example = get_loop_bounds {k = 2} pool (record { started = refl; turn_at = refl })
