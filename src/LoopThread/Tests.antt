-- ===== src/LoopThread/Tests.antt =====
-- Runs of the thread of src/server/eventloopthread.cc and of its owner.
use tiny_http_server.Prelude.{◌≡◌, ◌≢◌, ◌≤◌, ◌⊎◌, true, false, refl}
use tiny_http_server.LoopThread.{
  make, LoopThread, started, waking, joining, joined, stored, polling, ended, stores, enters, polls,
  returns, leaves, clears, Step, moves, spawns, gets, finds, quits, wakes, joins, Reach, here, next,
  Runs, none_yet, then,
}
use tiny_http_server.LoopThread.Quit.{lost_quit}
use tiny_http_server.LoopThread.Leave.{join_ends}

-- The owner is back from `start_loop`, and the thread stands before `loop`.
abbrev handed_over : LoopThread
handed_over = record { owner = started; thread = stored; loop_set = true; quit = false }

abbrev told_early : LoopThread
told_early = record { owner = waking; thread = stored; loop_set = true; quit = true }

abbrev hangs : LoopThread
hangs = record { owner = joining; thread = polling; loop_set = true; quit = false }

handed_over-Reach : Reach make handed_over
handed_over-Reach = next (next (next here (spawns refl)) (moves (stores refl))) (gets refl refl)

told_early-Reach : Reach make told_early
told_early-Reach = next (next handed_over-Reach (finds refl refl)) (quits refl)

hangs-Reach : Reach told_early hangs
hangs-Reach = next (next (next here (wakes refl)) (moves (enters refl))) (moves (polls refl refl))

lost_quit_example : hangs.owner ≢ joined
lost_quit_example = lost_quit {s = told_early} refl refl hangs-Reach

abbrev in_round : LoopThread
in_round = record { owner = started; thread = polling; loop_set = true; quit = false }

abbrev told : LoopThread
told = record { owner = joining; thread = polling; loop_set = true; quit = true }

abbrev over : LoopThread
over = record { owner = joined; thread = ended; loop_set = false; quit = true }

in_round-Reach : Reach make in_round
in_round-Reach = next (next handed_over-Reach (moves (enters refl))) (moves (polls refl refl))

told-Reach : Reach in_round told
told-Reach = next (next (next here (finds refl refl)) (quits refl)) (wakes refl)

over-Runs : Runs told 4 over
over-Runs =
    then
      (then (then (then none_yet (moves (returns refl))) (moves (leaves refl refl)))
        (moves (clears refl)))
      (joins refl refl)

join_ends_example :
    (told.quit ≡ true) × (4 ≤ 4) × ((over.owner ≡ joined) ⊎ ((w : LoopThread) × Step over w))
join_ends_example = join_ends in_round-Reach refl refl told-Reach refl over-Runs
