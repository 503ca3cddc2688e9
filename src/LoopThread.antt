-- ===== src/LoopThread.antt =====
-- `EventLoopThread` of src/server/eventloopthread.h and src/server/eventloopthread.cc, with `loop` and
-- `quit` of src/event/eventloop.cc: the thread of a loop and the thread that owns it, step by step.
pub mod Quit
pub mod Told
pub mod Leave
mod Tests
use Prim.Native.Nat.{ℕ, suc}
use tiny_http_server.Prelude.{◌≡◌, Bool, true, false}

-- Where the owner stands: before `start_loop`, in its `while`, after it, in the destructor before
-- `quit`, inside `quit` before the wake-up, in `join`, and after it.
pub data Owner : Type 0 where
  unstarted spinning started quitting waking joining joined : Owner

-- Where the thread stands: not there, in the callback, after `loop_.store(&loop)`, at the `while` of
-- `loop`, in one of its rounds, behind the `while`, and at its end.
pub data Thread : Type 0 where
  absent initialising stored testing polling leaving ended : Thread

-- `loop_set` says that `loop_` is not null, and `quit` is `quit_` of the loop.
pub record LoopThread : Type 0 where
  pub owner : Owner
  pub thread : Thread
  pub loop_set : Bool
  pub quit : Bool

-- The constructor.
abbrev pub make : LoopThread
make = record { owner = unstarted; thread = absent; loop_set = false; quit = false }

-- A step of the thread, `thread_func_`.
pub data Move (s : LoopThread) : LoopThread → Type 0 where
  stores : s.thread ≡ initialising → Move s (record s { thread = stored; loop_set = true })
  -- `loop` begins, and sets `quit_` to false
  enters : s.thread ≡ stored → Move s (record s { thread = testing; quit = false })
  polls : s.thread ≡ testing → s.quit ≡ false → Move s (record s { thread = polling })
  -- a round ends, by an event, a wake-up or the time of `poll`
  returns : s.thread ≡ polling → Move s (record s { thread = testing })
  leaves : s.thread ≡ testing → s.quit ≡ true → Move s (record s { thread = leaving })
  clears : s.thread ≡ leaving → Move s (record s { thread = ended; loop_set = false })

pub data Step (s : LoopThread) : LoopThread → Type 0 where
  moves : {t : LoopThread} → Move s t → Step s t
  -- `start_loop`
  spawns : s.owner ≡ unstarted → Step s (record s { owner = spinning; thread = initialising })
  gets : s.owner ≡ spinning → s.loop_set ≡ true → Step s (record s { owner = started })
  -- the destructor, which has nothing to join before `start_loop`, and calls `quit` if there is a loop
  skips : s.owner ≡ unstarted → Step s (record s { owner = joined })
  finds : s.owner ≡ started → s.loop_set ≡ true → Step s (record s { owner = quitting })
  misses : s.owner ≡ started → s.loop_set ≡ false → Step s (record s { owner = joining })
  quits : s.owner ≡ quitting → Step s (record s { owner = waking; quit = true })
  wakes : s.owner ≡ waking → Step s (record s { owner = joining })
  joins : s.owner ≡ joining → s.thread ≡ ended → Step s (record s { owner = joined })

pub data Reach (s : LoopThread) : LoopThread → Type 0 where
  here : Reach s s
  next : {t u : LoopThread} → Reach s t → Step t u → Reach s u

-- A number of steps.
pub data Runs (s : LoopThread) : ℕ → LoopThread → Type 0 where
  none_yet : Runs s 0 s
  then : {k : ℕ} {t u : LoopThread} → Runs s k t → Step t u → Runs s (suc k) u
