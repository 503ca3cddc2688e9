-- ===== src/LoopThread/Quit.antt =====
-- The destructor of src/server/eventloopthread.cc: a `quit` that comes before `loop`.
use tiny_http_server.Prelude.{◌≡◌, ◌≢◌, Bool, true, false, refl, ap}
use tiny_http_server.LoopThread.{
  LoopThread, waking, joining, joined, Owner, Thread, stored, testing, polling, leaving, ended,
  absent, initialising, Move, stores, enters, polls, returns, leaves, clears, Step, moves, spawns,
  gets, skips, finds, misses, quits, wakes, joins, Reach, here, next,
}

-- The thread is in `loop`, between two tests or in a round.
abbrev pub is_looping : Thread → Bool
is_looping testing = true
is_looping polling = true
is_looping _ = false

-- The thread is behind the store of `loop_`, and not behind the `while` of `loop`.
abbrev pub has_stored : Thread → Bool
has_stored stored = true
has_stored th = is_looping th

-- The owner is behind the store of `quit`, and not behind the join.
abbrev pub is_told : Owner → Bool
is_told waking = true
is_told joining = true
is_told _ = false

-- The owner waits for a thread that has not begun `loop`, or has not been told to quit in it.
pub record IsLost (s : LoopThread) : Type 0 where
  pub owner : is_told s.owner ≡ true
  pub stored : has_stored s.thread ≡ true
  pub quit : is_looping s.thread ≡ true → s.quit ≡ false

looping-stored : (th : Thread) → is_looping th ≡ true → has_stored th ≡ true
looping-stored testing e = refl
looping-stored polling e = refl
looping-stored absent e = e
looping-stored initialising e = e
looping-stored stored e = refl
looping-stored leaving e = e
looping-stored ended e = e

Move-IsLost : {s t : LoopThread} → Move s t → IsLost s → IsLost t
Move-IsLost (stores e) v = record { owner = v.owner; stored = refl; quit = λ loops. absurd cc }
Move-IsLost (enters e) v = record { owner = v.owner; stored = refl; quit = λ _. refl }
Move-IsLost (polls e e') v = record { owner = v.owner; stored = refl; quit = λ _. e' }
Move-IsLost (returns e) v = record {
  owner = v.owner;
  stored = refl;
  quit = λ _. v.quit (ap is_looping e);
}
Move-IsLost (leaves e e') v = absurd (let clash = v.quit (ap is_looping e) in cc)
Move-IsLost (clears e) v = absurd (let clash = v.stored in let there = ap has_stored e in cc)

Step-IsLost : {s t : LoopThread} → Step s t → IsLost s → IsLost t
Step-IsLost (moves m) v = Move-IsLost m v
Step-IsLost (spawns e) v = absurd (let clash = v.owner in let there = ap is_told e in cc)
Step-IsLost (gets e e') v = absurd (let clash = v.owner in let there = ap is_told e in cc)
Step-IsLost (skips e) v = absurd (let clash = v.owner in let there = ap is_told e in cc)
Step-IsLost (finds e e') v = absurd (let clash = v.owner in let there = ap is_told e in cc)
Step-IsLost (misses e e') v = absurd (let clash = v.owner in let there = ap is_told e in cc)
Step-IsLost (quits e) v = absurd (let clash = v.owner in let there = ap is_told e in cc)
Step-IsLost (wakes e) v = record { owner = refl; stored = v.stored; quit = v.quit }
Step-IsLost (joins e e') v = absurd (let clash = v.stored in let there = ap has_stored e' in cc)

Reach-IsLost : {s t : LoopThread} → Reach s t → IsLost s → IsLost t
Reach-IsLost here v = v
Reach-IsLost (next r w) v = Step-IsLost w (Reach-IsLost r v)

-- If the destructor stores `quit` after the thread has stored its loop in `loop_` and before the
-- thread begins `loop`, which sets `quit_` back to false, then the join never ends.
pub lost_quit :
    {s t : LoopThread} → s.thread ≡ stored → s.owner ≡ waking → Reach s t → t.owner ≢ joined
lost_quit {s} th o r =
    let there : IsLost s = record {
      owner = ap is_told o;
      stored = ap has_stored th;
      quit = λ loops. absurd (let no = ap is_looping th in cc);
    } in
    λ e. let told = (Reach-IsLost r there).owner in let gone = ap is_told e in cc
