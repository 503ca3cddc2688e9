-- ===== src/LoopThread/Told.antt =====
-- `quit_` and `loop_` of src/server/eventloopthread.cc, before and after `loop` has begun.
use tiny_http_server.Prelude.{◌≡◌, ◌⊎◌, ◌∙◌, Bool, true, false, refl, sym, ap, inl, inr}
use tiny_http_server.LoopThread.{
  make, LoopThread, Owner, unstarted, spinning, started, quitting, waking, joining, joined, Thread,
  absent, initialising, stored, testing, polling, leaving, ended, Move, stores, enters, polls,
  returns, leaves, clears, Step, moves, spawns, gets, skips, finds, misses, quits, wakes, joins,
  Reach, here, next,
}
use tiny_http_server.LoopThread.Quit.{is_looping}

-- The owner is behind the store of `quit`.
abbrev pub has_told : Owner → Bool
has_told waking = true
has_told joining = true
has_told joined = true
has_told _ = false

-- The owner has called `start_loop`.
abbrev pub has_started : Owner → Bool
has_started unstarted = false
has_started _ = true

-- The thread is behind the `while` of `loop`.
abbrev pub has_left : Thread → Bool
has_left leaving = true
has_left ended = true
has_left _ = false

-- The thread has reached the `while` of `loop`.
abbrev pub has_entered : Thread → Bool
has_entered testing = true
has_entered polling = true
has_entered th = has_left th

-- Between the two stores of `loop_`.
abbrev pub has_loop : Thread → Bool
has_loop stored = true
has_loop testing = true
has_loop polling = true
has_loop leaving = true
has_loop _ = false

-- The loop is on, `quit_` is what the owner made of it, and the thread leaves only when told.
pub record IsOn (s : LoopThread) : Type 0 where
  pub owner : has_started s.owner ≡ true
  pub entered : has_entered s.thread ≡ true
  pub told : s.quit ≡ has_told s.owner
  pub set : s.loop_set ≡ has_loop s.thread
  pub left : has_left s.thread ≡ true → s.quit ≡ true

pub Move-IsOn : {s t : LoopThread} → Move s t → IsOn s → IsOn t
Move-IsOn (stores e) v = absurd (let was = v.entered in let there = ap has_entered e in cc)
Move-IsOn (enters e) v = absurd (let was = v.entered in let there = ap has_entered e in cc)
Move-IsOn (polls e e') v = record {
  owner = v.owner;
  entered = refl;
  told = v.told;
  set = v.set ∙ ap has_loop e;
  left = λ e. absurd cc;
}
Move-IsOn (returns e) v = record {
  owner = v.owner;
  entered = refl;
  told = v.told;
  set = v.set ∙ ap has_loop e;
  left = λ e. absurd cc;
}
Move-IsOn (leaves e e') v = record {
  owner = v.owner;
  entered = refl;
  told = v.told;
  set = v.set ∙ ap has_loop e;
  left = λ _. e';
}
Move-IsOn (clears e) v = record {
  owner = v.owner;
  entered = refl;
  told = v.told;
  set = refl;
  left = λ _. v.left (ap has_left e);
}

entered-left : (th : Thread) → has_entered th ≡ true → has_loop th ≡ false → has_left th ≡ true
entered-left absent e e' = e
entered-left initialising e e' = e
entered-left stored e e' = e
entered-left testing e e' = sym e'
entered-left polling e e' = sym e'
entered-left leaving e e' = refl
entered-left ended e e' = refl

-- An owner that finds no loop would have told it to quit.
found : {s : LoopThread} → IsOn s → s.loop_set ≡ false → has_told s.owner ≡ true
found {s} v e = sym v.told ∙ v.left (entered-left s.thread v.entered (sym v.set ∙ e))

pub Step-IsOn : {s t : LoopThread} → Step s t → IsOn s → IsOn t
Step-IsOn (moves m) v = Move-IsOn m v
Step-IsOn (spawns e) v = absurd (let clash = v.owner in let there = ap has_started e in cc)
Step-IsOn (gets e e') v = record {
  owner = refl;
  entered = v.entered;
  told = v.told ∙ ap has_told e;
  set = v.set;
  left = v.left;
}
Step-IsOn (skips e) v = absurd (let clash = v.owner in let there = ap has_started e in cc)
Step-IsOn (finds e e') v = record {
  owner = refl;
  entered = v.entered;
  told = v.told ∙ ap has_told e;
  set = v.set;
  left = v.left;
}
Step-IsOn (misses e e') v = absurd (let clash = found v e' in let there = ap has_told e in cc)
Step-IsOn (quits e) v = record {
  owner = refl;
  entered = v.entered;
  told = refl;
  set = v.set;
  left = λ _. refl;
}
Step-IsOn (wakes e) v = record {
  owner = refl;
  entered = v.entered;
  told = v.told ∙ ap has_told e;
  set = v.set;
  left = v.left;
}
Step-IsOn (joins e e') v = record {
  owner = refl;
  entered = v.entered;
  told = v.told ∙ ap has_told e;
  set = v.set;
  left = v.left;
}

pub Reach-IsOn : {s t : LoopThread} → IsOn s → Reach s t → IsOn t
Reach-IsOn v here = v
Reach-IsOn v (next r w) = Step-IsOn w (Reach-IsOn v r)

-- Before the owner has called `quit`.
pub record IsSane (s : LoopThread) : Type 0 where
  pub set : s.loop_set ≡ has_loop s.thread
  pub quiet : has_told s.owner ≡ false → s.quit ≡ false
  pub absent : s.owner ≡ unstarted → s.thread ≡ absent

Move-IsSane : {s t : LoopThread} → Move s t → IsSane s → IsSane t
Move-IsSane (stores e) v = record {
  set = refl;
  quiet = v.quiet;
  absent = λ o. absurd (let gone = v.absent o in cc);
}
Move-IsSane (enters e) v = record {
  set = v.set ∙ ap has_loop e;
  quiet = λ _. refl;
  absent = λ o. absurd (let gone = v.absent o in cc);
}
Move-IsSane (polls e e') v = record {
  set = v.set ∙ ap has_loop e;
  quiet = v.quiet;
  absent = λ o. absurd (let gone = v.absent o in cc);
}
Move-IsSane (returns e) v = record {
  set = v.set ∙ ap has_loop e;
  quiet = v.quiet;
  absent = λ o. absurd (let gone = v.absent o in cc);
}
Move-IsSane (leaves e e') v = record {
  set = v.set ∙ ap has_loop e;
  quiet = v.quiet;
  absent = λ o. absurd (let gone = v.absent o in cc);
}
Move-IsSane (clears e) v = record {
  set = refl;
  quiet = v.quiet;
  absent = λ o. absurd (let gone = v.absent o in cc);
}

Step-IsSane : {s t : LoopThread} → Step s t → IsSane s → IsSane t
Step-IsSane (moves m) v = Move-IsSane m v
Step-IsSane (spawns e) v = record {
  set = v.set ∙ ap has_loop (v.absent e);
  quiet = λ _. v.quiet (ap has_told e);
  absent = λ o. absurd cc;
}
Step-IsSane (gets e e') v = record {
  set = v.set;
  quiet = λ _. v.quiet (ap has_told e);
  absent = λ o. absurd cc;
}
Step-IsSane (skips e) v = record {
  set = v.set;
  quiet = λ _. v.quiet (ap has_told e);
  absent = λ o. absurd cc;
}
Step-IsSane (finds e e') v = record {
  set = v.set;
  quiet = λ _. v.quiet (ap has_told e);
  absent = λ o. absurd cc;
}
Step-IsSane (misses e e') v = record {
  set = v.set;
  quiet = λ no. absurd cc;
  absent = λ o. absurd cc;
}
Step-IsSane (quits e) v = record { set = v.set; quiet = λ no. absurd cc; absent = λ o. absurd cc }
Step-IsSane (wakes e) v = record { set = v.set; quiet = λ no. absurd cc; absent = λ o. absurd cc }
Step-IsSane (joins e e') v = record {
  set = v.set;
  quiet = λ no. absurd cc;
  absent = λ o. absurd cc;
}

pub Reach-IsSane : {s : LoopThread} → Reach make s → IsSane s
Reach-IsSane here = record { set = refl; quiet = λ _. refl; absent = λ _. refl }
Reach-IsSane (next r w) = Step-IsSane w (Reach-IsSane r)

looping-entered :
    (th : Thread) → is_looping th ≡ true → (has_entered th ≡ true) × (has_left th ≡ false)
looping-entered testing e = (refl, refl)
looping-entered polling e = (refl, refl)
looping-entered absent e = absurd cc
looping-entered initialising e = absurd cc
looping-entered stored e = absurd cc
looping-entered leaving e = absurd cc
looping-entered ended e = absurd cc

started_cases : (o : Owner) → (o ≡ unstarted) ⊎ (has_started o ≡ true)
started_cases unstarted = inl refl
started_cases spinning = inr refl
started_cases started = inr refl
started_cases quitting = inr refl
started_cases waking = inr refl
started_cases joining = inr refl
started_cases joined = inr refl

pub looping-IsOn :
    {s : LoopThread} → IsSane s → is_looping s.thread ≡ true → has_told s.owner ≡ false → IsOn s
looping-IsOn {s} v e quiet =
    let (entered, on) = looping-entered s.thread e in
    record {
      owner = elim (started_cases s.owner) [
        | inl o ↦ absurd (let loops = e ∙ refl in let gone = ap is_looping (v.absent o) in cc)
        | inr o ↦ o
      ];
      entered = entered;
      told = v.quiet quiet ∙ sym quiet;
      set = v.set;
      left = λ gone. absurd (let stays_on = on in cc);
    }
