-- ===== src/LoopThread/Leave.antt =====
-- The destructor of src/server/eventloopthread.cc once the thread is in `loop`.
use Prim.Native.Nat.{ℕ}
use tiny_http_server.Prelude.{
  ◌≡◌, ◌≤◌, ◌<◌, ◌+◌, ◌⊎◌, ◌∙◌, Bool, true, false, refl, arith, ap, inl, inr,
}
use tiny_http_server.LoopThread.{
  make, LoopThread, Owner, unstarted, spinning, started, quitting, waking, joining, joined, Thread,
  absent, initialising, stored, testing, polling, leaving, ended, Move, stores, enters, polls,
  returns, leaves, clears, Step, moves, spawns, gets, skips, finds, misses, quits, wakes, joins,
  Reach, Runs, none_yet, then,
}
use tiny_http_server.LoopThread.Quit.{is_looping}
use tiny_http_server.LoopThread.Told.{
  has_told, has_left, has_entered, IsOn, Move-IsOn, Step-IsOn, Reach-IsOn, Reach-IsSane,
  looping-IsOn,
}

-- The steps of the thread to its end, and of the owner to the end of the join.
abbrev pub thread_left : Thread → ℕ
thread_left polling = 3
thread_left testing = 2
thread_left leaving = 1
thread_left _ = 0

abbrev pub owner_left : Owner → ℕ
owner_left joining = 1
owner_left _ = 0

abbrev pub left : LoopThread → ℕ
left s = thread_left s.thread + owner_left s.owner

abbrev pub is_joining : Owner → Bool
is_joining joining = true
is_joining joined = true
is_joining _ = false

is_joining-told : (o : Owner) → is_joining o ≡ true → has_told o ≡ true
is_joining-told joining e = refl
is_joining-told joined e = refl
is_joining-told unstarted e = e
is_joining-told spinning e = e
is_joining-told started e = e
is_joining-told quitting e = e
is_joining-told waking e = refl

-- The owner has told the thread and joins it.
pub record IsJoining (s : LoopThread) : Type 0 where
  pub on : IsOn s
  pub joining : is_joining s.owner ≡ true

joining-quit : {s : LoopThread} → IsJoining s → s.quit ≡ true
joining-quit v = v.on.told ∙ is_joining-told _ v.joining

Move-less : {s t : LoopThread} → Move s t → IsJoining s → left t < left s
Move-less (stores e) v = absurd (let was = v.on.entered in let there = ap has_entered e in cc)
Move-less (enters e) v = absurd (let was = v.on.entered in let there = ap has_entered e in cc)
Move-less (polls e e') v = absurd (let told = joining-quit v in cc)
Move-less (returns e) v = omega (arith, ap thread_left e)
Move-less (leaves e e') v = omega (arith, ap thread_left e)
Move-less (clears e) v = omega (arith, ap thread_left e)

Move-owner : {s t : LoopThread} → Move s t → t.owner ≡ s.owner
Move-owner (stores e) = refl
Move-owner (enters e) = refl
Move-owner (polls e e') = refl
Move-owner (returns e) = refl
Move-owner (leaves e e') = refl
Move-owner (clears e) = refl

Step-less : {s t : LoopThread} → Step s t → IsJoining s → IsJoining t × (left t < left s)
Step-less (moves m) v = (
  record { on = Move-IsOn m v.on; joining = ap is_joining (Move-owner m) ∙ v.joining },
  Move-less m v,
)
Step-less (spawns e) v = absurd (let was = v.joining in let there = ap is_joining e in cc)
Step-less (gets e e') v = absurd (let was = v.joining in let there = ap is_joining e in cc)
Step-less (skips e) v = absurd (let was = v.joining in let there = ap is_joining e in cc)
Step-less (finds e e') v = absurd (let was = v.joining in let there = ap is_joining e in cc)
Step-less (misses e e') v = absurd (let was = v.joining in let there = ap is_joining e in cc)
Step-less (quits e) v = absurd (let was = v.joining in let there = ap is_joining e in cc)
Step-less (wakes e) v = absurd (let was = v.joining in let there = ap is_joining e in cc)
Step-less (joins e e') v =
    (record { on = Step-IsOn (joins e e') v.on; joining = refl }, omega (arith, ap owner_left e))

looping_cases :
    (th : Thread) → has_entered th ≡ true → (has_left th ≡ true) ⊎ (th ≡ testing) ⊎ (th ≡ polling)
looping_cases testing e = inr (inl refl)
looping_cases polling e = inr (inr refl)
looping_cases leaving e = inl refl
looping_cases ended e = inl refl
looping_cases absent e = inl e
looping_cases initialising e = inl e
looping_cases stored e = inl e

left_cases : (th : Thread) → has_left th ≡ true → (th ≡ leaving) ⊎ (th ≡ ended)
left_cases leaving e = inl refl
left_cases ended e = inr refl
left_cases absent e = absurd cc
left_cases initialising e = absurd cc
left_cases stored e = absurd cc
left_cases testing e = absurd cc
left_cases polling e = absurd cc

joining_cases : (o : Owner) → is_joining o ≡ true → (o ≡ joining) ⊎ (o ≡ joined)
joining_cases joining e = inl refl
joining_cases joined e = inr refl
joining_cases unstarted e = absurd cc
joining_cases spinning e = absurd cc
joining_cases started e = absurd cc
joining_cases quitting e = absurd cc
joining_cases waking e = absurd cc

-- What a thread that has been told does next, up to its end.
moves_on : {s : LoopThread} → IsJoining s → (s.thread ≡ ended) ⊎ ((t : LoopThread) × Move s t)
moves_on {s} v = elim (looping_cases s.thread v.on.entered) [
  | inr (inl tests) ↦ inr (_, leaves tests (joining-quit v))
  | inr (inr round) ↦ inr (_, returns round)
  | inl left ↦ elim (left_cases s.thread left) [
    | inl leave ↦ inr (_, clears leave)
    | inr end ↦ inl end
  ]
]

Step-there : {s : LoopThread} → IsJoining s → (s.owner ≡ joined) ⊎ ((t : LoopThread) × Step s t)
Step-there {s} v = elim (joining_cases s.owner v.joining) [
  | inr done ↦ inl done
  | inl joins_it ↦ elim (moves_on v) [
    | inr (t, m) ↦ inr (t, moves m)
    | inl end ↦ inr (_, joins joins_it end)
  ]
]

stays :
    {s : LoopThread} {k : ℕ} {t : LoopThread}
    → IsJoining s
    → Runs s k t
    → IsJoining t × (k + left t ≤ left s)
stays v none_yet = (v, omega arith)
stays v (then r w) = let (v', h) = stays v r in let (v'', h') = Step-less w v' in (v'', omega arith)

thread_left_bound : (th : Thread) → thread_left th ≤ 3
thread_left_bound polling = omega arith
thread_left_bound testing = omega arith
thread_left_bound leaving = omega arith
thread_left_bound absent = omega arith
thread_left_bound initialising = omega arith
thread_left_bound stored = omega arith
thread_left_bound ended = omega arith

-- If the thread is in `loop` before the owner comes to the store of `quit`, a destructor that later
-- comes to the join has told the loop to quit, and the join ends: thread and owner take at most
-- four more steps, and as long as the join is not over, one of them has a step to take.
pub join_ends :
    {s t : LoopThread} {k : ℕ} {u : LoopThread}
    → Reach make s
    → is_looping s.thread ≡ true
    → has_told s.owner ≡ false
    → Reach s t
    → t.owner ≡ joining
    → Runs t k u
    → (t.quit ≡ true) × (k ≤ 4) × ((u.owner ≡ joined) ⊎ ((w : LoopThread) × Step u w))
join_ends {t = t} r loops quiet r' j rs =
    let on = Reach-IsOn (looping-IsOn (Reach-IsSane r) loops quiet) r' in
    let there : IsJoining t = record { on = on; joining = ap is_joining j } in
    let (end, h) = stays there rs in
    (joining-quit there, omega (arith, thread_left_bound t.thread, ap owner_left j), Step-there end)
