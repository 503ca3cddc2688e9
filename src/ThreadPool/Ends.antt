-- ===== src/ThreadPool/Ends.antt =====
-- The join in the destructor of src/threadpool.h: how long the workers go on.
use Prim.Native.Nat.{ℕ}
use tiny_http_server.Prelude.{
  zero, suc, ◌+◌, ◌*◌, ◌<◌, ◌≤◌, ◌≡◌, ◌∙◌, ◌⊎◌, true, [], ◌∷◌, refl, arith, ap, length,
  length-append, List-cases, inl, inr,
}
use tiny_http_server.ThreadPool.{
  ThreadPool, start, Work, takes, runs, returns, Reach, Runs, none_yet, then,
}
use tiny_http_server.ThreadPool.Join.{IsCounted, Work-IsCounted, Reach-IsCounted}

-- The steps that the workers of a stopped pool have left: a task is taken and ends, a worker returns.
abbrev pub work_left : ThreadPool → ℕ
work_left s = length s.tasks * 2 + length s.running * 2 + s.waiting

Work-less : {s t : ThreadPool} → Work s t → work_left t < work_left s
Work-less {s} (takes f k rest e e') = omega (arith, e, ap length e')
Work-less {s} (runs f before after e) =
    omega (arith, ap length e, length-append before (f ∷ after), length-append before after)
Work-less (returns k e e' e'') = omega arith

Work-stop : {s t : ThreadPool} → Work s t → t.stop ≡ s.stop
Work-stop (takes f k rest e e') = refl
Work-stop (runs f before after e) = refl
Work-stop (returns k e e' e'') = refl

pred : (m : ℕ) → (m ≡ 0) ⊎ ((k : ℕ) × (m ≡ suc k))
pred zero = inl refl
pred (suc k) = inr (k, refl)

-- A worker of a stopped pool that has not returned finds something to do.
Work-there :
    {n : ℕ} {s : ThreadPool}
    → IsCounted n s
    → s.stop ≡ true
    → (s.returned ≡ n) ⊎ ((t : ThreadPool) × Work s t)
Work-there {n} {s} v stopped = elim (List-cases s.running) [
  | inr (f, rest, e) ↦ inr (_, runs f [] rest e)
  | inl idle ↦ elim (pred s.waiting) [
    | inl gone ↦ inl (omega (arith, v.workers, ap length idle))
    | inr (k, waits) ↦ elim (List-cases s.tasks) [
      | inl empty ↦ inr (_, returns k waits stopped empty)
      | inr (f, rest, e) ↦ inr (_, takes f k rest waits e)
    ]
  ]
]

stays :
    {n : ℕ} {s : ThreadPool} {k : ℕ} {t : ThreadPool}
    → IsCounted n s
    → s.stop ≡ true
    → Runs s k t
    → IsCounted n t × (t.stop ≡ true) × (k + work_left t ≤ work_left s)
stays v e none_yet = (v, e, omega arith)
stays v e (then r w) =
    let (v', e', h) = stays v e r in
    (Work-IsCounted w v', Work-stop w ∙ e', omega (arith, Work-less w))

-- The join of a stopped pool ends: its workers go on for at most two steps a task, queued or running,
-- and one a waiting worker, and as long as not all have returned, one of them has a step to take.
pub Runs-ends :
    {n : ℕ} {s : ThreadPool} {k : ℕ} {t : ThreadPool}
    → Reach (start n) s
    → s.stop ≡ true
    → Runs s k t
    → (k ≤ work_left s) × ((t.returned ≡ n) ⊎ ((u : ThreadPool) × Work t u))
Runs-ends r stopped rs =
    let (v, e, h) = stays (Reach-IsCounted r) stopped rs in (omega arith, Work-there v e)
