-- ===== src/ThreadPool.antt =====
-- `ThreadPool` of src/threadpool.h: workers that take tasks from a queue under its mutex, and the
-- destructor, which stops and joins them. What a worker does while it holds the mutex is one step.
pub mod Join
pub mod Ends
mod Tests
use Prim.Native.Nat.{ℕ}
use tiny_http_server.Prelude.{
  suc, ◌+◌, ◌≡◌, Bool, true, false, List, [], ◌∷◌, ◌++◌, Option, none, some, if◌then◌else◌,
}

-- A task is a number. Of the workers some wait for the condition, some run a task, and some have
-- returned. `enqueued`, `started` and `ran` record the tasks that came, were taken and were run.
pub record ThreadPool : Type 0 where
  pub tasks : List ℕ
  pub stop : Bool
  pub waiting : ℕ
  pub running : List ℕ
  pub returned : ℕ
  pub enqueued : List ℕ
  pub started : List ℕ
  pub ran : List ℕ

-- The constructor, with its number of threads.
abbrev pub start : ℕ → ThreadPool
start threads = record {
  tasks = [];
  stop = false;
  waiting = threads;
  running = [];
  returned = 0;
  enqueued = [];
  started = [];
  ran = [];
}

-- `enqueue`; none where it throws, on a pool that was stopped.
unfoldable pub enqueue : ℕ → ThreadPool → Option ThreadPool
enqueue f s =
    if s.stop
    then none
    else some (record s { tasks = s.tasks ++ f ∷ []; enqueued = s.enqueued ++ f ∷ [] })

-- What a worker does.
pub data Work (s : ThreadPool) : ThreadPool → Type 0 where
  -- it waits, and finds a task
  takes :
      (f k : ℕ) (rest : List ℕ)
      → s.waiting ≡ suc k
      → s.tasks ≡ f ∷ rest
      → Work s (record s {
        tasks = rest;
        waiting = k;
        running = f ∷ s.running;
        started = s.started ++ f ∷ [];
      })
  -- one of the running tasks, `f`, ends
  runs :
      (f : ℕ) (before after : List ℕ)
      → s.running ≡ before ++ f ∷ after
      → Work s (record s { waiting = s.waiting + 1; running = before ++ after; ran = f ∷ s.ran })
  -- it waits, and finds the pool stopped and no task
  returns :
      (k : ℕ)
      → s.waiting ≡ suc k
      → s.stop ≡ true
      → s.tasks ≡ []
      → Work s (record s { waiting = k; returned = s.returned + 1 })

pub data Step (s : ThreadPool) : ThreadPool → Type 0 where
  enqueues : {t : ThreadPool} (f : ℕ) → enqueue f s ≡ some t → Step s t
  works : {t : ThreadPool} → Work s t → Step s t
  -- the destructor, before it joins
  stops : Step s (record s { stop = true })

pub data Reach (s : ThreadPool) : ThreadPool → Type 0 where
  here : Reach s s
  next : {t u : ThreadPool} → Reach s t → Step t u → Reach s u

-- A number of steps of the workers alone.
pub data Runs (s : ThreadPool) : ℕ → ThreadPool → Type 0 where
  none_yet : Runs s 0 s
  then : {k : ℕ} {t u : ThreadPool} → Runs s k t → Work t u → Runs s (suc k) u
