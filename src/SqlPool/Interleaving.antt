-- ===== src/SqlPool/Interleaving.antt =====
-- `GetConn` and `FreeConn` of several threads, step by step. `GetConn` looks at the queue and waits
-- for the semaphore before it takes the mutex; `FreeConn` queues and posts under it.
use Prim.Native.Nat.{ℕ}
use tiny_http_server.Prelude.{
  suc, ◌+◌, ◌≡◌, ◌≢◌, Bool, true, false, List, [], ◌∷◌, ◌++◌, refl, arith, length, length-append,
  ap,
}
use tiny_http_server.SqlPool.{SqlPool, Conn}
use tiny_http_server.SqlPool.Fifo.{IsCounted}

-- The pool, and where the threads stand: how many have seen a queue that was not empty, how many
-- have passed `sem_wait`, and how many hold the mutex between `push` and `sem_post`. `crashed` says
-- that a thread called `front` on an empty queue.
pub record Shared : Type 0 where
  pub queue : List Conn
  pub sem : ℕ
  pub looked : ℕ
  pub passed : ℕ
  pub posting : ℕ
  pub crashed : Bool

pub data Step (s : Shared) : Shared → Type 0 where
  -- `if (conn_que_.empty())`, not taken
  look : s.queue ≢ [] → Step s (record s { looked = s.looked + 1 })
  -- `sem_wait`
  wait :
      (n k : ℕ)
      → s.sem ≡ suc n
      → s.looked ≡ suc k
      → Step s (record s { sem = n; looked = k; passed = s.passed + 1 })
  -- `front` and `pop`, with the mutex
  take :
      (k : ℕ) (sql : Conn) (rest : List Conn)
      → s.passed ≡ suc k
      → s.posting ≡ 0
      → s.queue ≡ sql ∷ rest
      → Step s (record s { queue = rest; passed = k })
  take_empty :
      (k : ℕ)
      → s.passed ≡ suc k
      → s.posting ≡ 0
      → s.queue ≡ []
      → Step s (record s { crashed = true })
  -- `push`, with the mutex
  push :
      (sql : Conn) → s.posting ≡ 0 → Step s (record s { queue = s.queue ++ sql ∷ []; posting = 1 })
  -- `sem_post`, before the mutex is let go
  post : s.posting ≡ 1 → Step s (record s { sem = s.sem + 1; posting = 0 })

pub data Reach (s : Shared) : Shared → Type 0 where
  here : Reach s s
  next : {t u : Shared} → Reach s t → Step t u → Reach s u

abbrev pub start : SqlPool → Shared
start p = record {
  queue = p.conn_que;
  sem = p.sem;
  looked = 0;
  passed = 0;
  posting = 0;
  crashed = false;
}

-- Every queued connection is counted by the semaphore, claimed by a thread behind `sem_wait`, or
-- about to be posted.
pub record IsSafe (s : Shared) : Type 0 where
  pub claimed : s.sem + s.passed + s.posting ≡ length s.queue
  pub running : s.crashed ≡ false

Step-IsSafe : {s t : Shared} → Step s t → IsSafe s → IsSafe t
Step-IsSafe (look h) v = record { claimed = v.claimed; running = v.running }
Step-IsSafe (wait n k e e') v = record { claimed = omega (arith, v); running = v.running }
Step-IsSafe (take k sql rest e e' q) v = record {
  claimed = omega (arith, v.claimed, ap length q);
  running = v.running;
}
Step-IsSafe (take_empty k e e' q) v = absurd (omega (arith, v.claimed, ap length q))
Step-IsSafe {s} (push sql e) v = record {
  claimed = omega (arith, v.claimed, length-append s.queue (sql ∷ []));
  running = v.running;
}
Step-IsSafe (post e) v = record { claimed = omega (arith, v.claimed); running = v.running }

-- However the threads take turns on a counted pool, no `GetConn` calls `front` on an empty queue,
-- and each queued connection is counted by the semaphore or belongs to one thread.
pub Reach-IsSafe : (p : SqlPool) {t : Shared} → IsCounted p → Reach (start p) t → IsSafe t
Reach-IsSafe p c here = record { claimed = omega arith; running = refl }
Reach-IsSafe p c (next r st) = Step-IsSafe st (Reach-IsSafe p c r)
