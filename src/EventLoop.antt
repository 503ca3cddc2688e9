-- ===== src/EventLoop.antt =====
-- `EventLoop` of src/event/eventloop.h and src/event/eventloop.cc: the functions that are queued for
-- a loop, its wake-up, and the phases of `loop`, with the threads that queue as steps in between.
pub mod Queue
mod Tests
use Prim.Native.Nat.{ℕ}
use tiny_http_server.Prelude.{
  suc, ◌+◌, ◌<◌, ◌≡◌, ◌⊎◌, Bool, true, false, List, [], ◌∷◌, ◌++◌, if◌then◌else◌, not, ◌||◌,
}

-- Where the loop stands: in `poll`, in the handlers of the events, or in `dopending_func`, with the
-- functions that are left to run.
pub data Phase : Type 0 where
  polling handling : Phase
  calling : List ℕ → Phase

-- A function is a number. `wake_count` is the counter behind `wakefd_`; `waking` counts the other
-- threads between `push_back` and `wakeup_`. `queued` and `ran` record what was queued and run.
pub record EventLoop : Type 0 where
  pub phase : Phase
  pub pending : List ℕ
  pub wake_count : ℕ
  pub waking : ℕ
  pub queued : List ℕ
  pub ran : List ℕ

-- `loop` begins; nothing was queued before.
abbrev pub start : EventLoop
start = record { phase = polling; pending = []; wake_count = 0; waking = 0; queued = []; ran = [] }

abbrev pub is_calling : Phase → Bool
is_calling polling = false
is_calling handling = false
is_calling (calling fs) = true

-- `pending_func_.push_back`, under the mutex
abbrev pub push_back : ℕ → EventLoop → EventLoop
push_back f s = record s { pending = s.pending ++ f ∷ []; queued = s.queued ++ f ∷ [] }

-- `wakeup_`
abbrev pub wakeup : EventLoop → EventLoop
wakeup s = record s { wake_count = s.wake_count + 1 }

-- `queue_in_loop` in the thread of the loop, which tests `calling_`.
unfoldable pub queue_in_loop : ℕ → EventLoop → EventLoop
queue_in_loop f s = let s' = push_back f s in if is_calling s.phase then wakeup s' else s'

-- `handle_read_`: reading an event counter sets it back.
unfoldable pub handle_read : EventLoop → EventLoop
handle_read s = record s { wake_count = 0 }

-- The swap of `dopending_func`.
unfoldable pub take_pending : EventLoop → EventLoop
take_pending s = record s { phase = calling s.pending; pending = [] }

pub data Step (s : EventLoop) : EventLoop → Type 0 where
  -- another thread calls `queue_in_loop`, and then wakes the loop
  push : (f : ℕ) → Step s (record (push_back f s) { waking = s.waking + 1 })
  wake : (n : ℕ) → s.waking ≡ suc n → Step s (record (wakeup s) { waking = n })
  -- `poll` returns, with events or after its time
  wait : s.phase ≡ polling → Step s (record s { phase = handling })
  -- a handler runs: that of the wake-up, or one that queues a function
  woken : s.phase ≡ handling → 0 < s.wake_count → Step s (handle_read s)
  queues : (f : ℕ) → s.phase ≡ handling → Step s (queue_in_loop f s)
  -- `dopending_func`: the swap, a function that may queue others on its way, and the end
  swaps : s.phase ≡ handling → Step s (take_pending s)
  calls :
      (f : ℕ) (fs : List ℕ)
      → s.phase ≡ calling (f ∷ fs)
      → Step s (record s { phase = calling fs; ran = s.ran ++ f ∷ [] })
  requeues : (f : ℕ) (fs : List ℕ) → s.phase ≡ calling fs → Step s (queue_in_loop f s)
  ends : s.phase ≡ calling [] → Step s (record s { phase = polling })

pub data Reach (s : EventLoop) : EventLoop → Type 0 where
  here : Reach s s
  next : {t u : EventLoop} → Reach s t → Step t u → Reach s u
