-- ===== src/LoopPool.antt =====
-- `EventLoopThreadPool` of src/server/eventloopthreadpool.h and src/server/eventloopthreadpool.cc,
-- with what it uses of `EventLoopThread`. A loop is a number.
pub mod Turns
pub mod Start
mod Tests
use Prim.Native.Nat.{ℕ, zero, suc, ◌+◌}
use tiny_http_server.Prelude.{
  Bool, true, false, List, [], ◌∷◌, ◌++◌, Option, none, some, if◌then◌else◌, ◌==◌, leb, not, length,
  get_elem?,
}
use tiny_http_server.Prelude.Result.{
  Result, ok, fail, ◌>>=◌, ◌>>◌, check, assertion, empty_function, out_of_bounds,
}

-- `inited` lists the loops for which the callback of `start` was run, if it is set.
pub record LoopPool : Type 0 where
  pub base_loop : ℕ
  pub num_threads : ℕ
  pub started : Bool
  pub next : ℕ
  pub loops : List ℕ
  pub inited : List ℕ

-- The constructor and `set_thread_num`.
abbrev pub make : ℕ → ℕ → LoopPool
make base_loop num_threads = record {
  base_loop = base_loop;
  num_threads = num_threads;
  started = false;
  next = 0;
  loops = [];
  inited = [];
}

-- the loops for which the callback is run, whether it is set or an empty function
abbrev pub ran : Bool → List ℕ → List ℕ
ran true loops = loops
ran false loops = []

-- `start_loop` of a new thread, which runs a callback that is set in its loop before the loop is
-- known.
abbrev pub start_loop : Bool → ℕ → LoopPool → LoopPool
start_loop cb loop p = record p {
  loops = p.loops ++ loop ∷ [];
  inited = p.inited ++ ran cb (loop ∷ []);
}

-- The rounds of `start` from `i` on, `left` of them; `loop_of` gives the loop of each thread.
unfoldable pub start_threads : Bool → (ℕ → ℕ) → ℕ → ℕ → LoopPool → LoopPool
start_threads cb loop_of zero i p = p
start_threads cb loop_of (suc left) i p =
    start_threads cb loop_of left (i + 1) (start_loop cb (loop_of i) p)

-- `cb` says whether the callback is set. A pool without threads calls it in any case, and the call of
-- an empty function throws.
unfoldable pub start : Bool → (ℕ → ℕ) → LoopPool → Result LoopPool
start cb loop_of p = do
  check (not p.started) assertion
  let p' = start_threads cb loop_of p.num_threads 0 (record p { started = true })
  if p.num_threads == 0
      then (do check cb empty_function; ok (record p' { inited = p'.inited ++ p'.base_loop ∷ [] }))
      else ok p'

-- `next_` after its `++`
abbrev pub advance : LoopPool → LoopPool
advance p = record p { next = if leb (length p.loops) (p.next + 1) then 0 else p.next + 1 }

-- `loops_[next_++]` is not checked by the code.
unfoldable pub get_loop : LoopPool → Result (ℕ × LoopPool)
get_loop p = do
  check p.started assertion
  elim p.loops [
    | [] ↦ ok (p.base_loop, p)
    | _ ↦ elim (get_elem? p.loops p.next) [
      | none ↦ fail out_of_bounds
      | some loop ↦ ok (loop, advance p)
    ]
  ]
