-- ===== src/LoopPool/Start.antt =====
-- The loops with which a pool of src/server/eventloopthreadpool.cc starts.
use Prim.Native.Nat.{ℕ, zero, suc, ◌+◌}
use native.Mathlib.Nat.{mod-lt}
use tiny_http_server.Prelude.{
  ◌%◌, ◌<◌, ◌≡◌, ◌∙◌, refl, arith, ap, ap₂, sym, append-nil, append_assoc, if_false, ◌==◌, Bool,
  true, false, ◌⊎◌, inl, inr, List, [], ◌∷◌, ◌++◌, none, some, length, get_elem?,
}
use tiny_http_server.Prelude.Result.{ok, Returns}
use tiny_http_server.LoopPool.{LoopPool, make, start, start_threads, start_loop, ran}
use tiny_http_server.LoopPool.Turns.{loop_at, IsAt}

-- the loops of the threads from `i` on
abbrev thread_loops : (ℕ → ℕ) → ℕ → ℕ → List ℕ
thread_loops loop_of zero i = []
thread_loops loop_of (suc left) i = loop_of i ∷ thread_loops loop_of left (i + 1)

thread_loops-get :
    (loop_of : ℕ → ℕ) (left i j : ℕ)
    → j < left
    → get_elem? (thread_loops loop_of left i) j ≡ some (loop_of (i + j))
thread_loops-get loop_of zero i j h = absurd (omega (arith, h))
thread_loops-get loop_of (suc left) i zero h = ap (λ n. some (loop_of n)) (omega arith)
thread_loops-get loop_of (suc left) i (suc j) h =
    thread_loops-get loop_of left (i + 1) j (omega (arith, h))
    ∙ ap (λ n. some (loop_of n)) (omega arith)

length-thread_loops : (loop_of : ℕ → ℕ) (left i : ℕ) → length (thread_loops loop_of left i) ≡ left
length-thread_loops loop_of zero i = refl
length-thread_loops loop_of (suc left) i = ap suc (length-thread_loops loop_of left (i + 1))

ran-append : (cb : Bool) (xs ys : List ℕ) → ran cb xs ++ ran cb ys ≡ ran cb (xs ++ ys)
ran-append true xs ys = refl
ran-append false xs ys = refl

ran-nil : (cb : Bool) → ran cb [] ≡ []
ran-nil true = refl
ran-nil false = refl

start_threads_lem :
    (cb : Bool) (loop_of : ℕ → ℕ) (left i : ℕ) (p : LoopPool)
    → start_threads cb loop_of left i p ≡ record p {
      loops = p.loops ++ thread_loops loop_of left i;
      inited = p.inited ++ ran cb (thread_loops loop_of left i);
    }
unfolding start_threads
start_threads_lem cb loop_of zero i p =
    ap₂ (λ l m. record p { loops = l; inited = m }) (sym (append-nil p.loops))
      (sym (ap (λ xs. p.inited ++ xs) (ran-nil cb) ∙ append-nil p.inited))
start_threads_lem cb loop_of (suc left) i p =
    let more = thread_loops loop_of left (i + 1) in
    start_threads_lem cb loop_of left (i + 1) (start_loop cb (loop_of i) p)
    ∙ ap₂ (λ l m. record p { loops = l; inited = m }) (append_assoc p.loops (loop_of i ∷ []) more)
        (append_assoc p.inited (ran cb (loop_of i ∷ [])) (ran cb more)
          ∙ ap (λ xs. p.inited ++ xs) (ran-append cb (loop_of i ∷ []) more))

-- The loop that call number `k` of a pool with `n` threads should return.
abbrev pub loop_due : ℕ → ℕ → (ℕ → ℕ) → ℕ → ℕ
loop_due base_loop zero loop_of k = base_loop
loop_due base_loop (suc n) loop_of k = loop_of (k % suc n)

-- the pool after `start`, with at least one thread
abbrev threaded : Bool → ℕ → ℕ → (ℕ → ℕ) → LoopPool
threaded cb base_loop n loop_of =
    let loops = thread_loops loop_of n 0 in
    record (make base_loop n) { started = true; loops = loops; inited = ran cb loops }

start_lem :
    (cb : Bool) (base_loop n : ℕ) (loop_of : ℕ → ℕ)
    → start cb loop_of (make base_loop (suc n)) ≡ ok (threaded cb base_loop (suc n) loop_of)
unfolding start
start_lem cb base_loop n loop_of =
    if_false (suc n == 0) _ _ (ground arith)
    ∙ ap ok (
        start_threads_lem cb loop_of (suc n) 0 (record (make base_loop (suc n)) { started = true }))

threaded-loop_at :
    (cb : Bool) (base_loop n : ℕ) (loop_of : ℕ → ℕ) (k : ℕ)
    → loop_at (threaded cb base_loop (suc n) loop_of) k ≡ loop_of (k % suc n)
threaded-loop_at cb base_loop n loop_of k =
    let loops = thread_loops loop_of (suc n) 0 in
    ap (λ m. elim (get_elem? loops (k % suc m)) [ none ↦ base_loop | some loop ↦ loop ])
      (length-thread_loops loop_of n 1)
    ∙ ap (λ o. elim o [ none ↦ base_loop | some loop ↦ loop ])
        (thread_loops-get loop_of (suc n) 0 (k % suc n) (mod-lt k {m = suc n} (omega arith)))
    ∙ ap loop_of (omega arith)

-- A pool that was started, with a callback or with threads: its calls return the loops that are due.
pub start-IsAt :
    (cb : Bool) (base_loop n : ℕ) (loop_of : ℕ → ℕ)
    → (cb ≡ true) ⊎ (0 < n)
    → Returns
        (start cb loop_of (make base_loop n))
        (λ p. IsAt 0 p × ((k : ℕ) → loop_at p k ≡ loop_due base_loop n loop_of k))
unfolding start start_threads
start-IsAt true base_loop zero loop_of h =
    (_, refl, (record { started = refl; turn_at = refl }, λ k. refl))
start-IsAt false base_loop zero loop_of (inl p) = absurd cc
start-IsAt false base_loop zero loop_of (inr p) = absurd (omega (arith, p))
start-IsAt cb base_loop (suc n) loop_of h = (
  _,
  start_lem cb base_loop n loop_of,
  (record { started = refl; turn_at = omega arith }, threaded-loop_at cb base_loop n loop_of),
)
