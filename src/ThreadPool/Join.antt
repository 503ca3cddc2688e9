-- ===== src/ThreadPool/Join.antt =====
-- What the pool of src/threadpool.h has done once its workers have been joined.
use Prim.Native.Nat.{ℕ}
use mathlib.Core.List.Perm
use mathlib.Core.Option.{some_inj}
use mathlib.Core.List.{Perm, perm_middle}
use tiny_http_server.Prelude.{
  ◌+◌, ◌<◌, ◌≡◌, ◌∙◌, true, List, [], ◌∷◌, ◌++◌, some, refl, arith, ap, sym, append_assoc,
  append-nil, length, length-append, Bool-cases, inl, inr, subst, if_true, if_false,
}
use tiny_http_server.ThreadPool.{
  ThreadPool, start, enqueue, Work, Step, enqueues, works, takes, runs, returns, stops, Reach, here,
  next,
}

-- `n` workers wait, run or have returned, and those that returned saw a stopped pool without tasks.
pub record IsCounted (n : ℕ) (s : ThreadPool) : Type 0 where
  pub order : s.enqueued ≡ s.started ++ s.tasks
  pub taken : Perm s.started (s.running ++ s.ran)
  pub workers : s.waiting + length s.running + s.returned ≡ n
  pub closed : 0 < s.returned → (s.stop ≡ true) × (s.tasks ≡ [])

-- a task that a worker takes starts to run
take_perm :
    (f : ℕ) (started : List ℕ) {taken : List ℕ}
    → Perm started taken
    → Perm (started ++ f ∷ []) (f ∷ taken)
take_perm f started {taken} p =
    Perm.trans (perm_middle started [])
      (Perm.cons f (subst (λ l. Perm l taken) (sym (append-nil started)) p))

-- a task that ends moves from the running ones to those that ran
run_perm :
    (f : ℕ) (before after ran : List ℕ) {started running : List ℕ}
    → running ≡ before ++ f ∷ after
    → Perm started (running ++ ran)
    → Perm started ((before ++ after) ++ f ∷ ran)
run_perm f before after ran {started} e p = Perm.trans (subst (λ l. Perm started (l ++ ran)) e p) (
    Perm.trans (Perm.append_right ran (perm_middle before after))
      (Perm.symm (perm_middle (before ++ after) ran)))

enqueue-IsCounted :
    {n : ℕ} (f : ℕ) {s t : ThreadPool} → enqueue f s ≡ some t → IsCounted n s → IsCounted n t
unfolding enqueue
enqueue-IsCounted {n} f {s} {t} e v = elim (Bool-cases s.stop) [
  | inl stopped ↦ absurd (let clash = sym (if_true _ _ _ stopped) ∙ e in cc)
  | inr open_yet ↦ subst (IsCounted n) (some_inj.0 (sym (if_false _ _ _ open_yet) ∙ e)) (record {
    order = ap (λ l. l ++ f ∷ []) v.order ∙ append_assoc s.started s.tasks (f ∷ []);
    taken = v.taken;
    workers = v.workers;
    closed = λ h. absurd (let clash = sym (v.closed h).0 ∙ open_yet in cc);
  })
]

pub Work-IsCounted : {n : ℕ} {s t : ThreadPool} → Work s t → IsCounted n s → IsCounted n t
Work-IsCounted {n} {s} (takes f k rest e e') v = record {
  order = v.order ∙ ap (◌++◌ s.started) e' ∙ sym (append_assoc s.started (f ∷ []) rest);
  taken = take_perm f s.started v.taken;
  workers = omega (arith, v.workers);
  closed = λ h. absurd (let clash = sym e' ∙ (v.closed h).1 in cc);
}
Work-IsCounted {n} {s} (runs f before after e) v = record {
  order = v.order;
  taken = run_perm f before after s.ran e v.taken;
  workers =
      omega (
        arith,
        v.workers,
        ap length e,
        length-append before (f ∷ after),
        length-append before after,
      );
  closed = v.closed;
}
Work-IsCounted (returns k e e' e'') v = record {
  order = v.order;
  taken = v.taken;
  workers = omega (arith, v.workers);
  closed = λ h. (e', e'');
}

Step-IsCounted : {n : ℕ} {s t : ThreadPool} → Step s t → IsCounted n s → IsCounted n t
Step-IsCounted (enqueues f e) v = enqueue-IsCounted f e v
Step-IsCounted (works w) v = Work-IsCounted w v
Step-IsCounted stops v = record {
  order = v.order;
  taken = v.taken;
  workers = v.workers;
  closed = λ h. (refl, (v.closed h).1);
}

pub Reach-IsCounted : {n : ℕ} {s : ThreadPool} → Reach (start n) s → IsCounted n s
Reach-IsCounted here = record {
  order = refl;
  taken = Perm.refl [];
  workers = omega arith;
  closed = λ h. absurd (omega (arith, h));
}
Reach-IsCounted (next r st) = Step-IsCounted st (Reach-IsCounted r)

no_tasks : (l : List ℕ) → length l ≡ 0 → l ≡ []
no_tasks [] e = refl
no_tasks (f ∷ l) e = absurd (omega (arith, e))

-- The destructor loses no task: once all workers of a pool with at least one have been joined, the
-- tasks that were run are those that were ever queued, each as often, and they were started in the
-- order in which they were queued.
pub join-ran :
    {n : ℕ} {s : ThreadPool}
    → 0 < n
    → Reach (start n) s
    → s.returned ≡ n
    → (s.started ≡ s.enqueued) × Perm s.ran s.enqueued
join-ran {n} {s} some_workers r joined =
    let v = Reach-IsCounted r in
    let idle = no_tasks s.running (omega (arith, v.workers, joined)) in
    let all_started =
      v.order ∙ ap (◌++◌ s.started) (v.closed (omega (arith, joined))).1 ∙ append-nil s.started in
    let all_ran = subst (λ l. Perm s.started (l ++ s.ran)) idle v.taken in
    (sym all_started, Perm.symm (subst (λ l. Perm l s.ran) (sym all_started) all_ran))
