-- ===== src/TimerQueue/Numbers.antt =====
-- The numbers that `get_` of src/base/timerqueue.cc gives.
use Prim.Native.Nat.{ℕ, zero, suc}
use tiny_http_server.Prelude.{
  ◌≡◌, ◌+◌, ◌<◌, ◌^◌, ◌%◌, ◌∙◌, refl, arith, ap, ap₂, ◌⊎◌, false, List, [], ◌∷◌, ◌++◌, add_size,
  inl, inr, if_true, if_false,
}
use tiny_http_server.Prelude.Result.{Returns}
use tiny_http_server.TimerQueue.{TimerQueue, limit, refill, is_empty, take_number, get}

-- The `k` numbers after `last`.
abbrev pub after : ℕ → ℕ → List ℕ
after last zero = []
after last (suc k) = (last + 1) ∷ after (last + 1) k

after-snoc : (last k : ℕ) → after last k ++ (last + k + 1) ∷ [] ≡ after last (suc k)
after-snoc last zero = ap (λ n. n ∷ []) (omega arith)
after-snoc last (suc k) =
    ap (◌∷◌ (last + 1))
      (ap (λ n. after (last + 1) k ++ n ∷ []) (omega arith) ∙ after-snoc (last + 1) k)

-- `last` was given last, and those up to `seq_limit` wait.
pub record IsAt (last : ℕ) (q : TimerQueue) : Type 0 where
  pub waiting : ℕ
  pub seq : q.seq ≡ after last waiting
  pub ends : q.seq_limit ≡ last + waiting

-- one round of the refill
pushed-IsAt :
    (last : ℕ) (q : TimerQueue)
    → IsAt last q
    → q.seq_limit + 1 < 2 ^ 31
    → IsAt last (record q {
      seq_limit = add_size q.seq_limit 1;
      index = add_size q.index 1;
      seq = q.seq ++ add_size q.seq_limit 1 % 2 ^ 32 ∷ [];
    })
pushed-IsAt last q v h = record {
  waiting = suc v.waiting;
  seq = ap₂ (λ xs n. xs ++ n ∷ []) v.seq (omega (arith, v.ends)) ∙ after-snoc last v.waiting;
  ends = omega (arith, v.ends);
}

refill-IsAt :
    (k last : ℕ) (q : TimerQueue)
    → IsAt last q
    → q.seq_limit + k < 2 ^ 31
    → IsAt last (refill k q)
      × ((refill k q).seq_limit ≡ q.seq_limit + k)
      × ((refill k q).timer_list ≡ q.timer_list)
unfolding refill
refill-IsAt zero last q v h = (v, omega arith, refl)
refill-IsAt (suc k) last q v h =
    let (w, e, same) = refill-IsAt k last _ (pushed-IsAt last q v (omega arith)) (omega arith) in
    (w, omega (arith, e), same)

take_first :
    (last : ℕ) (q : TimerQueue) (k : ℕ)
    → q.seq ≡ after last k
    → q.seq_limit ≡ last + k
    → 0 < k
    → Returns
        (take_number q.seq q)
        (λ r. (r.0 ≡ last + 1) × IsAt (last + 1) r.1 × (r.1.timer_list ≡ q.timer_list))
take_first last q zero e ends h = absurd (omega arith)
take_first last q (suc k) e ends h = (
  (last + 1, record q { seq = after (last + 1) k }),
  ap (λ xs. take_number xs q) e,
  (refl, record { waiting = k; seq = refl; ends = omega (arith, ends) }, refl),
)

zero_cases : (n : ℕ) → (n ≡ 0) ⊎ (0 < n)
zero_cases zero = inl refl
zero_cases (suc n) = inr (omega arith)

after-there : (last k : ℕ) (xs : List ℕ) → xs ≡ after last k → 0 < k → is_empty xs ≡ false
after-there last zero xs e h = absurd (omega arith)
after-there last (suc k) xs e h = ap is_empty e

take-IsAt :
    (last : ℕ) (q : TimerQueue) (v : IsAt last q)
    → 0 < v.waiting
    → Returns
        (take_number q.seq q)
        (λ r. (r.0 ≡ last + 1) × IsAt (last + 1) r.1 × (r.1.timer_list ≡ q.timer_list))
take-IsAt last q v some_wait = take_first last q v.waiting v.seq v.ends some_wait

-- the first number after a refill
refill-take :
    (k last : ℕ) (q : TimerQueue) (v : IsAt last q)
    → v.waiting ≡ 0
    → 0 < k
    → last + k < 2 ^ 31
    → Returns
        (take_number (refill k q).seq (refill k q))
        (λ r. (r.0 ≡ last + 1) × IsAt (last + 1) r.1 × (r.1.timer_list ≡ q.timer_list))
refill-take k last q v none_wait more h =
    let (w, ends, same) = refill-IsAt k last q v (omega (arith, v.ends, none_wait)) in
    let (r, e, (number, next, kept)) =
      take-IsAt last (refill k q) w (omega (arith, w.ends, ends, v.ends, none_wait)) in
    (r, e, (number, next, kept ∙ same))

-- `get_` gives the next number.
pub get-IsAt :
    (last : ℕ) (q : TimerQueue)
    → IsAt last q
    → last + 1024 < 2 ^ 31
    → Returns
        (get q)
        (λ r. (r.0 ≡ last + 1) × IsAt (last + 1) r.1 × (r.1.timer_list ≡ q.timer_list))
unfolding get
get-IsAt last q v h = elim (zero_cases v.waiting) [
  | inr some_wait ↦
      let (r, e, p) = take-IsAt last q v some_wait in
      (
        r,
        ap (λ x. take_number x.seq x)
              (if_false (is_empty q.seq) (refill limit q) q
                (after-there last v.waiting q.seq v.seq some_wait))
            ∙ e,
        p,
      )
  | inl none_wait ↦
      let (r, e, p) = refill-take limit last q v none_wait (omega arith) (omega (arith, h)) in
      (
        r,
        ap (λ x. take_number x.seq x)
              (if_true (is_empty q.seq) (refill limit q) q
                (ap is_empty (v.seq ∙ ap (after last) none_wait)))
            ∙ e,
        p,
      )
]
