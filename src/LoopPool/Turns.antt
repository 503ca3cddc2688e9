-- ===== src/LoopPool/Turns.antt =====
-- The loops that a pool of src/server/eventloopthreadpool.cc hands out, call by call.
use Prim.Native.Nat.{ℕ, suc, ◌+◌}
use native.Mathlib.Nat.{mod-lt, suc-mod, mod-eq_of_lt, mod_self}
use tiny_http_server.Prelude.{
  ◌%◌, ◌<◌, ◌≡◌, ◌∙◌, ◌⊎◌, refl, arith, ap, sym, Bool-cases, inl, inr, if_true, if_false, true,
  List, [], ◌∷◌, none, some, if◌then◌else◌, subst, leb, length, get_elem?, get_elem-there,
}
use tiny_http_server.Prelude.Result.{ok, Returns}
use tiny_http_server.LoopPool.{LoopPool, get_loop}

-- The loop of call number `k`, from 0: the loops in turn, or the base loop where there is no other.
abbrev pub loop_at : LoopPool → ℕ → ℕ
loop_at p k = elim (get_elem? p.loops (k % length p.loops)) [
  | none ↦ p.base_loop
  | some loop ↦ loop
]

-- `next_` after `k` calls
abbrev pub turn : List ℕ → ℕ → ℕ
turn [] k = 0
turn (l ∷ ls) k = k % suc (length ls)

-- The pool was started, and has handed out `k` loops.
pub record IsAt (k : ℕ) (p : LoopPool) : Type 0 where
  pub started : p.started ≡ true
  pub turn_at : p.next ≡ turn p.loops k

next_turn : (k m : ℕ) → (if leb (suc m) (k % suc m + 1) then 0 else k % suc m + 1) ≡ suc k % suc m
next_turn k m = elim (Bool-cases (leb (suc m) (k % suc m + 1))) [
  | inl over ↦
      let last : suc (k % suc m) ≡ suc m = ground arith in
      if_true _ _ _ over ∙ sym (suc-mod k (suc m) ∙ ap (λ x. x % suc m) last ∙ mod_self (suc m))
  | inr inside ↦
      let fits : suc (k % suc m) < suc m = ground arith in
      if_false _ _ _ inside ∙ sym (suc-mod k (suc m) ∙ mod-eq_of_lt fits ∙ omega arith)
]

take_one :
    (p : LoopPool) (l : ℕ) (ls : List ℕ) (next : ℕ) {x after : ℕ}
    → get_elem? (l ∷ ls) next ≡ some x
    → (if leb (suc (length ls)) (next + 1) then 0 else next + 1) ≡ after
    → (let q : LoopPool = record p { started = true; loops = l ∷ ls } in
        get_loop (record q { next = next }) ≡ ok (x, record q { next = after }))
unfolding get_loop
take_one p l ls next found e = rw (found, e) refl

-- what call number `k` does to a pool that was started
abbrev Turns : LoopPool → ℕ → Type 0
Turns p k = get_loop p ≡ ok (loop_at p k, record p { next = turn p.loops (suc k) })

go :
    (k : ℕ) (p : LoopPool) (loops : List ℕ)
    → Turns (record p { started = true; loops = loops; next = turn loops k }) k
unfolding get_loop
go k p [] = refl
go k p (l ∷ ls) =
    let (x, found) =
      get_elem-there (l ∷ ls) (k % suc (length ls))
        (mod-lt k {m = suc (length ls)} (omega arith)) in
    take_one p l ls (k % suc (length ls)) found (next_turn k (length ls))
    ∙ ap
        (λ o. ok (
          elim o [ none ↦ p.base_loop | some loop ↦ loop ],
          record p { started = true; loops = l ∷ ls; next = turn (l ∷ ls) (suc k) },
        ))
        (sym found)

-- Call number `k` returns a loop, and the pool comes to the next.
pub get_loop-IsAt :
    {k : ℕ} (p : LoopPool)
    → IsAt k p
    → get_loop p ≡ ok (loop_at p k, record p { next = turn p.loops (suc k) })
get_loop-IsAt {k} p v =
    subst (λ b. Turns (record p { started = b }) k) (sym v.started)
      (subst (λ n. Turns (record p { started = true; next = n }) k) (sym v.turn_at)
        (go k p p.loops))

turn-lt : (loops : List ℕ) (k : ℕ) → (loops ≡ []) ⊎ (turn loops k < length loops)
turn-lt [] k = inl refl
turn-lt (l ∷ ls) k = inr (mod-lt k {m = suc (length ls)} (omega arith))

-- Call number `k` of a pool that was started returns the loop whose turn it is, number `k` modulo the
-- number of loops, or the base loop where there is no other; the pool comes to the next turn, and its
-- index stays below the number of loops, if there are any.
pub get_loop_bounds :
    {k : ℕ} (p : LoopPool)
    → IsAt k p
    → Returns (get_loop p) (λ r.
      (r.0 ≡ loop_at p k) × IsAt (suc k) r.1 × ((p.loops ≡ []) ⊎ (r.1.next < length p.loops)))
get_loop_bounds {k} p v = (
  _,
  get_loop-IsAt p v,
  (refl, record { started = v.started; turn_at = refl }, turn-lt p.loops (suc k)),
)
