-- ===== src/TimerQueue/Quiet.antt =====
-- What a round of `reset_` in src/base/timerqueue.cc does to the timers of a map.
use Prim.Native.Nat.{ℕ}
use mathlib.Core.Option.{some_inj}
use tiny_http_server.Prelude.{
  ◌≡◌, ◌+◌, ◌*◌, ◌∙◌, refl, ap, sym, true, false, List, [], ◌∷◌, Option, none, some, Bool-cases,
  inl, inr, if_true, if_false, if◌then◌else◌, ◌==◌, ==_iff,
}
use tiny_http_server.Prelude.Result.{ok, ◌>>=◌, Returns}
use tiny_http_server.FourHeap.{TimerNode}
use tiny_http_server.FourHeap.Timers.{with_timer, without}
use tiny_http_server.FourHeap.Removal.{remove_refines, without-none}
use tiny_http_server.TimerQueue.{TimerQueue, find, cancel_timer_in_loop}
use tiny_http_server.TimerQueue.Book.{Book, Keeps}
use tiny_http_server.TimerQueue.Calls.{not_found, renumbered}

-- The timer of a number, if there is one, at a new time.
abbrev pub again : ℕ → (ℕ → Option TimerNode) → Option TimerNode → ℕ → Option TimerNode
again timer m none = m
again timer m (some a) = with_timer (record a { timer = timer }) m

-- What one timer that expired leaves in a map: itself, an interval later, or nothing.
abbrev pub expire_one : ℕ → TimerNode → (ℕ → Option TimerNode) → ℕ → Option TimerNode
expire_one now e m =
    if e.repeat then again (now + e.interval * 1000000) m (m e.node_seq) else without e.node_seq m

abbrev pub expire : (ℕ → ℕ) → ℕ → List TimerNode → (ℕ → Option TimerNode) → ℕ → Option TimerNode
expire now i [] m = m
expire now i (e ∷ es) m = expire now (i + 1) es (expire_one (now i) e m)

-- the time of the first timer of a heap
abbrev pub first_time : List TimerNode → List ℕ
first_time [] = []
first_time (a ∷ xs) = a.timer ∷ []

-- a queue between the callbacks and the end of `reset_`
pub record IsQuiet (armed : List ℕ) (q : TimerQueue) : Type 0 where
  pub cancel_set : q.cancel_set ≡ []
  pub calling : q.calling_expired ≡ false
  pub armed_is : q.armed ≡ armed

pub cancel-IsQuiet :
    (id : ℕ) (b : Book) (q : TimerQueue) (armed : List ℕ)
    → Keeps b q
    → IsQuiet armed q
    → Returns
        (cancel_timer_in_loop id q)
        (λ q'. Keeps (record b { timers = without id b.timers }) q' × IsQuiet armed q')
unfolding cancel_timer_in_loop
cancel-IsQuiet id b q armed v quiet = elim (Bool-cases (find id q.timer_list)) [
  | inl there ↦
      let (r, removed, (_, held)) = remove_refines id q.timer_list b.timers v.held in
      (
        record q { timer_list = r.1 },
        if_true _ _ _ there ∙ ap (λ x. x >>= λ r'. ok (record q { timer_list = r'.1 })) removed,
        (
          record {
            held = held;
            numbered = renumbered b.last q (record q { timer_list = r.1 }) v.numbered refl refl;
          },
          record {
            cancel_set = quiet.cancel_set;
            calling = quiet.calling;
            armed_is = quiet.armed_is;
          },
        ),
      )
  | inr missing ↦ (
    q,
    if_false _ _ _ missing ∙ ap ok (if_false _ _ _ quiet.calling),
    (
      record {
        held = without-none id q.timer_list b.timers (not_found q.timer_list id missing) v.held;
        numbered = v.numbered;
      },
      quiet,
    ),
  )
]

-- the repeating timers of a map are still in another
abbrev pub Still : (ℕ → Option TimerNode) → (ℕ → Option TimerNode) → Type 0
Still m0 m =
    (s : ℕ) (a : TimerNode) → m0 s ≡ some a → a.repeat ≡ true → (c : TimerNode) × (m s ≡ some c)

pub Still-with_timer :
    (m0 m : ℕ → Option TimerNode) (x : TimerNode) → Still m0 m → Still m0 (with_timer x m)
Still-with_timer m0 m x still s a e repeats = elim (Bool-cases (x.node_seq == s)) [
  | inl here ↦ (x, if_true _ _ _ here)
  | inr there ↦ let (c, found) = still s a e repeats in (c, if_false _ _ _ there ∙ found)
]

pub Still-without :
    (m0 m : ℕ → Option TimerNode) (e : TimerNode)
    → m0 e.node_seq ≡ some e
    → e.repeat ≡ false
    → Still m0 m
    → Still m0 (without e.node_seq m)
Still-without m0 m e there once still s a found repeats = elim (Bool-cases (e.node_seq == s)) [
  | inl here ↦
      let same : e ≡ a = some_inj.0 (sym there ∙ ap m0 ((==_iff e.node_seq s).0 here) ∙ found) in
      absurd (let clash = sym once ∙ ap (λ x. x.repeat) same ∙ repeats in cc)
  | inr other ↦ let (c, kept) = still s a found repeats in (c, if_false _ _ _ other ∙ kept)
]
