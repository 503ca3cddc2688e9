-- ===== src/TimerQueue/Book.antt =====
-- The timers that a queue of src/base/timerqueue.cc keeps, as a map from their numbers.
use Prim.Native.Nat.{ℕ}
use tiny_http_server.Prelude.{
  ◌≡◌, ◌+◌, ◌*◌, ◌∙◌, arith, ◌==◌, if◌then◌else◌, ap, sym, Bool, List, [], ◌∷◌, Option, none, some,
  get_elem?-lt, get_elem-there, Option-cases, inl, inr,
}
use tiny_http_server.Prelude.Result.{ok, fail, out_of_bounds, Returns}
use tiny_http_server.FourHeap.{TimerNode, FourHeap}
use tiny_http_server.FourHeap.Index.{view_of, view-none}
use tiny_http_server.FourHeap.Timers.{Holds, with_timer, without}
use tiny_http_server.TimerQueue.{TimerQueue, front, Call, adds, cancels, extends}
use tiny_http_server.TimerQueue.Numbers.{IsAt}

-- The timers by their numbers, and the last number that was given.
pub record Book : Type 0 where
  pub timers : ℕ → Option TimerNode
  pub last : ℕ

abbrev pub new_book : ℕ → Book
new_book last = record { timers = λ s. none; last = last }

abbrev pub new_timer : ℕ → ℕ → ℕ → Bool → TimerNode
new_timer seq now interval repeat = record {
  node_seq = seq;
  timer = now + interval * 1000000;
  interval = interval;
  repeat = repeat;
}

-- The timers with that of a number prolonged, if there is one: it takes the repetition that is
-- given, and runs out later by the given interval in seconds, or by its own if that is 0.
abbrev pub prolonged : ℕ → Bool → (ℕ → Option TimerNode) → Option TimerNode → ℕ → Option TimerNode
prolonged interval repeat m none = m
prolonged interval repeat m (some a) =
    with_timer
      (record {
        node_seq = a.node_seq;
        timer = a.timer + 1000000 * (if interval == 0 then a.interval else interval);
        interval = a.interval;
        repeat = repeat;
      })
      m

abbrev pub note : Call → Book → Book
note (adds now interval repeat) b = record {
  timers = with_timer (new_timer (b.last + 1) now interval repeat) b.timers;
  last = b.last + 1;
}
note (cancels id) b = record b { timers = without id b.timers }
note (extends interval id repeat) b = record b {
  timers = prolonged interval repeat b.timers (b.timers id);
}

abbrev pub note_all : List Call → Book → Book
note_all [] b = b
note_all (c ∷ cs) b = note_all cs (note c b)

-- A queue that keeps the timers of a book.
pub record Keeps (b : Book) (q : TimerQueue) : Type 0 where
  pub held : Holds b.timers q.timer_list
  pub numbered : IsAt b.last q

-- a heap with a timer has one in front
pub front-there :
    (h : FourHeap) (m : ℕ → Option TimerNode) (s : ℕ) (a : TimerNode)
    → Holds m h
    → m s ≡ some a
    → Returns (front h) (λ b. Unit {0})
front-there h m s a v e = elim (Option-cases (h.index s)) [
  | inl missing ↦ absurd (let clash = sym (view-none h s missing) ∙ v.timers s ∙ e in cc)
  | inr (i, found) ↦
      let inside = get_elem?-lt h.heap i (sym (view_of h s i found) ∙ v.timers s ∙ e) in
      let (b, first) = get_elem-there h.heap 0 (omega (arith, inside)) in
      (b, ap (λ o. elim o [ none ↦ fail out_of_bounds | some a ↦ ok a ]) first, tt)
]
