-- ===== src/TimerQueue/Calls.antt =====
-- The calls on a queue of src/base/timerqueue.cc, beside the same calls on a map.
use Prim.Native.Nat.{ℕ}
use tiny_http_server.Prelude.{
  ◌≡◌, ◌+◌, ◌<◌, ◌≤◌, ◌^◌, ◌∙◌, refl, arith, ap, sym, subst, Bool, true, false, List, [], ◌∷◌,
  Option, none, some, length, ==_iff, Option-cases, Bool-cases, inl, inr, if_true, if_false, lt→ltb,
  ltb, leb, if◌then◌else◌, ◌*◌, ◌==◌,
}
use tiny_http_server.Prelude.Result.{Result, ok, ◌>>=◌, ◌>>◌, check, assertion, Returns}
use tiny_http_server.FourHeap.{TimerNode, FourHeap, prolong}
use tiny_http_server.FourHeap.Index.{view_of, view-none}
use tiny_http_server.FourHeap.Timers.{Holds, with_timer, without, push_refines}
use tiny_http_server.FourHeap.Removal.{remove_refines, without-none}
use tiny_http_server.FourHeap.Change.{extend_refines}
use tiny_http_server.FourHeap.Run.{empty-Holds}
use tiny_http_server.TimerQueue.{
  TimerQueue, make, reset_timerfd, front, find, add_timer_in_loop, add_timer, cancel_timer_in_loop,
  extend_timer_in_loop, Call, adds, cancels, extends, call, call_all,
}
use tiny_http_server.TimerQueue.Numbers.{IsAt, get-IsAt}
use tiny_http_server.TimerQueue.Book.{
  Book, new_book, new_timer, prolonged, note, note_all, Keeps, front-there,
}

-- the end of `add_timer_in_loop`
abbrev settle : TimerNode → TimerQueue → FourHeap → TimerNode → Result TimerQueue
settle node q h a =
    let q' : TimerQueue = record q { timer_list = h } in
    ok (if leb node.timer a.timer then reset_timerfd node.timer q' else q')

settle-Keeps :
    (b : Book) (node a : TimerNode) (q : TimerQueue) (h : FourHeap)
    → Holds b.timers h
    → IsAt b.last q
    → Returns (settle node q h a) (Keeps b)
settle-Keeps b node a q h held at_last = elim (Bool-cases (leb node.timer a.timer)) [
  | inl first ↦ (
    _,
    ap ok (if_true _ _ _ first),
    record {
      held = held;
      numbered = record { waiting = at_last.waiting; seq = at_last.seq; ends = at_last.ends };
    },
  )
  | inr later ↦ (
    _,
    ap ok (if_false _ _ _ later),
    record {
      held = held;
      numbered = record { waiting = at_last.waiting; seq = at_last.seq; ends = at_last.ends };
    },
  )
]

small_next : (last n : ℕ) → n ≡ last + 1 → last + 1024 < 2 ^ 31 → n < 2 ^ 31
small_next last n e h = omega (arith, e, h)

add-Keeps :
    (now interval : ℕ) (repeat : Bool) (b : Book) (q : TimerQueue)
    → Keeps b q
    → b.last + 1024 < 2 ^ 31
    → Returns (add_timer now interval repeat q) (Keeps (note (adds now interval repeat) b))
unfolding add_timer add_timer_in_loop
add-Keeps now interval repeat b q v h =
    let (r, got, (number, at_next, same)) = get-IsAt b.last q v.numbered h in
    let node = new_timer r.0 now interval repeat in
    let fits : ltb r.0 (2 ^ 31) ≡ true = lt→ltb r.0 (2 ^ 31) (small_next b.last r.0 number h) in
    let m : ℕ → Option TimerNode = with_timer node b.timers in
    let (h', pushed, held) =
      push_refines node r.1.timer_list b.timers (subst (Holds b.timers) (sym same) v.held) in
    let (a, there, _) = front-there h' m r.0 node held (if_true _ _ _ ((==_iff r.0 r.0).1 refl)) in
    let b' : ℕ → Book =
      λ n. record { timers = with_timer (new_timer n now interval repeat) b.timers; last = n } in
    let (q', settled, kept) =
      settle-Keeps (b' r.0) node a r.1 h' held (subst (λ n. IsAt n r.1) (sym number) at_next) in
    (
      q',
      ap
            (λ x. x >>= λ r'.
              check (ltb r'.0 (2 ^ 31)) assertion
              >> add_timer_in_loop (new_timer r'.0 now interval repeat) r'.1)
            got
          ∙ ap (λ c. check c assertion >> add_timer_in_loop node r.1) fits
          ∙ ap (λ x. x >>= λ k. front k >>= settle node r.1 k) pushed
          ∙ ap (λ x. x >>= settle node r.1 h') there
          ∙ settled,
      subst (λ n. Keeps (b' n) q') number kept,
    )

abbrev pub is_some : Option ℕ → Bool
is_some o = elim o [ none ↦ false | some pos ↦ true ]

pub not_found : (h : FourHeap) (id : ℕ) → find id h ≡ false → h.index id ≡ none
not_found h id e = elim (Option-cases (h.index id)) [
  | inl missing ↦ missing
  | inr (pos, there) ↦ absurd (let clash = sym (ap is_some there) ∙ e in cc)
]

pub renumbered :
    (last : ℕ) (q q' : TimerQueue)
    → IsAt last q
    → q'.seq ≡ q.seq
    → q'.seq_limit ≡ q.seq_limit
    → IsAt last q'
renumbered last q q' v same same' = record {
  waiting = v.waiting;
  seq = same ∙ v.seq;
  ends = same' ∙ v.ends;
}

cancel-Keeps :
    (id : ℕ) (b : Book) (q : TimerQueue)
    → Keeps b q
    → Returns (cancel_timer_in_loop id q) (Keeps (note (cancels id) b))
unfolding cancel_timer_in_loop
cancel-Keeps id b q v = elim (Bool-cases (find id q.timer_list)) [
  | inl there ↦
      let (r, removed, (_, held)) = remove_refines id q.timer_list b.timers v.held in
      (
        record q { timer_list = r.1 },
        if_true _ _ _ there ∙ ap (λ x. x >>= λ r'. ok (record q { timer_list = r'.1 })) removed,
        record {
          held = held;
          numbered = renumbered b.last q (record q { timer_list = r.1 }) v.numbered refl refl;
        },
      )
  | inr missing ↦
      let held : Holds (without id b.timers) q.timer_list =
        without-none id q.timer_list b.timers (not_found q.timer_list id missing) v.held in
      elim (Bool-cases q.calling_expired) [
        | inl inside ↦ (
          record q { cancel_set = id ∷ q.cancel_set },
          if_false _ _ _ missing ∙ ap ok (if_true _ _ _ inside),
          record {
            held = held;
            numbered =
                renumbered b.last q (record q { cancel_set = id ∷ q.cancel_set }) v.numbered refl
                  refl;
          },
        )
        | inr outside ↦ (
          q,
          if_false _ _ _ missing ∙ ap ok (if_false _ _ _ outside),
          record { held = held; numbered = v.numbered },
        )
      ]
]

-- What the code makes of a timer is what the specification says of it.
prolong_lem :
    (interval : ℕ) (repeat : Bool) (a : TimerNode) (m : ℕ → Option TimerNode)
    → with_timer (prolong interval repeat a) m ≡ prolonged interval repeat m (some a)
prolong_lem interval repeat a m =
    let later : a.timer + (if ltb 0 interval then interval else a.interval) * 1000000
        ≡ a.timer + 1000000 * (if interval == 0 then a.interval else interval) =
      ground arith in
    ap (λ t. with_timer (record a { timer = t; repeat = repeat }) m) later

extend-Keeps :
    (interval id : ℕ) (repeat : Bool) (b : Book) (q : TimerQueue)
    → Keeps b q
    → Returns
        (extend_timer_in_loop interval id repeat q)
        (Keeps (note (extends interval id repeat) b))
unfolding extend_timer_in_loop
extend-Keeps interval id repeat b q v = elim (Option-cases (q.timer_list.index id)) [
  | inr (pos, there) ↦
      let (a, at_pos, _) = v.held.indexed.only id pos there in
      let noted : b.timers id ≡ some a =
        sym (v.held.timers id) ∙ view_of q.timer_list id pos there ∙ at_pos in
      let (h, extended, held) =
        extend_refines interval id repeat a q.timer_list b.timers noted v.held in
      (
        record q { timer_list = h },
        if_true _ _ _ (ap is_some there)
            ∙ ap (λ x. x >>= λ h'. ok (record q { timer_list = h' })) extended,
        record {
          held =
              subst (λ o. Holds (prolonged interval repeat b.timers o) h) (sym noted)
                (subst (λ m. Holds m h) (prolong_lem interval repeat a b.timers) held);
          numbered = renumbered b.last q (record q { timer_list = h }) v.numbered refl refl;
        },
      )
  | inl missing ↦ (
    q,
    if_false _ _ _ (ap is_some missing),
    record {
      held =
          subst (λ o. Holds (prolonged interval repeat b.timers o) q.timer_list)
            (sym (sym (v.held.timers id) ∙ view-none q.timer_list id missing)) v.held;
      numbered = v.numbered;
    },
  )
]

call-Keeps :
    (c : Call) (b : Book) (q : TimerQueue)
    → Keeps b q
    → b.last + 1024 < 2 ^ 31
    → Returns (call c q) (Keeps (note c b))
call-Keeps (adds now interval repeat) b q v h = add-Keeps now interval repeat b q v h
call-Keeps (cancels id) b q v h = cancel-Keeps id b q v
call-Keeps (extends interval id repeat) b q v h = extend-Keeps interval id repeat b q v

note-last : (c : Call) (b : Book) → (note c b).last ≤ b.last + 1
note-last (adds now interval repeat) b = omega arith
note-last (cancels id) b = omega arith
note-last (extends interval id repeat) b = omega arith

pub call_all-Keeps :
    (cs : List Call) (b : Book) (q : TimerQueue)
    → Keeps b q
    → b.last + length cs + 1024 ≤ 2 ^ 31
    → Returns (call_all cs q) (Keeps (note_all cs b))
unfolding call_all
call_all-Keeps [] b q v h = (q, refl, v)
call_all-Keeps (c ∷ cs) b q v h =
    let (q1, called, w) = call-Keeps c b q v (omega (arith, h)) in
    let (q2, rest, w') = call_all-Keeps cs (note c b) q1 w (omega (arith, h, note-last c b)) in
    (q2, ap (λ x. x >>= call_all cs) called ∙ rest, w')

-- Any calls of add_timer, cancel_timer_in_loop_ and extend_timer_in_loop_ on a new queue, whose numbers stay in the range of an
-- `int`, return, and the heap then holds the timers that the same calls leave in a map, in which each
-- new timer has the next number after the value that `seq_limit_` had: an extension takes the
-- repetition that is given and puts the timer off by the given interval, or by its own if that is 0,
-- and an extension or a cancellation of a number that is not there changes no timer.
pub queue_refines :
    (cs : List Call) (seq_limit index : ℕ)
    → seq_limit + length cs + 1024 ≤ 2 ^ 31
    → Returns
        (call_all cs (make seq_limit index))
        (λ q. Holds (note_all cs (new_book seq_limit)).timers q.timer_list)
queue_refines cs seq_limit index h =
    let (q, called, v) =
      call_all-Keeps cs (new_book seq_limit) (make seq_limit index)
        (record {
          held = empty-Holds;
          numbered = record { waiting = 0; seq = refl; ends = omega arith };
        })
        (omega (arith, h)) in
    (q, called, v.held)
