-- ===== src/FourHeap.antt =====
-- `FourHeap` of src/base/four_heap.h and src/base/four_heap.cc, with the nodes of
-- src/base/timernode.h: the timers in a vector, and the position of each by its number.
pub mod Index
pub mod Shift
pub mod Timers
pub mod Removal
pub mod Change
pub mod Run
pub mod Expired
pub mod Found
mod Tests
use Prim.Native.Nat.{ℕ, zero, suc, ◌+◌, ◌-◌, ◌*◌, ◌/◌}
use tiny_http_server.Prelude.{
  Bool, true, false, List, [], ◌∷◌, ◌++◌, Option, none, some, if◌then◌else◌, ◌==◌, leb, ltb, length,
  get_elem?, set, take, drop, not,
}
use tiny_http_server.Prelude.Result.{
  Result, ok, fail, ◌>>=◌, ◌>>◌, check, assertion, out_of_bounds, out_of_fuel,
}

-- Times are in microseconds, and an interval in seconds; the callback is that of the number.
pub record TimerNode : Type 0 where
  pub node_seq : ℕ
  pub timer : ℕ
  pub interval : ℕ
  pub repeat : Bool

-- `index_` is a function, of none where it has no entry.
pub record FourHeap : Type 0 where
  pub heap : List TimerNode
  pub index : ℕ → Option ℕ

abbrev pub empty_heap : FourHeap
empty_heap = record { heap = []; index = λ seq. none }

-- `index_[seq] = pos`
abbrev pub put : ℕ → ℕ → (ℕ → Option ℕ) → ℕ → Option ℕ
put seq pos index s = if seq == s then some pos else index s

-- `index_.erase(seq)`
abbrev pub forget : ℕ → (ℕ → Option ℕ) → ℕ → Option ℕ
forget seq index s = if seq == s then none else index s

-- `heap_[pos]`, which the code does not check
abbrev pub node_at : List TimerNode → ℕ → Result TimerNode
node_at xs pos = elim (get_elem? xs pos) [ none ↦ fail out_of_bounds | some a ↦ ok a ]

unfoldable pub swap : ℕ → ℕ → FourHeap → Result FourHeap
swap l r h = do
  a ← node_at h.heap l
  b ← node_at h.heap r
  ok (record {
    heap = set (set h.heap l b) r a;
    index = put a.node_seq r (put b.node_seq l h.index);
  })

-- The `for` of `shif_down_`: `left` positions from `k` on, and the best so far.
unfoldable pub least : ℕ → ℕ → ℕ → Option ℕ → List TimerNode → Option ℕ
least zero k mini best xs = best
least (suc left) k mini best xs = elim (get_elem? xs k) [
  | none ↦ best
  | some a ↦
      if ltb a.timer mini
      then least left (k + 1) a.timer (some k) xs
      else least left (k + 1) mini best xs
]

-- The rounds of `shif_down_` at `i`, after `count` swaps; `pos << 2 + 1` is `pos << 3`.
unfoldable pub shif_down_rounds : ℕ → ℕ → ℕ → FourHeap → Result (ℕ × FourHeap)
unfolding swap least
shif_down_rounds zero i count h = fail out_of_fuel
shif_down_rounds (suc rounds) i count h = if leb (length h.heap) (i * 8) then ok (count, h) else (do
  a ← node_at h.heap i
  elim (least 4 (i * 8) a.timer none h.heap) [
    | none ↦ ok (count, h)
    | some m ↦ do h' ← swap i m h; shif_down_rounds rounds m (count + 1) h'
  ])

abbrev pub shif_down : ℕ → FourHeap → Result (ℕ × FourHeap)
shif_down pos h = shif_down_rounds (suc (length h.heap)) pos 0 h

-- The rounds of `shif_up_` at `i`; the parent `j` is that of `pos` in all of them.
unfoldable pub shif_up_rounds : ℕ → ℕ → ℕ → FourHeap → Result FourHeap
unfolding swap
shif_up_rounds zero i j h = fail out_of_fuel
shif_up_rounds (suc rounds) i j h = do
  a ← node_at h.heap j
  b ← node_at h.heap i
  (if leb a.timer b.timer then ok h else (do h' ← swap i j h; shif_up_rounds rounds j j h'))

-- At 0 the parent is -1, and no round is made.
unfoldable pub shif_up : ℕ → FourHeap → Result FourHeap
unfolding shif_up_rounds
shif_up zero h = ok h
shif_up (suc pos) h = shif_up_rounds 2 (suc pos) (pos / 4) h

abbrev pub shif : ℕ → FourHeap → Result FourHeap
shif pos h = do r ← shif_down pos h; if r.0 == 0 then shif_up pos r.1 else ok r.1

unfoldable pub push : TimerNode → FourHeap → Result FourHeap
unfolding shif_down_rounds shif_up
push node h = elim (h.index node.node_seq) [
  | none ↦
      let pos = length h.heap in
      let h' : FourHeap = record {
        heap = h.heap ++ node ∷ [];
        index = put node.node_seq pos h.index;
      } in
      shif_up pos h'
  | some pos ↦ shif pos (record h { heap = set h.heap pos node })
]

-- `destory_` after its swap: the last node is dropped.
abbrev pub drop_last : ℕ → FourHeap → Result FourHeap
drop_last pos h = do
  a ← node_at h.heap (length h.heap - 1)
  let h' : FourHeap = record {
    heap = take (length h.heap - 1) h.heap;
    index = forget a.node_seq h.index;
  }
  if ltb pos (length h'.heap) then shif pos h' else ok h'

unfoldable pub destory : ℕ → FourHeap → Result FourHeap
unfolding swap shif_down_rounds shif_up
destory pos h = do
  let n = length h.heap - 1
  check (leb pos n) assertion
  (if ltb pos n then (do h' ← swap pos n h; drop_last pos h') else drop_last pos h)

unfoldable pub remove : ℕ → FourHeap → Result (Bool × FourHeap)
unfolding destory
remove id h = elim (h.index id) [
  | none ↦ ok (false, h)
  | some pos ↦ do h' ← destory pos h; ok (true, h')
]

unfoldable pub pop : FourHeap → Result FourHeap
unfolding destory
pop h = do
  check (not (length h.heap == 0)) assertion
  h' ← swap 0 (length h.heap - 1) h
  destory (length h'.heap - 1) h'

-- `index_[id]`, which puts 0 under a number that is missing
abbrev pub index_or_zero : ℕ → FourHeap → ℕ × FourHeap
index_or_zero id h = elim (h.index id) [
  | none ↦ (0, record h { index = put id 0 h.index })
  | some pos ↦ (pos, h)
]

-- The node of a number is changed, and moved down.
abbrev pub change : (TimerNode → TimerNode) → ℕ → FourHeap → Result FourHeap
change f id h = do
  let r = index_or_zero id h
  a ← node_at r.1.heap r.0
  s ← shif_down r.0 (record r.1 { heap = set r.1.heap r.0 (f a) })
  ok s.1

unfoldable pub reset : ℕ → ℕ → FourHeap → Result FourHeap
unfolding shif_down_rounds
reset id timer h = change (λ a. record a { timer = timer }) id h

-- `add`, after `set_repeat`; an interval of none or less is the node's own.
abbrev pub prolong : ℕ → Bool → TimerNode → TimerNode
prolong interval repeat a = record a {
  repeat = repeat;
  timer = a.timer + (if ltb 0 interval then interval else a.interval) * 1000000;
}

unfoldable pub extend : ℕ → ℕ → Bool → FourHeap → Result FourHeap
unfolding shif_down_rounds
extend interval id repeat h = change (prolong interval repeat) id h

-- A `std::priority_queue` has the latest timer in front: the queue without it, and it.
unfoldable pub take_top : List TimerNode → Option (TimerNode × List TimerNode)
take_top [] = none
take_top (a ∷ q) = elim (take_top q) [
  | none ↦ some (a, [])
  | some (b, rest) ↦ if ltb a.timer b.timer then some (b, a ∷ rest) else some (a, b ∷ rest)
]

-- `heap_[top + 1]` to `heap_[top + 4]`, as far as there are any
abbrev pub children : ℕ → List TimerNode → List TimerNode
children top xs = take 4 (drop (top + 1) xs)

-- The rounds of `get_k`; `res` is what was found so far.
unfoldable pub get_k_rounds :
    ℕ → ℕ → List TimerNode → List TimerNode → FourHeap → Result (List TimerNode)
unfolding take_top
get_k_rounds zero timer q res h = fail out_of_fuel
get_k_rounds (suc rounds) timer q res h = elim (take_top q) [
  | none ↦ ok res
  | some (a, rest) ↦
      if ltb timer a.timer
      then ok res
      else (let r = index_or_zero a.node_seq h in
          get_k_rounds rounds timer (children (r.0 / 4) r.1.heap ++ rest) (res ++ a ∷ []) r.1)
]

unfoldable pub get_k : ℕ → ℕ → FourHeap → Result (List TimerNode)
unfolding get_k_rounds
get_k rounds timer h = elim h.heap [ [] ↦ ok [] | a ∷ _ ↦ get_k_rounds rounds timer (a ∷ []) [] h ]
