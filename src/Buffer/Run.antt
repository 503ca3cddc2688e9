-- ===== src/Buffer/Run.antt =====
-- A buffer behaves as a queue of bytes, whatever its clients call.
use tiny_http_server.Prelude.{
  ℕ, ◌+◌, ◌≤◌, ◌≡◌, List, [], ◌∷◌, ◌++◌, refl, arith, length, take, drop, leb, if◌then◌else◌, inl,
  inr, Bool-cases,
}
use tiny_http_server.Prelude.Result.{Result, ok, fail, ◌>>=◌, assertion}
use tiny_http_server.Buffer.{Buffer, append, retrieve_string, retrieve_all_string, max_size}
use tiny_http_server.Buffer.Bounds.{IsValid, view}
use tiny_http_server.Buffer.View.{
  append-Shows, retrieve_string-Shows, retrieve_string-assertion, retrieve_all_string-Shows,
}

-- What a client calls: `append`, `retrieve_string` and `retrieve_all_string`.
pub data Op : Type 0 where
  put : List ℕ → Op
  get : ℕ → Op
  get_all : Op

-- A client's calls in order, with the string that each read returns.
unfoldable pub run : Buffer → List Op → Result (List (List ℕ))
run b [] = ok []
run b (put ds ∷ ops) = append b ds >>= λ b'. run b' ops
run b (get n ∷ ops) = retrieve_string b n >>= λ r. run r.1 ops >>= λ rest. ok (r.0 ∷ rest)
run b (get_all ∷ ops) = retrieve_all_string b >>= λ r. run r.1 ops >>= λ rest. ok (r.0 ∷ rest)

-- The specification: the same calls on a plain list of bytes.
unfoldable pub run_queue : List ℕ → List Op → Result (List (List ℕ))
run_queue q [] = ok []
run_queue q (put ds ∷ ops) = run_queue (q ++ ds) ops
run_queue q (get n ∷ ops) =
    let rest = run_queue (drop n q) ops in
    if leb n (length q) then (rest >>= λ r. ok (take n q ∷ r)) else fail assertion
run_queue q (get_all ∷ ops) = run_queue [] ops >>= λ r. ok (q ∷ r)

-- How many bytes the calls append in all.
unfoldable pub total : List Op → ℕ
total [] = 0
total (put ds ∷ ops) = length ds + total ops
total (get n ∷ ops) = total ops
total (get_all ∷ ops) = total ops

-- Any calls on a valid buffer return what they return on the list of its readable bytes, as long
-- as the bytes appended in all fit the largest vector.
pub run_refines :
    (ops : List Op) {b : Buffer}
    → IsValid b
    → b.writer_index + total ops ≤ max_size
    → run b ops ≡ run_queue (view b) ops
unfolding run run_queue total
run_refines [] v h = refl
run_refines (put ds ∷ ops) v h =
    let (b', e, s) = append-Shows v ds (omega arith) in
    rw (e, ← s.shown) (run_refines ops s.valid (omega (arith, s.low)))
run_refines (get n ∷ ops) {b} v h = elim (Bool-cases (leb n (length (view b)))) [
  | inl enough ↦
      let (r, e, (e', s)) = retrieve_string-Shows v n (ground arith) in
      rw (e, enough, run_refines ops s.valid (omega (arith, s.low)), s.shown, e') refl
  | inr short ↦ rw (retrieve_string-assertion v n (ground arith), short) refl
]
run_refines (get_all ∷ ops) v h =
    let (r, e, (e', s)) = retrieve_all_string-Shows v in
    rw (e, run_refines ops s.valid (omega (arith, s.low)), s.shown, e') refl
