-- ===== src/SqlPool/Fifo.antt =====
-- One thread on the pool of src/sql/sqlconnpool.cc, against a first-in first-out queue.
use Prim.Native.Nat.{ℕ}
use tiny_http_server.Prelude.{
  suc, ◌+◌, ◌≡◌, ◌∙◌, List, [], ◌∷◌, ◌++◌, ◌<◌, true, none, some, refl, arith, length,
  length-append, lt→ltb, All, ap,
}
use tiny_http_server.Prelude.Result.{Result, ok, fail, ◌>>=◌, Returns, assertion}
use tiny_http_server.SqlPool.{
  SqlPool, Conn, init, connect_all, get_conn, free_conn, acquire, release, not_null,
}

-- The semaphore counts the queued connections.
abbrev pub IsCounted : SqlPool → Type 0
IsCounted p = p.sem ≡ length p.conn_que

pub get_conn-some :
    (p : SqlPool) (sql : Conn) (rest : List Conn) (n : ℕ)
    → p.conn_que ≡ sql ∷ rest
    → p.sem ≡ suc n
    → get_conn p ≡ ok (sql, record p { conn_que = rest; sem = n })
unfolding get_conn
get_conn-some p sql rest n e e' = rw (e, get_conn, e') refl

pub acquire-some :
    (p : SqlPool) (sql : Conn) (rest : List Conn) (n : ℕ)
    → p.conn_que ≡ sql ∷ rest
    → p.sem ≡ suc n
    → acquire p ≡ ok (sql, record p { conn_que = rest; sem = n })
unfolding acquire
acquire-some p sql rest n e e' = get_conn-some p sql rest n e e'

pub release-some :
    (p : SqlPool) (c : ℕ)
    → release (some c) p ≡ ok (record p { conn_que = p.conn_que ++ some c ∷ []; sem = p.sem + 1 })
unfolding release
release-some p c = refl

connect_all-queues :
    (conns : List (Conn × Conn)) (que : List Conn)
    → All (λ r. not_null r.0 ≡ true) conns
    → Returns (connect_all conns que) (λ q. length q ≡ length que + length conns)
unfolding connect_all
connect_all-queues [] que h = (que, refl, omega arith)
connect_all-queues ((handle, sql) ∷ rest) que h =
    let (q, e, n) = connect_all-queues rest (que ++ sql ∷ []) h.1 in
    (q, rw h.0 e, omega (arith, n, length-append que (sql ∷ [])))

-- `init` on a new pool, with handles that are not null, queues one connection for each, and the
-- semaphore counts them.
pub init-IsCounted :
    (conns : List (Conn × Conn)) (p : SqlPool)
    → p.conn_que ≡ []
    → 0 < length conns
    → All (λ r. not_null r.0 ≡ true) conns
    → Returns (init conns p) (λ q. IsCounted q × (length q.conn_que ≡ length conns))
unfolding init
init-IsCounted conns p empty h handles =
    let (q, e, n) = connect_all-queues conns p.conn_que handles in
    (
      record { conn_que = q; sem = length conns; max_conn = length conns },
      rw (lt→ltb 0 (length conns) h, e) refl,
      omega (arith, n, ap length empty),
    )

-- What threads call, one call at a time.
pub data Call : Type 0 where
  get : Call
  free : Conn → Call

-- The calls in order, with the connection that each `GetConn` returns.
unfoldable pub run : SqlPool → List Call → Result (List Conn)
run p [] = ok []
run p (get ∷ calls) = get_conn p >>= λ r. run r.1 calls >>= λ out. ok (r.0 ∷ out)
run p (free sql ∷ calls) = free_conn sql p >>= λ p'. run p' calls

-- The same calls on the list of idle connections.
unfoldable pub run_fifo : List Conn → List Call → Result (List Conn)
run_fifo que [] = ok []
run_fifo [] (get ∷ calls) = run_fifo [] calls >>= λ out. ok (none ∷ out)
run_fifo (sql ∷ que) (get ∷ calls) = run_fifo que calls >>= λ out. ok (sql ∷ out)
run_fifo que (free none ∷ calls) = fail assertion
run_fifo que (free (some c) ∷ calls) = run_fifo (que ++ some c ∷ []) calls

abbrev counted : List Conn → ℕ → SqlPool
counted que m = record { conn_que = que; sem = length que; max_conn = m }

run-counted :
    (calls : List Call) (que : List Conn) (m : ℕ) → run (counted que m) calls ≡ run_fifo que calls
unfolding run run_fifo get_conn free_conn
run-counted [] que m = refl
run-counted (get ∷ calls) [] m = rw (run-counted calls [] m) refl
run-counted (get ∷ calls) (sql ∷ que) m = rw (run-counted calls que m) refl
run-counted (free none ∷ calls) que m = refl
run-counted (free (some c) ∷ calls) que m =
    let n : length que + 1 ≡ length (que ++ some c ∷ []) =
      omega (arith, length-append que (some c ∷ [])) in
    rw n (run-counted calls (que ++ some c ∷ []) m)

-- A counted pool behaves as a first-in-first-out list of its idle connections, whatever is called:
-- no call blocks on the semaphore, and `FreeConn` of a null pointer fails its assertion.
pub pool_refines :
    (calls : List Call) (p : SqlPool) → IsCounted p → run p calls ≡ run_fifo p.conn_que calls
pool_refines calls p h =
    ap (λ n. run (record p { sem = n }) calls) h ∙ run-counted calls p.conn_que p.max_conn
