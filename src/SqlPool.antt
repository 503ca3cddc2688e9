-- ===== src/SqlPool.antt =====
-- src/sql/sqlconnpool.cc and src/sql/sqlconnRAII.h: the pool of database connections. A `MYSQL *`
-- is a number, with `none` for the null pointer. The mutex makes each call one step; what other
-- threads do between the steps of `GetConn` is in the child `Interleaving`.
pub mod Fifo
pub mod Interleaving
mod Tests
use Prim.Native.Nat.{ℕ}
use tiny_http_server.Prelude.{
  zero, suc, ◌+◌, ◌-◌, Bool, true, false, List, [], ◌∷◌, ◌++◌, Option, none, some, ltb, ◌==◌,
  if◌then◌else◌, length,
}
use tiny_http_server.Prelude.Result.{Result, ok, fail, ◌>>=◌, ◌>>◌, check, assertion, blocked}

abbrev pub Conn : Type 0
Conn = Option ℕ

-- `sem` is the value of `sem_id_`; the two counters that nothing reads are left out.
pub record SqlPool : Type 0 where
  pub conn_que : List Conn
  pub sem : ℕ
  pub max_conn : ℕ

-- The constructor; the semaphore is not in use before `init`.
abbrev pub fresh : SqlPool
fresh = record { conn_que = []; sem = 0; max_conn = 0 }

abbrev pub is_null : Conn → Bool
is_null none = true
is_null (some c) = false

abbrev pub not_null : Conn → Bool
not_null none = false
not_null (some c) = true

-- The loop of `init`, given what `mysql_init` and `mysql_real_connect` return in each round. A
-- connection that could not be made is queued as well.
unfoldable pub connect_all : List (Conn × Conn) → List Conn → Result (List Conn)
connect_all [] que = ok que
connect_all ((handle, sql) ∷ rest) que =
    check (not_null handle) assertion >> connect_all rest (que ++ sql ∷ [])

unfoldable pub init : List (Conn × Conn) → SqlPool → Result SqlPool
unfolding connect_all
init conns p = do
  check (ltb 0 (length conns)) assertion
  que ← connect_all conns p.conn_que
  ok (record { conn_que = que; sem = length conns; max_conn = length conns })

-- `sem_wait`, `front` and `pop`, once the queue has been seen not to be empty.
unfoldable pub take_conn : ℕ → Conn → List Conn → SqlPool → Result (Conn × SqlPool)
take_conn zero sql rest p = fail blocked
take_conn (suc n) sql rest p = ok (sql, record p { conn_que = rest; sem = n })

unfoldable pub get_conn : SqlPool → Result (Conn × SqlPool)
unfolding take_conn
get_conn p = elim p.conn_que [ [] ↦ ok (none, p) | sql ∷ rest ↦ take_conn p.sem sql rest p ]

unfoldable pub free_conn : Conn → SqlPool → Result SqlPool
free_conn sql p = do
  check (not_null sql) assertion
  ok (record p { conn_que = p.conn_que ++ sql ∷ []; sem = p.sem + 1 })

-- What `mysql_close` is called on, in order, and the pool after it.
unfoldable pub close_pool : SqlPool → List Conn × SqlPool
close_pool p = (p.conn_que, record p { conn_que = [] })

unfoldable pub get_free_conn_count : SqlPool → ℕ
get_free_conn_count p = length p.conn_que

-- `SqlConnRAII`: the constructor, and the destructor, which returns the connection.
unfoldable pub acquire : SqlPool → Result (Conn × SqlPool)
unfolding get_conn
acquire p = get_conn p

unfoldable pub release : Conn → SqlPool → Result SqlPool
unfolding free_conn
release none p = ok p
release (some c) p = free_conn (some c) p
