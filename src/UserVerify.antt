-- ===== src/UserVerify.antt =====
-- `HttpRequest::UserVerify` of src/http/httprequest.cc: a login or a registration against the
-- database. The MySQL client library is a parameter: what a query does to the database, and the
-- rows that it returns.
pub mod Verdict
pub mod Leak
mod Tests
use Prim.Native.Nat.{ℕ}
use tiny_http_server.Prelude.{
  zero, suc, ◌+◌, Bool, true, false, List, [], ◌∷◌, ◌++◌, Option, none, some, ◌==◌, if◌then◌else◌,
  ◌||◌, ◌&&◌, not, codes, bytes_eq, take,
}
use tiny_http_server.Prelude.Result.{Result, ok, fail, ◌>>=◌, ◌>>◌, check, assertion}
use tiny_http_server.Prelude.Map.{Bytes}
use tiny_http_server.SqlPool.{SqlPool, Conn, not_null, acquire, release, free_conn}

-- What `mysql_query` gives: an error, or the rows with their user name and password.
pub data Answer : Type 0 where
  refused : Answer
  rows : List (Bytes × Bytes) → Answer

pub record Database : Type 1 where
  pub State : Type 0
  pub query : Conn → Bytes → State → State × Answer

-- `c_str()` as `printf` reads it: up to the first zero byte.
unfoldable pub c_str : Bytes → Bytes
c_str [] = []
c_str (c ∷ cs) = if c == 0 then [] else c ∷ c_str cs

-- `snprintf(order, 256, …)`
abbrev pub order : Bytes → Bytes
order text = take 255 text

unfoldable pub select_order : Bytes → Bytes
unfolding c_str
select_order name = order (
    codes "SELECT username, password FROM user WHERE username='"
    ++ (c_str name ++ codes "' LIMIT 1"))

unfoldable pub insert_order : Bytes → Bytes → Bytes
unfolding c_str
insert_order name pwd = order (
    codes "INSERT INTO user(username, password) VALUES('"
    ++ (c_str name ++ (codes "','" ++ (c_str pwd ++ codes "')"))))

-- The loop over the rows: `flag` is set by the last one.
unfoldable pub check_rows : Bool → Bytes → List (Bytes × Bytes) → Bool → Bool
check_rows is_login pwd [] flag = flag
check_rows is_login pwd ((user, password) ∷ rest) flag =
    check_rows is_login pwd rest (if is_login then bytes_eq pwd password else false)

module _ (db : Database) where
  pub record World : Type 0 where
    pub pool : SqlPool
    pub store : db.State

  -- The registration; an insertion that is refused does not change the result.
  unfoldable pub register : Conn → Bytes → Bytes → World → World
  register sql name pwd w = record w { store = (db.query sql (insert_order name pwd) w.store).0 }

  -- What follows the first query.
  unfoldable pub verify_rows :
      Conn → Bytes → Bytes → Bool → List (Bytes × Bytes) → World → Result (Bool × World)
  unfolding register
  verify_rows sql name pwd is_login found w = do
    let flag = check_rows is_login pwd found (not is_login)
    let fresh_name = not is_login && flag
    let w' = if fresh_name then register sql name pwd w else w
    pool ← free_conn sql w'.pool
    ok (if fresh_name then true else flag, record w' { pool = pool })

  unfoldable pub verify_answer :
      Conn → Bytes → Bytes → Bool → World → db.State × Answer → Result (Bool × World)
  verify_answer sql name pwd is_login w (store, refused) = ok (false, record w { store = store })
  verify_answer sql name pwd is_login w (store, rows found) =
      verify_rows sql name pwd is_login found (record w { store = store })

  -- `SqlConnRAII(&sql, …)` is a temporary: it returns the connection at the end of its statement.
  unfoldable pub user_verify : Bytes → Bytes → Bool → World → Result (Bool × World)
  user_verify name pwd is_login w =
      if bytes_eq name [] || bytes_eq pwd [] then ok (false, w) else (do
        r ← acquire w.pool
        pool ← release r.0 r.1
        check (not_null r.0) assertion
        verify_answer r.0 name pwd is_login (record w { pool = pool })
            (db.query r.0 (select_order name) w.store))
