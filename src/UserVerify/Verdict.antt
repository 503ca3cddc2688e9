-- ===== src/UserVerify/Verdict.antt =====
-- What `UserVerify` answers once it has a connection and the query has rows.
use Prim.Native.Nat.{ℕ}
use tiny_http_server.Prelude.{
  suc, ◌+◌, ◌≤◌, ◌≡◌, ◌↔◌, ◌∙◌, ap, sym, length, bytes_eq_sound, bytes_eq_iff, Bool, true, false,
  List, [], ◌∷◌, ◌++◌, some, refl, arith, ◌||◌, bytes_eq,
}
use mathlib.Core.Bool.{false≢true}
use tiny_http_server.Prelude.Result.{ok, Returns}
use tiny_http_server.Prelude.Map.{Bytes}
use tiny_http_server.SqlPool.{Conn, free_conn}
use tiny_http_server.SqlPool.Fifo.{acquire-some, release-some}
use tiny_http_server.UserVerify.{
  Database, World, rows, select_order, insert_order, check_rows, register, verify_rows, user_verify,
  verify_answer,
}

-- A world whose pool offers connection `c` first, where the look-up of `name` is answered with
-- `found` and leaves the database in `st`.
pub record Answers (db : Database) (w : World db) (name : Bytes) (c n : ℕ) (rest : List Conn)
    (found : List (Bytes × Bytes)) (st : db.State) : Type 0 where
  pub queue : w.pool.conn_que ≡ some c ∷ rest
  pub free : w.pool.sem ≡ suc n
  pub reply : db.query (some c) (select_order name) w.store ≡ (st, rows found)

module _ (db : Database) (w : World db) (name pwd : Bytes) (c n : ℕ) (rest : List Conn)
    (found : List (Bytes × Bytes)) (st : db.State) (a : Answers db w name c n rest found st)
    (given : (bytes_eq name [] || bytes_eq pwd []) ≡ false) where
  -- the world in which the rows are looked at: the temporary has returned the connection
  abbrev pub looked_up : World db
  looked_up = record {
    pool = record w.pool { conn_que = rest ++ some c ∷ []; sem = n + 1 };
    store = st;
  }

  pub user_verify-verify_rows :
      (is_login : Bool)
      → user_verify db name pwd is_login w
        ≡ verify_rows db (some c) name pwd is_login found looked_up
  unfolding user_verify verify_answer
  user_verify-verify_rows is_login =
      rw
        (
          given,
          acquire-some w.pool (some c) rest n a.queue a.free,
          release-some (record w.pool { conn_que = rest; sem = n }) c,
          a.reply,
        )
        refl

verify_rows-login :
    (db : Database) (c : ℕ) (name pwd : Bytes) (found : List (Bytes × Bytes)) (w : World db)
    → verify_rows db (some c) name pwd true found w
      ≡ ok (
        check_rows true pwd found false,
        record w {
          pool = record w.pool { conn_que = w.pool.conn_que ++ some c ∷ []; sem = w.pool.sem + 1 };
        },
      )
unfolding verify_rows free_conn
verify_rows-login db c name pwd found w = refl

check_rows-login :
    (pwd : Bytes) (found : List (Bytes × Bytes))
    → length found ≤ 1
    → (check_rows true pwd found false ≡ true) ↔ ((user : Bytes) × (found ≡ (user, pwd) ∷ []))
unfolding check_rows
check_rows-login pwd [] h = (λ e. absurd (false≢true e), λ (u, e). cc)
check_rows-login pwd ((user, password) ∷ []) h = (
  λ e. (user, ap (λ t. (user, t) ∷ []) (sym (bytes_eq_sound pwd password e))),
  λ (u, e). ground (arith, bytes_eq_iff pwd password),
)
check_rows-login pwd (r ∷ r' ∷ found) h = absurd (omega arith)

-- A login succeeds exactly if the row that was found, one at most, holds the password; it does not
-- write to the database.
pub login_iff :
    (db : Database) (w : World db) (name pwd : Bytes) (c n : ℕ) (rest : List Conn)
    (found : List (Bytes × Bytes)) (st : db.State)
    → Answers db w name c n rest found st
    → (bytes_eq name [] || bytes_eq pwd []) ≡ false
    → length found ≤ 1
    → Returns
        (user_verify db name pwd true w)
        (λ r. ((r.0 ≡ true) ↔ ((user : Bytes) × (found ≡ (user, pwd) ∷ []))) × (r.1.store ≡ st))
login_iff db w name pwd c n rest found st a given h = (
  _,
  user_verify-verify_rows db w name pwd c n rest found st a given true
      ∙ verify_rows-login db c name pwd found (looked_up db w name pwd c n rest found st a given),
  (check_rows-login pwd found h, refl),
)

-- what a registration leaves of the database: an insertion if no row was found
abbrev pub inserted :
    (db : Database) → Conn → Bytes → Bytes → List (Bytes × Bytes) → db.State → db.State
inserted db sql name pwd [] st = (db.query sql (insert_order name pwd) st).0
inserted db sql name pwd (r ∷ found) st = st

verify_rows-register :
    (db : Database) (c : ℕ) (name pwd : Bytes) (found : List (Bytes × Bytes)) (w : World db)
    → length found ≤ 1
    → Returns (verify_rows db (some c) name pwd false found w) (λ r.
      ((r.0 ≡ true) ↔ (found ≡ [])) × (r.1.store ≡ inserted db (some c) name pwd found w.store))
unfolding verify_rows free_conn check_rows register
verify_rows-register db c name pwd [] w h = (_, refl, ((λ e. refl, λ e. refl), refl))
verify_rows-register db c name pwd (r ∷ []) w h =
    (_, refl, ((λ e. absurd (false≢true e), λ e. cc), refl))
verify_rows-register db c name pwd (r ∷ r' ∷ found) w h = absurd (omega arith)

-- A registration succeeds exactly if no row was found; it then sends the insertion, and succeeds
-- whatever the database answers to that.
pub register_iff :
    (db : Database) (w : World db) (name pwd : Bytes) (c n : ℕ) (rest : List Conn)
    (found : List (Bytes × Bytes)) (st : db.State)
    → Answers db w name c n rest found st
    → (bytes_eq name [] || bytes_eq pwd []) ≡ false
    → length found ≤ 1
    → Returns
        (user_verify db name pwd false w)
        (λ r. ((r.0 ≡ true) ↔ (found ≡ [])) × (r.1.store ≡ inserted db (some c) name pwd found st))
register_iff db w name pwd c n rest found st a given h =
    let (r, e, p) =
      verify_rows-register db c name pwd found (looked_up db w name pwd c n rest found st a given)
        h in
    (r, user_verify-verify_rows db w name pwd c n rest found st a given false ∙ e, p)
