-- ===== src/UserVerify/Leak.antt =====
-- What `UserVerify` does to the pool: the temporary `SqlConnRAII` and the last `FreeConn` both
-- return the connection.
use Prim.Native.Nat.{ℕ}
use tiny_http_server.Prelude.{
  ◌+◌, ◌≡◌, ◌∙◌, Bool, false, List, [], ◌∷◌, ◌++◌, some, refl, arith, ◌||◌, bytes_eq, Bool-cases,
  inl, inr, not, ◌&&◌, length, length-append, ap, append_assoc,
}
use tiny_http_server.Prelude.Result.{Returns}
use tiny_http_server.Prelude.Map.{Bytes}
use tiny_http_server.SqlPool.{Conn, free_conn, get_free_conn_count}
use tiny_http_server.UserVerify.{Database, World, verify_rows, user_verify, register, check_rows}
use tiny_http_server.UserVerify.Verdict.{Answers, user_verify-verify_rows, looked_up}

verify_rows-pool :
    (db : Database) (c : ℕ) (name pwd : Bytes) (is_login : Bool) (found : List (Bytes × Bytes))
    (w : World db)
    → Returns
        (verify_rows db (some c) name pwd is_login found w)
        (λ r. r.1.pool.conn_que ≡ w.pool.conn_que ++ some c ∷ [])
unfolding verify_rows free_conn register
verify_rows-pool db c name pwd is_login found w =
    elim (Bool-cases (not is_login && check_rows is_login pwd found (not is_login))) [
      | inl e ↦ (_, refl, rw (e) refl)
      | inr e ↦ (_, refl, rw (e) refl)
    ]

-- Each verification whose query is answered leaves its connection in the pool twice, so that two
-- threads can be given the same one, and the count of idle connections grows by one.
pub user_verify_returns_twice :
    (db : Database) (w : World db) (name pwd : Bytes) (c n : ℕ) (rest : List Conn)
    (found : List (Bytes × Bytes)) (st : db.State) (is_login : Bool)
    → Answers db w name c n rest found st
    → (bytes_eq name [] || bytes_eq pwd []) ≡ false
    → Returns (user_verify db name pwd is_login w) (λ r.
      (r.1.pool.conn_que ≡ rest ++ some c ∷ some c ∷ [])
      × (get_free_conn_count r.1.pool ≡ get_free_conn_count w.pool + 1))
unfolding get_free_conn_count
user_verify_returns_twice db w name pwd c n rest found st is_login a given =
    let (r, e, p) =
      verify_rows-pool db c name pwd is_login found
        (looked_up db w name pwd c n rest found st a given) in
    let q : r.1.pool.conn_que ≡ rest ++ some c ∷ some c ∷ [] =
      p ∙ append_assoc rest (some c ∷ []) (some c ∷ []) in
    (
      r,
      user_verify-verify_rows db w name pwd c n rest found st a given is_login ∙ e,
      (q, omega (arith, ap length q, ap length a.queue, length-append rest (some c ∷ some c ∷ []))),
    )
