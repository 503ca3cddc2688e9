-- ===== src/UserVerify/Tests.antt =====
-- A database whose state is the orders that it was sent, and that knows one user, mary.
use tiny_http_server.Prelude.{
  ◌≡◌, ◌↔◌, refl, ◌+◌, List, [], ◌∷◌, some, true, false, arith, codes, bytes_eq, if◌then◌else◌,
}
use tiny_http_server.Prelude.Result.{Returns}
use tiny_http_server.Prelude.Map.{Bytes}
use tiny_http_server.SqlPool.{get_free_conn_count}
use tiny_http_server.UserVerify.{Database, World, Answer, rows, select_order, c_str, user_verify}
use tiny_http_server.UserVerify.Verdict.{Answers, login_iff, register_iff, inserted}
use tiny_http_server.UserVerify.Leak.{user_verify_returns_twice}

abbrev mary : List (Bytes × Bytes)
mary = (codes "mary", codes "pw") ∷ []

abbrev no_rows : List (Bytes × Bytes)
no_rows = []

unfoldable reply : Bytes → Answer
unfolding select_order c_str
reply sent = rows (if bytes_eq sent (select_order (codes "mary")) then mary else [])

abbrev db : Database
db = record { State = List Bytes; query = λ sql sent st. (sent ∷ st, reply sent) }

abbrev world : World db
world = record {
  pool = record { conn_que = some 1 ∷ some 2 ∷ []; sem = 2; max_conn = 2 };
  store = [];
}

asks_mary :
    Answers db world (codes "mary") 1 1 (some 2 ∷ []) mary (select_order (codes "mary") ∷ [])
unfolding reply select_order c_str
asks_mary = record { queue = refl; free = refl; reply = refl }

asks_john :
    Answers db world (codes "john") 1 1 (some 2 ∷ []) no_rows (select_order (codes "john") ∷ [])
unfolding reply select_order c_str
asks_john = record { queue = refl; free = refl; reply = refl }

login_iff_example : Returns (user_verify db (codes "mary") (codes "pw") true world) (λ r.
    ((r.0 ≡ true) ↔ ((user : Bytes) × (mary ≡ (user, codes "pw") ∷ [])))
    × (r.1.store ≡ select_order (codes "mary") ∷ []))
login_iff_example =
    login_iff db world (codes "mary") (codes "pw") 1 1 (some 2 ∷ []) mary
      (select_order (codes "mary") ∷ []) asks_mary refl (omega arith)

register_iff_example : Returns (user_verify db (codes "john") (codes "x") false world) (λ r.
    ((r.0 ≡ true) ↔ (no_rows ≡ []))
    × (r.1.store
        ≡ inserted db
            (some 1)
            (codes "john")
            (codes "x")
            no_rows
            (select_order (codes "john") ∷ [])))
register_iff_example =
    register_iff db world (codes "john") (codes "x") 1 1 (some 2 ∷ []) no_rows
      (select_order (codes "john") ∷ []) asks_john refl (omega arith)

user_verify_returns_twice_example :
    Returns (user_verify db (codes "mary") (codes "pw") true world) (λ r.
      (r.1.pool.conn_que ≡ some 2 ∷ some 1 ∷ some 1 ∷ [])
      × (get_free_conn_count r.1.pool ≡ get_free_conn_count world.pool + 1))
user_verify_returns_twice_example =
    user_verify_returns_twice db world (codes "mary") (codes "pw") 1 1 (some 2 ∷ []) mary
      (select_order (codes "mary") ∷ []) true asks_mary refl
