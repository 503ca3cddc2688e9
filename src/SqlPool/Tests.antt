-- ===== src/SqlPool/Tests.antt =====
-- A pool of two connections.
use tiny_http_server.Prelude.{◌≡◌, refl, List, [], ◌∷◌, none, some}
use tiny_http_server.Prelude.Result.{ok}
use tiny_http_server.SqlPool.{SqlPool, Conn, fresh, init, get_conn, free_conn}
use tiny_http_server.SqlPool.Fifo.{Call, get, free, run, run_fifo, pool_refines}
use tiny_http_server.SqlPool.Interleaving.{
  Shared, Reach, here, next, look, wait, take, start, IsSafe, Reach-IsSafe,
}

abbrev handles : List (Conn × Conn)
handles = (some 1, some 11) ∷ (some 2, some 12) ∷ []

abbrev pair : SqlPool
pair = record { conn_que = some 11 ∷ some 12 ∷ []; sem = 2; max_conn = 2 }

abbrev calls : List Call
calls = get ∷ get ∷ get ∷ free (some 12) ∷ get ∷ []

inits : init handles fresh ≡ ok pair
unfolding init
inits = refl

runs : run pair calls ≡ ok (some 11 ∷ some 12 ∷ none ∷ some 12 ∷ [])
unfolding run get_conn free_conn
runs = refl

pool_refines_example : run pair calls ≡ run_fifo (some 11 ∷ some 12 ∷ []) calls
pool_refines_example = pool_refines calls pair refl

-- a thread that looks, waits and takes
abbrev taken : Shared
taken = record (start pair) { queue = some 12 ∷ []; sem = 1 }

takes : Reach (start pair) taken
takes =
    next (next (next here (look (λ e. cc))) (wait 1 0 refl refl))
      (take 0 (some 11) (some 12 ∷ []) refl refl refl)

Reach-IsSafe_example : IsSafe taken
Reach-IsSafe_example = Reach-IsSafe pair refl takes
