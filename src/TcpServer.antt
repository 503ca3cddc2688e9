-- ===== src/TcpServer.antt =====
-- `TcpServer` of src/server/tcpserver.h and src/server/tcpserver.cc: the names and the loops that new
-- connections get, and the map in which they are kept until they are removed.
pub mod Spec
pub mod Names
pub mod Count
pub mod Refine
pub mod Whole
pub mod Times
pub mod Fits
pub mod Worked
pub mod Removed
pub mod Came
pub mod Kept
mod Tests
use Prim.Native.Nat.{ℕ, ◌+◌}
use tiny_http_server.Prelude.{
  Bool, true, false, ◌||◌, ◌&&◌, List, [], ◌∷◌, ◌++◌, map, if◌then◌else◌, ◌==◌, ltb, codes,
  bytes_eq,
}
use tiny_http_server.Prelude.Result.{Result, ok, fail, ◌>>=◌, ◌>>◌, check, assertion, overflow}
use tiny_http_server.Prelude.Map.{Bytes}
use tiny_http_server.Prelude.Digits.{to_string}
use tiny_http_server.LoopPool.{LoopPool, get_loop}
use tiny_http_server.LoopPool as LoopPool

-- What the server gives a new `TcpConnection`.
pub record Connection : Type 0 where
  pub name : Bytes
  pub loop : ℕ
  pub sockfd : ℕ

-- `build_connect` and `destroy_connect`, each for the loop of its connection.
pub data Job {ℓ} (C : Type ℓ) : Type ℓ where
  builds destroys : C → Job C

-- `connection` lists the entries of the map `connection_`, whose own order is that of the names; the
-- order of the list has no meaning, and `by_name` gives that of the map. `posted` lists the jobs that
-- were given to `run_in_loop`.
pub record TcpServer : Type 0 where
  pub ip_port : Bytes
  pub name : Bytes
  pub thread_pool : LoopPool
  pub next_id : ℕ
  pub connection : List (Bytes × Connection)
  pub posted : List (Job Connection)

abbrev pub make : Bytes → Bytes → LoopPool → TcpServer
make ip_port name thread_pool = record {
  ip_port = ip_port;
  name = name;
  thread_pool = thread_pool;
  next_id = 1;
  connection = [];
  posted = [];
}

-- `start`, with whether `thread_init_cb_` is set; what listening does is left to the acceptor.
unfoldable pub start : Bool → (ℕ → ℕ) → TcpServer → Result TcpServer
start cb loop_of s = do
  pool ← LoopPool.start cb loop_of s.thread_pool
  ok (record s { thread_pool = pool })

-- `connection_[name] = conn`
unfoldable pub assign : Bytes → Connection → List (Bytes × Connection) → List (Bytes × Connection)
assign k c [] = (k, c) ∷ []
assign k c ((j, d) ∷ m) =
    let rest = assign k c m in if bytes_eq j k then (j, c) ∷ m else (j, d) ∷ rest

-- `connection_.erase(name)`: how many entries it took away, and those that are left
unfoldable pub erase : Bytes → List (Bytes × Connection) → ℕ × List (Bytes × Connection)
erase k [] = (0, [])
erase k ((j, d) ∷ m) =
    let rest = erase k m in if bytes_eq j k then (1, m) else (rest.0, (j, d) ∷ rest.1)

abbrev pub conn_name : Bytes → Bytes → ℕ → Bytes
conn_name name ip_port id = name ++ (codes "-" ++ (ip_port ++ (codes "#" ++ to_string id)))

-- the connection that the server makes with what `get_loop` returned
abbrev pub keep : ℕ → ℕ × LoopPool → TcpServer → TcpServer
keep sockfd r s =
    let conn : Connection = record {
      name = conn_name s.name s.ip_port s.next_id;
      loop = r.0;
      sockfd = sockfd;
    } in
    record s {
      thread_pool = r.1;
      next_id = s.next_id + 1;
      connection = assign conn.name conn s.connection;
      posted = s.posted ++ builds conn ∷ [];
    }

-- `next_id` is an `int`.
unfoldable pub new_connection : ℕ → TcpServer → Result TcpServer
unfolding get_loop
new_connection sockfd s = do
  r ← get_loop s.thread_pool
  check (ltb s.next_id 2147483647) overflow
  ok (keep sockfd r s)

-- what is left after `erase`
abbrev pub drop_conn : Connection → List (Bytes × Connection) → TcpServer → TcpServer
drop_conn conn left s = record s { connection = left; posted = s.posted ++ destroys conn ∷ [] }

unfoldable pub remove_connection_in_loop : Connection → TcpServer → Result TcpServer
unfolding erase
remove_connection_in_loop conn s = do
  let r = erase conn.name s.connection
  check (r.0 == 1) assertion
  ok (drop_conn conn r.1 s)

-- `operator<` of strings, by which the map is ordered
unfoldable pub bytes_less : Bytes → Bytes → Bool
bytes_less [] [] = false
bytes_less [] (b ∷ bs) = true
bytes_less (a ∷ more) [] = false
bytes_less (a ∷ more) (b ∷ bs) = let rest = bytes_less more bs in ltb a b || ((a == b) && rest)

-- a list of entries in the order of their names, and with a further entry
unfoldable pub place : Bytes × Connection → List (Bytes × Connection) → List (Bytes × Connection)
unfolding bytes_less
place e [] = e ∷ []
place e (f ∷ m) = let rest = place e m in if bytes_less f.0 e.0 then f ∷ rest else e ∷ f ∷ m

unfoldable pub by_name : List (Bytes × Connection) → List (Bytes × Connection)
unfolding place
by_name [] = []
by_name (e ∷ m) = place e (by_name m)

-- The destructor goes through the map in the order of the names.
unfoldable pub destroy : TcpServer → TcpServer
unfolding by_name
destroy s = record s { posted = s.posted ++ map (λ entry. destroys entry.1) (by_name s.connection) }

-- What the loop of the server does: it takes a new connection, or it removes one.
pub data Event {ℓ} (C : Type ℓ) : Type ℓ where
  accepts : ℕ → Event C
  removes : C → Event C

abbrev pub step : Event Connection → TcpServer → Result TcpServer
step (accepts sockfd) s = new_connection sockfd s
step (removes conn) s = remove_connection_in_loop conn s

unfoldable pub run : List (Event Connection) → TcpServer → Result TcpServer
unfolding new_connection remove_connection_in_loop
run [] s = ok s
run (e ∷ es) s = do s' ← step e s; run es s'
