-- ===== src/HttpServer.antt =====
-- `HttpServer` of src/httpserver.h and src/httpserver.cc with `Entry` of src/server/entry.h: what is
-- done on a message, and the buckets by which idle connections are shut down.
pub mod Idle
pub mod Serve
mod Tests
use Prim.Native.Nat.{ℕ}
use tiny_http_server.Prelude.{
  ◌≡◌, Bool, true, false, List, [], ◌∷◌, ◌++◌, has, if◌then◌else◌, ◌||◌, ◌==◌, not,
}
use tiny_http_server.Prelude.Result.{Result, ok, ◌>>=◌}
use tiny_http_server.Prelude.Map.{Bytes}
use tiny_http_server.Buffer.{Buffer, Transfer, read_able_bytes, peek_string, retrieve_all}
use tiny_http_server.UserVerify.{Database, World}
use tiny_http_server.HttpResponse.{FileSystem}
use tiny_http_server.HttpContext.{HttpContext, read}
use tiny_http_server.TcpConnection.{TcpConnection, send_buffer}

-- A bucket holds entries, each a number; an entry lives while a bucket holds it.
abbrev pub Bucket : Type 0
Bucket = List ℕ

-- `connection_list_`, a circular buffer of three buckets, always full. `gone` lists the entries
-- whose connection has been destroyed, and `shut` those whose destructor has called `shutdown`.
pub record Buckets : Type 0 where
  pub oldest : Bucket
  pub middle : Bucket
  pub back : Bucket
  pub gone : List ℕ
  pub shut : List ℕ

abbrev pub empty : Buckets
empty = record { oldest = []; middle = []; back = []; gone = []; shut = [] }

-- `connection_list_.back().insert(entry)`
abbrev pub insert_back : ℕ → Buckets → Buckets
insert_back e s = if has e s.back then s else record s { back = e ∷ s.back }

-- `weakEntry.lock()`
unfoldable pub is_alive : ℕ → Buckets → Bool
is_alive e s = has e s.oldest || (has e s.middle || has e s.back)

-- `connection_cb` of a connection that is up, with its new entry
unfoldable pub connection_cb : ℕ → Buckets → Buckets
connection_cb e s = insert_back e s

-- The entries of a bucket that no other bucket holds are destroyed; the destructor finds the
-- connection by `weakConn_.lock()`, unless that has been destroyed before.
unfoldable pub last_owned : Bucket → Buckets → List ℕ
last_owned [] s = []
last_owned (e ∷ es) s =
    let rest = last_owned es s in if is_alive e s || has e s.gone then rest else e ∷ rest

-- `push_back(Bucket())` overwrites the oldest bucket, and its entries are let go.
unfoldable pub ontime : Buckets → Buckets
ontime s =
    let s' : Buckets = record s { oldest = s.middle; middle = s.back; back = [] } in
    record s' { shut = s.shut ++ last_owned s.oldest s' }

-- The part of `message_cb` that keeps the entry.
unfoldable pub touch : ℕ → Buckets → Buckets
touch e s = if is_alive e s then insert_back e s else s

-- What happens to the buckets and to the connections of their entries, in order; a connection is
-- destroyed once the server has let it go.
pub data Event : Type 0 where
  connects messages expires : ℕ → Event
  ticks : Event

abbrev pub step : Buckets → Event → Buckets
step s (connects e) = connection_cb e s
step s (messages e) = touch e s
step s (expires e) = record s { gone = e ∷ s.gone }
step s ticks = ontime s

unfoldable pub run : Buckets → List Event → Buckets
run s [] = s
run s (x ∷ xs) = run (step s x) xs

-- What `message_cb` leaves: the buckets, the connection, its context, the input buffer and the world.
pub record Served (db : Database) : Type 0 where
  pub buckets : Buckets
  pub conn : TcpConnection
  pub context : HttpContext
  pub buff : Buffer
  pub world : World db

module _ (db : Database) (files : FileSystem) (src_dir : Bytes) where
  -- `message_cb`; `taken` is what the kernel takes of the answer.
  unfoldable pub message_cb : ℕ → Transfer ℕ → Served db → Result (Served db)
  message_cb e taken s =
      if is_alive e s.buckets
      then (do
        r ← read db files src_dir s.context s.buff s.world
        sent ← send_buffer s.conn r.1.write_buff taken
        ok (record {
          buckets = touch e s.buckets;
          conn = sent.0;
          context = record r.1 { write_buff = sent.1 };
          buff = r.2;
          world = r.3;
        }))
      else ok s
