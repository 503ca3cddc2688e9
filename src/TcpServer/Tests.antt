-- ===== src/TcpServer/Tests.antt =====
-- A server on two threads, with two connections, of which the first is removed.
use mathlib.Core.List.{Perm}
use tiny_http_server.Prelude.{
  ℕ, inr, ◌≡◌, ◌+◌, ◌-◌, refl, replicate, true, false, ◌++◌, List, [], ◌∷◌, map, codes, arith, some,
}
use tiny_http_server.Prelude.Digits.{digits}
use tiny_http_server.Prelude.Result.{ok, ◌>>=◌, Returns}
use tiny_http_server.LoopPool as LoopPool
use tiny_http_server.LoopPool.Start.{loop_due}
use tiny_http_server.Buffer.{Buffer, done}
use tiny_http_server.Channel.{Revents, add, del}
use tiny_http_server.TcpConnection.{TcpConnection, connected, disconnected, connection_cb, close_cb}
use tiny_http_server.TcpConnection.Ops.{Io, fresh, dispatches, builds as builds_it}
use tiny_http_server.TcpConnection.Calls.{closed}
use tiny_http_server.TcpServer.Whole.{Act, comes, works, removes_next, Whole, act_all, act, made}
use tiny_http_server.TcpServer.Kept.{serve, removal_succeeds, kept_open}
use tiny_http_server.LoopPool.{LoopPool, get_loop}
use tiny_http_server.TcpServer.{
  new_connection, erase, remove_connection_in_loop, Connection, Event, accepts, removes, builds,
  destroys, make, start, run, by_name, place, bytes_less,
}
use tiny_http_server.TcpServer.Names.{conn_of}
use tiny_http_server.TcpServer.Spec.{Open, Spec, nothing, remove, spec_run}
use tiny_http_server.TcpServer.Refine.{map_event, map_job, server_refines}

abbrev first : Open
first = record { index = 0; sockfd = 9 }

abbrev second : Open
second = record { index = 1; sockfd = 10 }

abbrev events : List (Event Open)
events = accepts 9 ∷ accepts 10 ∷ removes first ∷ []

abbrev one_left : Spec
one_left = record {
  count = 2;
  opened = second ∷ [];
  posted = builds first ∷ builds second ∷ destroys first ∷ [];
}

abbrev thread_loop : ℕ → ℕ
thread_loop i = i + 7

spec_runs : spec_run events nothing ≡ some one_left
unfolding spec_run remove
spec_runs = refl

abbrev connection : Open → Connection
connection = conn_of (codes "0.0.0.0:80") (codes "web") (loop_due 3 2 thread_loop)

second_named : connection second ≡ record { name = codes "web-0.0.0.0:80#2"; loop = 8; sockfd = 10 }
unfolding digits
second_named = refl

server_refines_example :
    Returns
      (start false thread_loop (make (codes "0.0.0.0:80") (codes "web") (LoopPool.make 3 2))
        >>= run (map (map_event connection) events))
      (λ s.
        Perm s.connection (map (λ o. ((connection o).name, connection o)) (second ∷ []))
        × (s.posted ≡ map (map_job connection) one_left.posted))
server_refines_example =
    server_refines (codes "0.0.0.0:80") (codes "web") false 3 2 thread_loop (inr (omega arith))
      events one_left spec_runs (omega arith)

-- The destructor takes connection 10 before connection 2.
tenth_first :
    map
      (λ e. e.1.sockfd)
      (by_name ((codes "#2", connection first) ∷ (codes "#10", connection second) ∷ []))
    ≡ 10 ∷ 9 ∷ []
unfolding by_name place bytes_less
tenth_first = refl

-- Two connections, the second of which comes to its end.
abbrev quiet : Revents
quiet = record {
  pollin = true;
  pollpri = false;
  pollout = false;
  pollerr = false;
  pollhup = false;
  pollnval = false;
  pollrdhup = false;
}

abbrev at_end : Io
at_end = record { received = done []; taken = done 0 }

abbrev some_acts : List Act
some_acts =
    comes 9
    ∷ comes 10
    ∷ works 0 builds_it
    ∷ works 1 builds_it
    ∷ works 1 (dispatches at_end quiet)
    ∷ []

abbrev new_buffer : Buffer
new_buffer = record { bytes = replicate 1032 0; reader_index = 8; writer_index = 8 }

abbrev running : TcpConnection
running = record (fresh new_buffer new_buffer) {
  status = connected;
  events = record { reading = true; writing = false };
  tag = add;
  calls = connection_cb ∷ [];
}

abbrev ended : TcpConnection
ended = record (fresh new_buffer new_buffer) {
  status = disconnected;
  tag = del;
  calls = connection_cb ∷ connection_cb ∷ close_cb ∷ [];
}

abbrev pool : LoopPool
pool = record {
  base_loop = 3;
  num_threads = 2;
  started = true;
  next = 0;
  loops = 7 ∷ 8 ∷ [];
  inited = [];
}

abbrev both_kept : Whole
both_kept = record {
  server = record {
    ip_port = codes "0.0.0.0:80";
    name = codes "web";
    thread_pool = pool;
    next_id = 3;
    connection =
        ((connection first).name, connection first)
        ∷ ((connection second).name, connection second)
        ∷ [];
    posted = builds (connection first) ∷ builds (connection second) ∷ [];
  };
  objects =
      record { conn = connection first; state = running }
      ∷ record { conn = connection second; state = ended }
      ∷ [];
  removing = connection second ∷ [];
}

both_kept_runs :
    serve (codes "0.0.0.0:80") (codes "web") false 3 2 thread_loop some_acts ≡ ok both_kept
unfolding start act_all act made new_connection get_loop digits LoopPool.start
    LoopPool.start_threads tiny_http_server.Buffer.make tiny_http_server.TcpConnection.build_connect
    tiny_http_server.TcpConnection.Ops.dispatch tiny_http_server.Channel.handle_event_guard
    tiny_http_server.TcpConnection.handle_read tiny_http_server.TcpConnection.handle_close
    tiny_http_server.Channel.is_none_event tiny_http_server.TcpServer.assign
both_kept_runs = refl

removal_succeeds_example :
    Returns
      (remove_connection_in_loop (connection second) both_kept.server)
      (λ s. s.posted ≡ both_kept.server.posted ++ destroys (connection second) ∷ [])
removal_succeeds_example =
    removal_succeeds (codes "0.0.0.0:80") (codes "web") false 3 2 thread_loop some_acts both_kept
      (connection second) [] both_kept_runs refl

-- The same, with the removal done.
abbrev one_kept : Whole
one_kept = record both_kept {
  server = record both_kept.server {
    connection = ((connection first).name, connection first) ∷ [];
    posted =
        builds (connection first) ∷ builds (connection second) ∷ destroys (connection second) ∷ [];
  };
  removing = [];
}

one_kept_runs :
    serve (codes "0.0.0.0:80") (codes "web") false 3 2 thread_loop (some_acts ++ removes_next ∷ [])
    ≡ ok one_kept
unfolding start act_all act made new_connection get_loop digits LoopPool.start
    LoopPool.start_threads tiny_http_server.Buffer.make tiny_http_server.TcpConnection.build_connect
    tiny_http_server.TcpConnection.Ops.dispatch tiny_http_server.Channel.handle_event_guard
    tiny_http_server.TcpConnection.handle_read tiny_http_server.TcpConnection.handle_close
    tiny_http_server.Channel.is_none_event tiny_http_server.TcpServer.assign
    remove_connection_in_loop erase
one_kept_runs = refl

kept_open_example :
    (erase (connection second).name one_kept.server.connection).0 ≡ 1 - closed ended.status
kept_open_example =
    kept_open (codes "0.0.0.0:80") (codes "web") false 3 2 thread_loop
      (some_acts ++ removes_next ∷ []) one_kept 1
      (record { conn = connection second; state = ended }) one_kept_runs refl refl
