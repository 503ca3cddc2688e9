-- ===== src/TcpServer/Whole.antt =====
-- `TcpServer` of src/server/tcpserver.cc with its connections, from src/server/tcpconnection.cc: what
-- their loops do, and the removals that `close_cb_` hands to the loop of the server.
use Prim.Native.Nat.{ℕ, ◌-◌}
use tiny_http_server.Prelude.{List, [], ◌∷◌, ◌++◌, Option, none, some, get_elem?, set, replicate}
use tiny_http_server.Prelude.Result.{Result, ok, ◌>>=◌}
use tiny_http_server.LoopPool.{get_loop}
use tiny_http_server.TcpConnection.{TcpConnection}
use tiny_http_server.TcpConnection.Calls.{close_calls}
use tiny_http_server.TcpConnection.Ops.{Op, apply}
use tiny_http_server.TcpConnection.Ops as Conn
use tiny_http_server.TcpServer.{
  TcpServer, Connection, conn_name, new_connection, remove_connection_in_loop,
}

-- A connection that the server has made, with its state.
pub record Object : Type 0 where
  pub conn : Connection
  pub state : TcpConnection

-- `objects` are in the order in which they came; `removing` are the removals that wait.
pub record Whole : Type 0 where
  pub server : TcpServer
  pub objects : List Object
  pub removing : List Connection

pub data Act : Type 0 where
  -- a new socket, an operation of a connection in its loop, and the next removal
  comes : ℕ → Act
  works : ℕ → Op → Act
  removes_next : Act

abbrev pub begin : TcpServer → Whole
begin s = record { server = s; objects = []; removing = [] }

-- the connection that `new_connection` makes
unfoldable pub made : ℕ → TcpServer → Result Connection
unfolding get_loop
made sockfd s = do
  r ← get_loop s.thread_pool
  ok (record { name = conn_name s.name s.ip_port s.next_id; loop = r.0; sockfd = sockfd })

-- the server and the new connection
abbrev pub join : Whole → Connection → TcpServer → TcpConnection → Whole
join w conn s state = record w {
  server = s;
  objects = w.objects ++ record { conn = conn; state = state } ∷ [];
}

-- `remove_connection`, once for every call of `close_cb_`
abbrev pub post : ℕ → Object → TcpConnection → Whole → Whole
post i x state w = record w {
  objects = set w.objects i (record x { state = state });
  removing = w.removing ++ replicate (close_calls state.calls - close_calls x.state.calls) x.conn;
}

abbrev pub work : ℕ → Op → Option Object → Whole → Result Whole
work i op none w = ok w
work i op (some x) w = do state ← apply op x.state; ok (post i x state w)

abbrev pub take_removal : List Connection → Whole → Result Whole
take_removal [] w = ok w
take_removal (conn ∷ rest) w = do
  s ← remove_connection_in_loop conn w.server
  ok (record w { server = s; removing = rest })

unfoldable pub act : Act → Whole → Result Whole
unfolding new_connection remove_connection_in_loop Conn.make
act (comes sockfd) w = do
  conn ← made sockfd w.server
  s ← new_connection sockfd w.server
  state ← Conn.make
  ok (join w conn s state)
act (works i op) w = work i op (get_elem? w.objects i) w
act removes_next w = take_removal w.removing w

unfoldable pub act_all : List Act → Whole → Result Whole
act_all [] w = ok w
act_all (x ∷ xs) w = do w' ← act x w; act_all xs w'
