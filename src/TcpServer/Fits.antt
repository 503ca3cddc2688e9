-- ===== src/TcpServer/Fits.antt =====
-- What holds of a server of src/server/tcpserver.cc and its connections after anything they did.
use Prim.Native.Nat.{ℕ}
use tiny_http_server.Prelude.{◌≡◌, ◌+◌, ◌<◌, ◌≤◌, List, some, length, map, get_elem?, All}
use tiny_http_server.Prelude.Map.{Bytes}
use tiny_http_server.LoopPool.{LoopPool}
use tiny_http_server.TcpConnection.Calls.{close_calls, closed}
use tiny_http_server.TcpServer.{Connection}
use tiny_http_server.TcpServer.Names.{conn_of}
use tiny_http_server.TcpServer.Spec.{Open, Spec}
use tiny_http_server.TcpServer.Count.{IsNumbered}
use tiny_http_server.TcpServer.Refine.{view}
use tiny_http_server.TcpServer.Times.{times}
use tiny_http_server.TcpServer.Whole.{Object, Whole}

module _ (ip_port name : Bytes) (pool : LoopPool) (due : ℕ → ℕ) where
  abbrev conn : Open → Connection
  conn = conn_of ip_port name due

  -- A connection is in the map until it has been closed and its removal has been done.
  pub record IsObject (a : Spec) (gone : List Open) (i : ℕ) (x : Object) : Type 0 where
    pub sockfd : ℕ
    pub conn_is : x.conn ≡ conn (record { index = i; sockfd = sockfd })
    pub once_closed : close_calls x.state.calls ≡ closed x.state.status
    pub balance : times i a.opened + close_calls x.state.calls ≡ 1 + times i gone
    pub posted : times i gone ≤ close_calls x.state.calls

  pub record Fits (w : Whole) : Type 0 where
    pub a : Spec
    pub gone : List Open
    pub server : w.server ≡ view ip_port name pool due a
    pub removing : w.removing ≡ map conn gone
    pub numbered : IsNumbered a
    pub small : a.count ≤ 2147483646
    pub pending : All (λ o. o.index < a.count) gone
    pub size : length w.objects ≡ a.count
    pub object : (i : ℕ) (x : Object) → get_elem? w.objects i ≡ some x → IsObject a gone i x
