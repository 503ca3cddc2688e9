-- ===== src/TcpServer/Removed.antt =====
-- A removal by a server of src/server/tcpserver.cc.
use Prim.Native.Nat.{ℕ}
use tiny_http_server.Prelude.{
  ◌≡◌, ◌+◌, ◌<◌, ◌≤◌, ◌∙◌, refl, arith, ap, sym, subst, List, [], ◌∷◌, ◌++◌, some, map, List-cases,
  get_elem-there, All, true, inl, inr,
}
use tiny_http_server.Prelude.Result.{ok, ◌>>=◌, Yields}
use tiny_http_server.Prelude.Map.{Bytes}
use tiny_http_server.LoopPool.{LoopPool}
use tiny_http_server.LoopPool.Turns.{loop_at}
use tiny_http_server.TcpConnection.{Status, disconnected, connecting, connected, disconnecting}
use tiny_http_server.TcpConnection.Calls.{closed}
use tiny_http_server.TcpServer.{Connection, destroys, remove_connection_in_loop}
use tiny_http_server.TcpServer.Names.{conn_of}
use tiny_http_server.TcpServer.Spec.{Open, Spec, close, closed as closed_spec}
use tiny_http_server.TcpServer.Count.{close_kept}
use tiny_http_server.TcpServer.Refine.{view, close-view}
use tiny_http_server.TcpServer.Times.{once, times, remove-times}
use tiny_http_server.TcpServer.Whole.{Object, Whole, removes_next, take_removal, act}
use tiny_http_server.TcpServer.Fits.{IsObject, Fits}

pub closed_bound : (s : Status) → closed s ≤ 1
closed_bound disconnected = omega arith
closed_bound connecting = omega arith
closed_bound connected = omega arith
closed_bound disconnecting = omega arith

module _ (ip_port name : Bytes) (pool : LoopPool) (due : ℕ → ℕ) (started : pool.started ≡ true)
    (agrees : (k : ℕ) → loop_at pool k ≡ due k) where
  abbrev conn : Open → Connection
  conn = conn_of ip_port name due

  abbrev Good : Whole → Type 0
  Good = Fits ip_port name pool due

  abbrev IsKnown : Spec → List Open → ℕ → Object → Type 0
  IsKnown = IsObject ip_port name pool due

  -- a removal that waits is of a connection that is open
  pub removal_due :
      (w : Whole) (v : Good w) (o : Open) (rest : List Open)
      → v.gone ≡ o ∷ rest
      → (a' : Spec) × (close o v.a ≡ some a')
        × (a'.posted ≡ v.a.posted ++ destroys o ∷ [])
        × ((j : ℕ) → times j v.a.opened ≡ times j a'.opened + once j o.index)
  removal_due w v o rest e =
      let here : o.index < v.a.count = (subst (All (λ o. o.index < v.a.count)) e v.pending).0 in
      let (x, found) = get_elem-there w.objects o.index (omega (arith, here, v.size)) in
      let obj = v.object o.index x found in
      let first : 0 < times o.index v.gone = ground (arith, ap (times o.index) e) in
      let (os, removed, kept) = remove-times o.index v.a.opened (
        omega
          (arith, first, obj.balance, obj.posted, obj.once_closed, closed_bound x.state.status)) in
      (
        record v.a { opened = os; posted = v.a.posted ++ destroys o ∷ [] },
        ap (closed_spec o v.a) removed,
        refl,
        kept,
      )

  pub removal-view :
      (w : Whole) (v : Good w) (o : Open) (a' : Spec)
      → close o v.a ≡ some a'
      → remove_connection_in_loop (conn o) w.server ≡ ok (view ip_port name pool due a')
  removal-view w v o a' e =
      ap (remove_connection_in_loop (conn o)) v.server
      ∙ close-view ip_port name pool due started agrees o v.a a' v.small v.numbered e

  removed-Fits :
      (w : Whole) (v : Good w) (o : Open) (rest : List Open) (a' : Spec)
      → v.gone ≡ o ∷ rest
      → close o v.a ≡ some a'
      → ((j : ℕ) → times j v.a.opened ≡ times j a'.opened + once j o.index)
      → Good (record w { server = view ip_port name pool due a'; removing = map conn rest })
  removed-Fits w v o rest a' e closes kept =
      let (same, numbered) = close_kept o v.a a' v.numbered closes in
      record {
        a = a';
        gone = rest;
        server = refl;
        removing = refl;
        numbered = numbered;
        small = omega (arith, same, v.small);
        pending =
            subst (λ n. All (λ o. o.index < n) rest) (sym same)
              (subst (All (λ o. o.index < v.a.count)) e v.pending).1;
        size = v.size ∙ sym same;
        object = λ j y found.
            let obj = v.object j y found in
            let less : times j v.gone ≡ once j o.index + times j rest = ap (times j) e in
            record {
              sockfd = obj.sockfd;
              conn_is = obj.conn_is;
              once_closed = obj.once_closed;
              balance = omega (arith, kept j, less, obj.balance);
              posted = omega (arith, kept j, less, obj.posted);
            };
      }

  pub removal-Fits : (w : Whole) → Good w → Yields (act removes_next w) Good
  unfolding act
  removal-Fits w v = elim (List-cases v.gone) [
    | inl empty ↦
        subst (λ r. Yields (take_removal r w) Good) (sym (v.removing ∙ ap (map conn) empty)) v
    | inr (o, rest, e) ↦
        let (a', closes, posted, kept) = removal_due w v o rest e in
        subst (λ r. Yields (take_removal r w) Good) (sym (v.removing ∙ ap (map conn) e))
          (subst
            (λ r. Yields (r >>= λ s. ok (record w { server = s; removing = map conn rest })) Good)
            (sym (removal-view w v o a' closes)) (removed-Fits w v o rest a' e closes kept))
  ]
