-- ===== src/TcpServer/Worked.antt =====
-- An operation of a connection, beside its server of src/server/tcpserver.cc.
use Prim.Native.Nat.{ℕ}
use tiny_http_server.Prelude.{
  ◌≡◌, ◌+◌, ◌-◌, ◌<◌, ◌∙◌, refl, arith, ap, ap₂, sym, subst, List, ◌++◌, some, length, map,
  map-append, get_elem?, Option-cases, get_elem?-set_self, get_elem?-set_ne, get_elem?-lt,
  length-set, set, replicate, All-append, true, false, Bool-cases, inl, inr, ◌==◌, ==_iff,
}
use mathlib.Core.Bool.{false≢true}
use mathlib.Core.Option.{some_inj}
use tiny_http_server.Prelude.Result.{Yields, Yields-bind}
use tiny_http_server.Prelude.Map.{Bytes}
use tiny_http_server.LoopPool.{LoopPool}
use tiny_http_server.LoopPool.Turns.{loop_at}
use tiny_http_server.TcpConnection.{TcpConnection}
use tiny_http_server.TcpConnection.Calls.{close_calls}
use tiny_http_server.TcpConnection.Life.{Later, apply-Later}
use tiny_http_server.TcpConnection.Ops.{Op, apply}
use tiny_http_server.TcpServer.{Connection}
use tiny_http_server.TcpServer.Names.{conn_of}
use tiny_http_server.TcpServer.Spec.{Open, Spec}
use tiny_http_server.TcpServer.Times.{
  times, times-append, times-replicate_same, times-replicate_other, map-replicate, All-replicate,
}
use tiny_http_server.TcpServer.Whole.{Object, Whole, works, post, work, act}
use tiny_http_server.TcpServer.Fits.{IsObject, Fits}

module _ (ip_port name : Bytes) (pool : LoopPool) (due : ℕ → ℕ) (started : pool.started ≡ true)
    (agrees : (k : ℕ) → loop_at pool k ≡ due k) where
  abbrev conn : Open → Connection
  conn = conn_of ip_port name due

  abbrev Good : Whole → Type 0
  Good = Fits ip_port name pool due

  abbrev IsKnown : Spec → List Open → ℕ → Object → Type 0
  IsKnown = IsObject ip_port name pool due

  worked :
      (i : ℕ) (x : Object) (state : TcpConnection) (a : Spec) (gone : List Open)
      (obj : IsKnown a gone i x)
      → Later x.state state
      → IsKnown a
          (gone
            ++ replicate
                (close_calls state.calls - close_calls x.state.calls)
                (record { index = i; sockfd = obj.sockfd }))
          i
          (record x { state = state })
  worked i x state a gone obj later =
      let d = close_calls state.calls - close_calls x.state.calls in
      let o : Open = record { index = i; sockfd = obj.sockfd } in
      let more : times i (gone ++ replicate d o) ≡ times i gone + d =
        times-append i gone (replicate d o)
        ∙ ap (λ k. times i gone + k) (times-replicate_same i d o refl) in
      record {
        sockfd = obj.sockfd;
        conn_is = obj.conn_is;
        once_closed = omega (arith, later, obj.once_closed);
        balance = omega (arith, later, more, obj.balance);
        posted = omega (arith, later, more, obj.posted);
      }

  aside :
      (j : ℕ) (y : Object) (a : Spec) (gone : List Open) (d : ℕ) (o : Open)
      → (o.index == j) ≡ false
      → IsKnown a gone j y
      → IsKnown a (gone ++ replicate d o) j y
  aside j y a gone d o other obj =
      let same : times j (gone ++ replicate d o) ≡ times j gone + 0 =
        times-append j gone (replicate d o)
        ∙ ap (λ k. times j gone + k) (times-replicate_other j d o other) in
      record {
        sockfd = obj.sockfd;
        conn_is = obj.conn_is;
        once_closed = obj.once_closed;
        balance = omega (arith, same, obj.balance);
        posted = omega (arith, same, obj.posted);
      }

  posted-Fits :
      (i : ℕ) (x : Object) (state : TcpConnection) (w : Whole)
      → Good w
      → get_elem? w.objects i ≡ some x
      → Later x.state state
      → Good (post i x state w)
  posted-Fits i x state w v found later =
      let obj = v.object i x found in
      let o : Open = record { index = i; sockfd = obj.sockfd } in
      let d = close_calls state.calls - close_calls x.state.calls in
      let inside : i < length w.objects = get_elem?-lt w.objects i found in
      let same : IsKnown v.a (v.gone ++ replicate d o) i (record x { state = state }) =
        worked i x state v.a v.gone obj later in
      record {
        a = v.a;
        gone = v.gone ++ replicate d o;
        server = v.server;
        removing =
            ap₂ (λ xs y. xs ++ replicate d y) v.removing obj.conn_is
            ∙ ap (λ ys. map conn v.gone ++ ys) (sym (map-replicate conn d o))
            ∙ sym (map-append conn v.gone (replicate d o));
        numbered = v.numbered;
        small = v.small;
        pending =
            All-append _ v.gone _ v.pending
              (All-replicate (λ o. o.index < v.a.count) d o (omega (arith, inside, v.size)));
        size = length-set w.objects i (record x { state = state }) ∙ v.size;
        object = λ j y e. elim (Bool-cases (i == j)) [
          | inl here ↦
              let i_is : i ≡ j = (==_iff i j).0 here in
              let first = get_elem?-set_self w.objects i (record x { state = state }) inside in
              let y_is = some_inj.0 (
                sym first
                ∙ ap (get_elem? (set w.objects i (record x { state = state }))) i_is
                ∙ e) in
              subst (λ k. IsKnown v.a (v.gone ++ replicate d o) k y) i_is
                (subst (IsKnown v.a (v.gone ++ replicate d o) i) y_is same)
          | inr there ↦ aside j y v.a v.gone d o there (
              v.object j y (
                sym (
                  get_elem?-set_ne w.objects (record x { state = state })
                    (λ k. false≢true (sym there ∙ (==_iff i j).1 k)))
                ∙ e))
        ];
      }

  pub work-Fits : (i : ℕ) (op : Op) (w : Whole) → Good w → Yields (act (works i op) w) Good
  unfolding act
  work-Fits i op w v = elim (Option-cases (get_elem? w.objects i)) [
    | inl missing ↦ subst (λ o. Yields (work i op o w) Good) (sym missing) v
    | inr (x, found) ↦
        let obj = v.object i x found in
        subst (λ o. Yields (work i op o w) Good) (sym found)
          (Yields-bind (apply op x.state) _ (Later x.state) Good (apply-Later op x.state)
            (λ state later. posted-Fits i x state w v found later))
  ]
