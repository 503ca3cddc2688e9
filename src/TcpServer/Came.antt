-- ===== src/TcpServer/Came.antt =====
-- A new connection of a server of src/server/tcpserver.cc.
use Prim.Native.Nat.{ℕ, zero, suc}
use tiny_http_server.Prelude.{
  ◌≡◌, ◌+◌, ◌<◌, ◌∙◌, ◌⊎◌, refl, arith, ap, sym, subst, List, [], ◌∷◌, ◌++◌, some, length,
  get_elem?, get_elem?-lt, length-append, All, All-map, true, false, Bool-cases, inl, inr, ltb,
  ltb→lt,
}
use mathlib.Core.Option.{some_inj}
use tiny_http_server.Prelude.Result.{
  ok, fail, ◌>>=◌, ◌>>◌, check, overflow, Yields, Yields-next, Yields-bind,
}
use tiny_http_server.Prelude.Map.{Bytes}
use tiny_http_server.LoopPool.{LoopPool}
use tiny_http_server.LoopPool.Turns.{IsAt, turn, loop_at, get_loop-IsAt}
use tiny_http_server.TcpConnection.{TcpConnection}
use tiny_http_server.TcpConnection.Life.{IsNew, make-IsNew}
use tiny_http_server.TcpConnection.Ops.{Op, apply}
use tiny_http_server.TcpConnection.Ops as Conn
use tiny_http_server.TcpServer.{Connection, keep, conn_name, new_connection}
use tiny_http_server.TcpServer.Names.{conn_of}
use tiny_http_server.TcpServer.Spec.{Open, Spec, accept}
use tiny_http_server.TcpServer.Count.{IsNumbered, accept_kept}
use tiny_http_server.TcpServer.Refine.{view, accept-view}
use tiny_http_server.TcpServer.Times.{once, times, times-append, times_above}
use tiny_http_server.TcpServer.Whole.{Object, Whole, comes, made, join, act}
use tiny_http_server.TcpServer.Fits.{IsObject, Fits}

-- An element of a list that has grown at its end.
get_elem?-snoc {ℓ} :
    {A : Type ℓ} (xs : List A) (y : A) (i : ℕ) {x : A}
    → get_elem? (xs ++ y ∷ []) i ≡ some x
    → (get_elem? xs i ≡ some x) ⊎ ((i ≡ length xs) × (x ≡ y))
get_elem?-snoc [] y zero e = inr (refl, sym (some_inj.0 e))
get_elem?-snoc [] y (suc i) e = absurd cc
get_elem?-snoc (x ∷ xs) y zero e = inl e
get_elem?-snoc (x ∷ xs) y (suc i) e = elim (get_elem?-snoc xs y i e) [
  | inl before ↦ inl before
  | inr (last, same) ↦ inr (omega (arith, last), same)
]

module _ (ip_port name : Bytes) (pool : LoopPool) (due : ℕ → ℕ) (started : pool.started ≡ true)
    (agrees : (k : ℕ) → loop_at pool k ≡ due k) where
  abbrev conn : Open → Connection
  conn = conn_of ip_port name due

  abbrev Good : Whole → Type 0
  Good = Fits ip_port name pool due

  abbrev IsKnown : Spec → List Open → ℕ → Object → Type 0
  IsKnown = IsObject ip_port name pool due

  made-view :
      (sockfd : ℕ) (a : Spec)
      → made sockfd (view ip_port name pool due a)
        ≡ ok (conn (record { index = a.count; sockfd = sockfd }))
  unfolding made
  made-view sockfd a =
      let taken : IsAt a.count (view ip_port name pool due a).thread_pool = record {
        started = started;
        turn_at = refl;
      } in
      ap
        (λ r. r >>= λ r'.
          ok (record { name = conn_name name ip_port (a.count + 1); loop = r'.0; sockfd = sockfd }))
        (get_loop-IsAt (view ip_port name pool due a).thread_pool taken)
      ∙ ap
          (λ l.
            ok (record { name = conn_name name ip_port (a.count + 1); loop = l; sockfd = sockfd }))
          (agrees a.count)

  older :
      (j : ℕ) (y : Object) (sockfd : ℕ) (a : Spec) (gone : List Open)
      → j < a.count
      → IsKnown a gone j y
      → IsKnown (accept sockfd a) gone j y
  older j y sockfd a gone below obj =
      let o : Open = record { index = a.count; sockfd = sockfd } in
      let other : once j a.count ≡ 0 = ground arith in
      let same : times j (a.opened ++ o ∷ []) ≡ times j a.opened =
        omega (arith, other, times-append j a.opened (o ∷ [])) in
      record {
        sockfd = obj.sockfd;
        conn_is = obj.conn_is;
        once_closed = obj.once_closed;
        balance = omega (arith, same, obj.balance);
        posted = obj.posted;
      }

  newest :
      (sockfd : ℕ) (a : Spec) (gone : List Open) (state : TcpConnection)
      → IsNumbered a
      → All (λ o. o.index < a.count) gone
      → IsNew state
      → IsKnown
          (accept sockfd a)
          gone
          a.count
          (record { conn = conn (record { index = a.count; sockfd = sockfd }); state = state })
  newest sockfd a gone state numbered pending (unclosed, fresh) =
      let o : Open = record { index = a.count; sockfd = sockfd } in
      let one : once a.count a.count ≡ 1 = ground arith in
      let first : times a.count (a.opened ++ o ∷ []) ≡ 1 = omega (
        arith,
        one,
        times-append a.count a.opened (o ∷ []),
        times_above a.count a.opened numbered,
      ) in
      let unposted : times a.count gone ≡ 0 = times_above a.count gone pending in
      record {
        sockfd = sockfd;
        conn_is = refl;
        once_closed = omega (arith, unclosed, fresh);
        balance = omega (arith, first, unclosed, unposted);
        posted = omega (arith, unposted);
      }

  came :
      (sockfd : ℕ) (w : Whole) (v : Good w) (state : TcpConnection)
      → v.a.count < 2147483646
      → IsNew state
      → Good (
          join w
            (conn (record { index = v.a.count; sockfd = sockfd }))
            (view ip_port name pool due (accept sockfd v.a))
            state)
  came sockfd w v state room (unclosed, fresh) =
      let o : Open = record { index = v.a.count; sockfd = sockfd } in
      record {
        a = accept sockfd v.a;
        gone = v.gone;
        server = refl;
        removing = v.removing;
        numbered = accept_kept sockfd v.a v.numbered;
        small = omega (arith, room);
        pending = All-map v.gone (λ o h. omega (arith, h)) v.pending;
        size =
            omega (
              arith,
              v.size,
              length-append w.objects (record { conn = conn o; state = state } ∷ []),
            );
        object = λ j y found.
            elim (get_elem?-snoc w.objects (record { conn = conn o; state = state }) j found) [
              | inl before ↦
                  older j y sockfd v.a v.gone
                    (omega (arith, get_elem?-lt w.objects j before, v.size)) (v.object j y before)
              | inr (last, same) ↦
                  subst (λ k. IsKnown (accept sockfd v.a) v.gone k y) (sym (last ∙ v.size))
                    (subst (IsKnown (accept sockfd v.a) v.gone v.a.count) (sym same)
                      (newest sockfd v.a v.gone state v.numbered v.pending (unclosed, fresh)))
            ];
      }

  -- the next number does not fit an `int`
  refused :
      (sockfd : ℕ) (a : Spec)
      → ltb (a.count + 1) 2147483647 ≡ false
      → new_connection sockfd (view ip_port name pool due a) ≡ fail overflow
  unfolding new_connection
  refused sockfd a full =
      let s = view ip_port name pool due a in
      let taken : IsAt a.count s.thread_pool = record { started = started; turn_at = refl } in
      ap (λ r. r >>= λ r'. check (ltb s.next_id 2147483647) overflow >> ok (keep sockfd r' s))
        (get_loop-IsAt s.thread_pool taken)
      ∙ ap
          (λ b.
            check b overflow
            >> ok (
                keep sockfd
                  (loop_at pool a.count, record pool { next = turn pool.loops (suc a.count) }) s))
          full

  pub comes-Fits : (sockfd : ℕ) (w : Whole) → Good w → Yields (act (comes sockfd) w) Good
  unfolding act
  comes-Fits sockfd w v = elim (Bool-cases (ltb (v.a.count + 1) 2147483647)) [
    | inl room ↦
        let o : Open = record { index = v.a.count; sockfd = sockfd } in
        let few : v.a.count < 2147483646 = omega (arith, ltb→lt (v.a.count + 1) 2147483647 room) in
        let come = ap (made sockfd) v.server ∙ made-view sockfd v.a in
        let kept =
          ap (new_connection sockfd) v.server
          ∙ accept-view ip_port name pool due started agrees sockfd v.a few v.numbered in
        subst
          (λ r.
            Yields
              (r >>= λ c. new_connection sockfd w.server >>= λ s.
                Conn.make >>= λ state. ok (join w c s state))
              Good)
          (sym come)
          (subst (λ r. Yields (r >>= λ s. Conn.make >>= λ state. ok (join w (conn o) s state)) Good)
            (sym kept)
            (Yields-bind Conn.make _ IsNew Good make-IsNew
              (λ state new. came sockfd w v state few new)))
    | inr full ↦ Yields-next (made sockfd w.server) _ Good (λ c.
        subst (λ r. Yields (r >>= λ s. Conn.make >>= λ state. ok (join w c s state)) Good)
          (sym (ap (new_connection sockfd) v.server ∙ refused sockfd v.a full)) tt)
  ]
