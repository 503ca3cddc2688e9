-- ===== src/TcpServer/Refine.antt =====
-- A server of src/server/tcpserver.cc beside what it promises.
use Prim.Native.Nat.{ℕ, suc, ◌+◌}
use mathlib.Core.List.{Perm}
use mathlib.Core.List.Perm
use mathlib.Core.Option.{some_inj}
use tiny_http_server.Prelude.{
  ◌<◌, ◌≤◌, ◌≡◌, ◌∙◌, refl, arith, ap, ap₂, sym, List, [], ◌∷◌, map, some, lt→ltb, ◌==◌, ltb, inl,
  inr, ◌⊎◌, Bool, true, map-append, Option-cases,
}
use tiny_http_server.Prelude.Result.{ok, ◌>>=◌, ◌>>◌, check, assertion, overflow, Returns}
use tiny_http_server.Prelude.Map.{Bytes}
use tiny_http_server.LoopPool as LoopPool
use tiny_http_server.LoopPool.{LoopPool}
use tiny_http_server.LoopPool.Turns.{IsAt, turn, loop_at, get_loop-IsAt}
use tiny_http_server.LoopPool.Start.{start-IsAt, loop_due}
use tiny_http_server.TcpServer.{
  TcpServer, Job, builds, destroys, Event, accepts, removes, make, start, keep, drop_conn,
  new_connection, remove_connection_in_loop, run,
}
use tiny_http_server.TcpServer.Names.{conn_of, entry_of, assign_new, erase_open}
use tiny_http_server.TcpServer.Count.{
  IsNumbered, remove_index, close_kept, accept_kept, close_first, spec_count,
}
use tiny_http_server.TcpServer.Spec.{Open, Spec, nothing, closed, remove, accept, close, spec_run}

abbrev pub map_job {ℓ κ} : {A : Type ℓ} {B : Type κ} → (A → B) → Job A → Job B
map_job f (builds a) = builds (f a)
map_job f (destroys a) = destroys (f a)

abbrev pub map_event {ℓ κ} : {A : Type ℓ} {B : Type κ} → (A → B) → Event A → Event B
map_event f (accepts sockfd) = accepts sockfd
map_event f (removes a) = removes (f a)

module _ (ip_port name : Bytes) (pool : LoopPool) (due : ℕ → ℕ) where
  -- the server at what it promises
  abbrev pub view : Spec → TcpServer
  view a = record {
    ip_port = ip_port;
    name = name;
    thread_pool = record pool { next = turn pool.loops a.count };
    next_id = a.count + 1;
    connection = map (entry_of ip_port name due) a.opened;
    posted = map (map_job (conn_of ip_port name due)) a.posted;
  }

  module _ (started : pool.started ≡ true) (agrees : (k : ℕ) → loop_at pool k ≡ due k) where
    pub accept-view :
        (sockfd : ℕ) (a : Spec)
        → a.count < 2147483646
        → IsNumbered a
        → new_connection sockfd (view a) ≡ ok (view (accept sockfd a))
    unfolding new_connection
    accept-view sockfd a h older =
        let s = view a in
        let taken : IsAt a.count s.thread_pool = record { started = started; turn_at = refl } in
        let pool' : ℕ → LoopPool = λ m. record pool { next = turn pool.loops m } in
        let o : Open = record { index = a.count; sockfd = sockfd } in
        ap (λ r. r >>= λ r'. check (ltb s.next_id 2147483647) overflow >> ok (keep sockfd r' s))
          (get_loop-IsAt s.thread_pool taken)
        ∙ ap
            (λ b.
              check b overflow >> ok (keep sockfd (loop_at pool a.count, pool' (suc a.count)) s))
            (lt→ltb (a.count + 1) 2147483647 (omega arith))
        ∙ ap (λ l. ok (keep sockfd (l, pool' (suc a.count)) s)) (agrees a.count)
        ∙ ap (λ m. ok (keep sockfd (due a.count, pool' m) s)) (omega arith)
        ∙ ap₂ (λ c p. ok (record (view (accept sockfd a)) { connection = c; posted = p }))
            (assign_new ip_port name due o a.opened (omega arith) older)
            (sym (map-append (map_job (conn_of ip_port name due)) a.posted (builds o ∷ [])))

    pub close-view :
        (o : Open) (a a' : Spec)
        → a.count ≤ 2147483646
        → IsNumbered a
        → close o a ≡ some a'
        → remove_connection_in_loop (conn_of ip_port name due o) (view a) ≡ ok (view a')
    unfolding remove_connection_in_loop
    close-view o a a' h older e = elim (Option-cases (remove o.index a.opened)) [
      | inl missing ↦ absurd (let clash = sym (ap (closed o a) missing) ∙ e in cc)
      | inr (os, found) ↦
          let s = view a in
          let conn = conn_of ip_port name due o in
          let (less, older') = remove_index a.count o.index a.opened os older found in
          ap (λ r. check (r.0 == 1) assertion >> ok (drop_conn conn r.1 s))
            (erase_open ip_port name due a.count o a.opened os (omega arith) older less found)
          ∙ ap (λ p. ok (record s { connection = map (entry_of ip_port name due) os; posted = p }))
              (sym (map-append (map_job (conn_of ip_port name due)) a.posted (destroys o ∷ [])))
          ∙ ap (λ x. ok (view x)) (some_inj.0 (sym (ap (closed o a) found) ∙ e))
    ]

    run-view :
        (es : List (Event Open)) (a a' : Spec)
        → IsNumbered a
        → a'.count ≤ 2147483646
        → spec_run es a ≡ some a'
        → run (map (map_event (conn_of ip_port name due)) es) (view a) ≡ ok (view a')
    unfolding run spec_run
    run-view [] a a' older h e = ap (λ x. ok (view x)) (some_inj.0 e)
    run-view (accepts sockfd ∷ es) a a' older h e =
        let a1 = accept sockfd a in
        let older1 = accept_kept sockfd a older in
        ap (λ r. r >>= run (map (map_event (conn_of ip_port name due)) es))
          (accept-view sockfd a (omega (arith, spec_count es a1 a' older1 e)) older)
        ∙ run-view es a1 a' older1 h e
    run-view (removes o ∷ es) a a' older h e =
        let (a1, found, e1) = close_first o es a a' e in
        let (same, older1) = close_kept o a a1 older found in
        ap (λ r. r >>= run (map (map_event (conn_of ip_port name due)) es))
          (close-view o a a1 (omega (arith, same, spec_count es a1 a' older1 e1)) older found)
        ∙ run-view es a1 a' older1 h e1

-- A server on a pool of `n` threads, whose thread callback is set if `n` is 0, in any run in which only
-- connections that are open are removed: no assertion fails, and the entries of its map are, in some
-- order, one for every open connection, with the name by the number of the connection and the loop
-- whose turn it was, and the jobs that it posted build each connection that came and destroy each that
-- was removed, in that order; given that fewer connections come than an `int` counts.
pub server_refines :
    (ip_port name : Bytes) (cb : Bool) (base_loop n : ℕ) (loop_of : ℕ → ℕ)
    → (cb ≡ true) ⊎ (0 < n)
    → (es : List (Event Open)) (a : Spec) → spec_run es nothing ≡ some a
    → a.count ≤ 2147483646
    → (let conn = conn_of ip_port name (loop_due base_loop n loop_of) in
        Returns
          (start cb loop_of (make ip_port name (LoopPool.make base_loop n))
            >>= run (map (map_event conn) es))
          (λ s.
            Perm s.connection (map (λ o. ((conn o).name, conn o)) a.opened)
            × (s.posted ≡ map (map_job conn) a.posted)))
unfolding start
server_refines ip_port name cb base_loop n loop_of set es a e h =
    let (pool, started, (at_start, agrees)) = start-IsAt cb base_loop n loop_of set in
    let server = make ip_port name (LoopPool.make base_loop n) in
    let due = loop_due base_loop n loop_of in
    let events = map (map_event (conn_of ip_port name due)) es in
    (
      view ip_port name pool due a,
      ap (λ r. (r >>= λ x. ok (record server { thread_pool = x })) >>= run events) started
          ∙ ap (λ m. run events (record server { thread_pool = record pool { next = m } }))
              at_start.turn_at
          ∙ run-view ip_port name pool due at_start.started agrees es nothing a tt h e,
      (Perm.refl _, refl),
    )
