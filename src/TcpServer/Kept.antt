-- ===== src/TcpServer/Kept.antt =====
-- Which connections a server of src/server/tcpserver.cc keeps.
use Prim.Native.Nat.{ℕ, zero, suc}
use tiny_http_server.Prelude.{
  ◌≡◌, ◌-◌, ◌<◌, ◌≤◌, ◌∙◌, refl, arith, ap, ap₂, sym, List, [], ◌∷◌, ◌++◌, some, map, map-append,
  get_elem?, List-cases, get_elem?-lt, All, Bool, true, false, ◌⊎◌, Bool-cases, inl, inr, if_false,
  if_true, ◌==◌,
}
use tiny_http_server.Prelude.Result.{Result, ok, ◌>>=◌, Yields, Yields-bind, Yields-ok, Returns}
use tiny_http_server.Prelude.Map.{Bytes}
use tiny_http_server.LoopPool.{LoopPool, get_loop}
use tiny_http_server.LoopPool.Turns.{loop_at}
use tiny_http_server.TcpConnection.Calls.{closed}
use tiny_http_server.TcpServer.{
  erase, make, start, TcpServer, Connection, destroys, remove_connection_in_loop,
}
use tiny_http_server.TcpServer.Names.{conn_of, entry_of, name_same, name_differs}
use tiny_http_server.TcpServer.Spec.{nothing, Open, Spec}
use tiny_http_server.TcpServer.Refine.{map_job, view}
use tiny_http_server.TcpServer.Times.{times}
use tiny_http_server.TcpServer.Whole.{
  begin, Object, Whole, Act, comes, works, removes_next, act, act_all,
}
use tiny_http_server.TcpServer.Fits.{IsObject, Fits}
use tiny_http_server.TcpServer.Worked.{work-Fits}
use tiny_http_server.TcpServer.Removed.{closed_bound, removal_due, removal-view, removal-Fits}
use tiny_http_server.TcpServer.Came.{comes-Fits}
use tiny_http_server.LoopPool as LoopPool
use tiny_http_server.LoopPool.Start.{start-IsAt, loop_due}

abbrev first : ℕ × List (Bytes × Connection) → ℕ
first r = r.0

-- how often the map of a server holds a name
erase-times :
    (ip_port name : Bytes) (due : ℕ → ℕ) (n : ℕ) (o : Open) (os : List Open)
    → n ≤ 2147483647
    → o.index < n
    → All (λ x. x.index < n) os
    → times o.index os ≤ 1
    → (erase (conn_of ip_port name due o).name (map (entry_of ip_port name due) os)).0
      ≡ times o.index os
unfolding erase
erase-times ip_port name due n o [] h ho older few = refl
erase-times ip_port name due n o (x ∷ os) h ho older few = elim (Bool-cases (x.index == o.index)) [
  | inl same ↦
      ap first (if_true _ _ _ (name_same ip_port name due x.index o.index (ground arith)))
      ∙ ground arith
  | inr other ↦
      ap first (
        if_false _ _ _ (
          name_differs ip_port name due x.index o.index (omega (arith, older.0)) (omega arith)
            (λ same. ground arith)))
      ∙ erase-times ip_port name due n o os h ho older.1 (ground arith)
      ∙ ground arith
]

module _ (ip_port name : Bytes) (pool : LoopPool) (due : ℕ → ℕ) (started : pool.started ≡ true)
    (agrees : (k : ℕ) → loop_at pool k ≡ due k) where
  abbrev conn : Open → Connection
  conn = conn_of ip_port name due

  abbrev Good : Whole → Type 0
  Good = Fits ip_port name pool due

  abbrev IsKnown : Spec → List Open → ℕ → Object → Type 0
  IsKnown = IsObject ip_port name pool due

  act-Fits : (x : Act) (w : Whole) → Good w → Yields (act x w) Good
  act-Fits (comes sockfd) w v = comes-Fits ip_port name pool due started agrees sockfd w v
  act-Fits (works i op) w v = work-Fits ip_port name pool due started agrees i op w v
  act-Fits removes_next w v = removal-Fits ip_port name pool due started agrees w v

  pub act_all-Fits : (xs : List Act) (w : Whole) → Good w → Yields (act_all xs w) Good
  unfolding act_all
  act_all-Fits [] w v = v
  act_all-Fits (x ∷ xs) w v =
      Yields-bind (act x w) (act_all xs) Good Good (act-Fits x w v) (λ w' v'. act_all-Fits xs w' v')

  pub begin-Fits : Good (begin (view ip_port name pool due nothing))
  begin-Fits = record {
    a = nothing;
    gone = [];
    server = refl;
    removing = refl;
    numbered = tt;
    small = omega arith;
    pending = tt;
    size = refl;
    object = λ i x found. absurd cc;
  }

-- the whole of a server on a pool of `n` threads, with or without a thread callback
abbrev pub serve : Bytes → Bytes → Bool → ℕ → ℕ → (ℕ → ℕ) → List Act → Result Whole
serve ip_port name cb base_loop n loop_of acts =
    start cb loop_of (make ip_port name (LoopPool.make base_loop n)) >>= λ s. act_all acts (begin s)

cons_first {ℓ} : {A : Type ℓ} {x y : A} {xs ys : List A} → x ∷ xs ≡ y ∷ ys → x ≡ y
cons_first e = cc

map_empty {ℓ κ} : {A : Type ℓ} {B : Type κ} (f : A → B) (xs : List A) → map f xs ≡ [] → xs ≡ []
map_empty f [] e = refl
map_empty f (x ∷ xs) e = absurd cc

-- A server that has started has a callback or threads.
serve-starts :
    (ip_port name : Bytes) (cb : Bool) (base_loop n : ℕ) (loop_of : ℕ → ℕ) (acts : List Act)
    (w : Whole)
    → serve ip_port name cb base_loop n loop_of acts ≡ ok w
    → (cb ≡ true) ⊎ (0 < n)
unfolding start LoopPool.start
serve-starts ip_port name true base_loop n loop_of acts w e = inl refl
serve-starts ip_port name false base_loop zero loop_of acts w e = absurd cc
serve-starts ip_port name false base_loop (suc n) loop_of acts w e = inr (omega arith)

served :
    (ip_port name : Bytes) (cb : Bool) (base_loop n : ℕ) (loop_of : ℕ → ℕ) (acts : List Act)
    (w : Whole)
    → serve ip_port name cb base_loop n loop_of acts ≡ ok w
    → (pool : LoopPool) × (pool.started ≡ true)
      × ((k : ℕ) → loop_at pool k ≡ loop_due base_loop n loop_of k)
      × Fits ip_port name pool (loop_due base_loop n loop_of) w
unfolding start
served ip_port name cb base_loop n loop_of acts w e =
    let (pool, begun, (at_start, agrees)) =
      start-IsAt cb base_loop n loop_of
        (serve-starts ip_port name cb base_loop n loop_of acts w e) in
    let server = make ip_port name (LoopPool.make base_loop n) in
    let due = loop_due base_loop n loop_of in
    let next : TcpServer → Result Whole = λ s. act_all acts (begin s) in
    let view_ran = sym (
      ap (λ r. (r >>= λ x. ok (record server { thread_pool = x })) >>= next) begun
      ∙ ap (λ m. next (record server { thread_pool = record pool { next = m } }))
          at_start.turn_at) in
    (
      pool,
      at_start.started,
      agrees,
      Yields-ok (Fits ip_port name pool due)
          (act_all-Fits ip_port name pool due at_start.started agrees acts _
            (begin-Fits ip_port name pool due at_start.started agrees))
          (view_ran ∙ e),
    )

-- However a server on a pool of threads takes new sockets, its connections work and removals that
-- wait are done, as long as all of it returns: a removal that waits returns too, so the assertion
-- that the connection is in the map holds, and it posts the end of that connection.
pub removal_succeeds :
    (ip_port name : Bytes) (cb : Bool) (base_loop n : ℕ) (loop_of : ℕ → ℕ) (acts : List Act)
    (w : Whole) (conn : Connection) (rest : List Connection)
    → serve ip_port name cb base_loop n loop_of acts ≡ ok w
    → w.removing ≡ conn ∷ rest
    → Returns
        (remove_connection_in_loop conn w.server)
        (λ s. s.posted ≡ w.server.posted ++ destroys conn ∷ [])
removal_succeeds ip_port name cb base_loop n loop_of acts w conn rest e waits =
    let due = loop_due base_loop n loop_of in
    let (pool, started, agrees, v) = served ip_port name cb base_loop n loop_of acts w e in
    let queued = sym v.removing ∙ waits in
    elim (List-cases v.gone) [
      | inl empty ↦
          absurd (let clash = sym (ap (map (conn_of ip_port name due)) empty) ∙ queued in cc)
      | inr (o, os, first_is) ↦
          let conn_is : conn_of ip_port name due o ≡ conn =
            cons_first (sym (ap (map (conn_of ip_port name due)) first_is) ∙ queued) in
          let (a', closes, posted, kept) =
            removal_due ip_port name pool due started agrees w v o os first_is in
          (
            view ip_port name pool due a',
            ap (λ c. remove_connection_in_loop c w.server) (sym conn_is)
                ∙ removal-view ip_port name pool due started agrees w v o a' closes,
            ap (map (map_job (conn_of ip_port name due))) posted
                ∙ map-append (map_job (conn_of ip_port name due)) v.a.posted (destroys o ∷ [])
                ∙ ap₂ (λ ps c. ps ++ destroys c ∷ []) (sym (ap (λ s. s.posted) v.server)) conn_is,
          )
    ]

-- After any acts of a server and its connections that all return, and once no removal waits, the map
-- holds a connection that was made, once, if it is not disconnected, and not at all if it is.
pub kept_open :
    (ip_port name : Bytes) (cb : Bool) (base_loop n : ℕ) (loop_of : ℕ → ℕ) (acts : List Act)
    (w : Whole) (i : ℕ) (x : Object)
    → serve ip_port name cb base_loop n loop_of acts ≡ ok w
    → w.removing ≡ []
    → get_elem? w.objects i ≡ some x
    → (erase x.conn.name w.server.connection).0 ≡ 1 - closed x.state.status
kept_open ip_port name cb base_loop n loop_of acts w i x e nothing_waits found =
    let due = loop_due base_loop n loop_of in
    let (pool, started, agrees, v) = served ip_port name cb base_loop n loop_of acts w e in
    let obj = v.object i x found in
    let o : Open = record { index = i; sockfd = obj.sockfd } in
    let inside : i < v.a.count = omega (arith, get_elem?-lt w.objects i found, v.size) in
    let unposted : times i v.gone ≡ 0 =
      ap (times i) (map_empty (conn_of ip_port name due) v.gone (sym v.removing ∙ nothing_waits)) in
    let open_times : times i v.a.opened ≡ 1 - closed x.state.status =
      omega (arith, unposted, obj.balance, obj.once_closed, closed_bound x.state.status) in
    ap₂ (λ c s. first (erase c.name s)) obj.conn_is (ap (λ s. s.connection) v.server)
    ∙ erase-times ip_port name due v.a.count o v.a.opened (omega (arith, v.small)) inside v.numbered
        (omega (arith, open_times))
    ∙ open_times
