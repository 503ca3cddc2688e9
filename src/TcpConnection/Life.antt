-- ===== src/TcpConnection/Life.antt =====
-- How often a connection of src/server/tcpconnection.cc calls `close_cb_`.
use tiny_http_server.Prelude.{
  ◌≡◌, List, ◌≤◌, ◌+◌, arith, [], ◌∷◌, ◌++◌, refl, arith, ◌||◌, ◌&&◌, not,
}
use tiny_http_server.Prelude.Result.{
  Result, ok, fail, ◌>>=◌, Yields, Yields-bind, Yields-check, Yields-next, Yields-if, Yields-ok,
  assertion,
}
use tiny_http_server.Prelude.Map.{Bytes}
use tiny_http_server.Buffer as Buffer
use tiny_http_server.Buffer.{
  Buffer, initial_size_default, Transfer, failed, done, read_fd, retrieve, append, read_able_bytes,
}
use tiny_http_server.Channel.{handle_event_guard, enable_reading, disable_reading, disable_all}
use tiny_http_server.TcpConnection.{
  TcpConnection, connection_cb, message_cb, close_cb, connecting, connected, disconnecting,
  status_eq, build_connect, destroy_connect, handle_read, handle_close, shutdown_in_loop,
  force_close, force_close_in_loop, start_read_in_loop, stop_read_in_loop, channel_update,
  disconnected,
}
use tiny_http_server.TcpConnection.Ops.{
  callbacks, make, Io, Handler, reads, writes, closes, errors, handle, handle_all, dispatch, Op,
  builds, destroys, shuts_down, forces_close, force_closes, starts_read, stops_read, dispatches,
  sends, apply, run,
}
use tiny_http_server.TcpConnection.Calls.{
  close_calls, close_calls-append, closed, connecting_closed, open_closed, Same, Same-refl,
  shutdown_in_loop-Same, send-Same, handle_write-Same, force_close-Same, destroy_connect-Same,
  channel_update-Same,
}

-- `close_cb_` was called in between exactly if the connection became disconnected in between.
pub record Later (c c' : TcpConnection) : Type 0 where
  pub grows : close_calls c.calls ≤ close_calls c'.calls
  pub counts : close_calls c'.calls + closed c.status ≡ close_calls c.calls + closed c'.status

Later-refl : (c : TcpConnection) → Later c c
Later-refl c = omega arith

Later-Yields :
    {a b : TcpConnection} (r : Result TcpConnection)
    → Later a b
    → Yields r (Later b)
    → Yields r (Later a)
Later-Yields (fail fault) h k = tt
Later-Yields (ok c) h k = omega (arith, h, k)

Yields-map {κ κ'} :
    {P : TcpConnection → Type κ} {Q : TcpConnection → Type κ'} (r : Result TcpConnection)
    → Yields r P
    → ((c : TcpConnection) → P c → Yields (ok c) Q)
    → Yields r Q
Yields-map (fail fault) p h = tt
Yields-map (ok c) p h = h c p

Same-Later : (r : Result TcpConnection) (c : TcpConnection) → Yields r (Same c) → Yields r (Later c)
Same-Later (fail fault) c h = tt
Same-Later (ok c') c h = omega (arith, h.closes, h.status)

handle_close-Later : (c : TcpConnection) → Yields (handle_close c) (Later c)
unfolding handle_close
handle_close-Later c =
    Yields-check (status_eq c.status connected || status_eq c.status disconnecting) assertion _
      (Later c)
      (λ e.
        let down : TcpConnection = record c { status = disconnected } in
        Yields-bind (channel_update disable_all down) _ (Same down) (Later c)
          (channel_update-Same down.tag disable_all down)
          (λ c' h. omega (
            arith,
            open_closed c.status e,
            h.closes,
            h.status,
            close_calls-append c'.calls (connection_cb ∷ []),
            close_calls-append (c'.calls ++ connection_cb ∷ []) (close_cb ∷ []),
          )))

handle_read-Later : (c : TcpConnection) (t : Transfer Bytes) → Yields (handle_read c t) (Later c)
unfolding handle_read
handle_read-Later c (failed e) = Later-refl c
handle_read-Later c (done []) = handle_close-Later c
handle_read-Later c (done (x ∷ xs)) =
    Yields-next (read_fd c.input (done (x ∷ xs)) 0) _ (Later c)
      (λ r. omega (arith, close_calls-append c.calls (message_cb ∷ [])))

handle-Later : (io : Io) (h : Handler) (c : TcpConnection) → Yields (handle io h c) (Later c)
handle-Later io reads c = handle_read-Later c io.received
handle-Later io writes c = Same-Later _ c (handle_write-Same c io.taken)
handle-Later io closes c = handle_close-Later c
handle-Later io errors c = Later-refl c

handle_all-Later :
    (io : Io) (hs : List Handler) (c : TcpConnection) → Yields (handle_all io hs c) (Later c)
handle_all-Later io [] c = Later-refl c
handle_all-Later io (h ∷ hs) c =
    Yields-bind (handle io h c) _ (Later c) (Later c) (handle-Later io h c)
      (λ c' v'. Later-Yields _ v' (handle_all-Later io hs c'))

pub apply-Later : (op : Op) (c : TcpConnection) → Yields (apply op c) (Later c)
unfolding build_connect destroy_connect dispatch force_close force_close_in_loop start_read_in_loop
    stop_read_in_loop
apply-Later builds c = Yields-check (status_eq c.status connecting) assertion _ (Later c) (λ e.
    let up : TcpConnection = record c { status = connected } in
    Yields-bind (channel_update enable_reading up) _ (Same up) (Later c)
      (channel_update-Same up.tag enable_reading up)
      (λ c' h. omega (
        arith,
        connecting_closed c.status e,
        h.closes,
        h.status,
        close_calls-append c'.calls (connection_cb ∷ []),
      )))
apply-Later destroys c = Same-Later _ c (destroy_connect-Same c)
apply-Later shuts_down c = Same-Later (ok (shutdown_in_loop c)) c (shutdown_in_loop-Same c)
apply-Later forces_close c = Same-Later (ok (force_close c)) c (force_close-Same c)
apply-Later force_closes c =
    Yields-if (status_eq c.status connected && status_eq c.status connecting) _ _ (Later c)
      (λ _. handle_close-Later c) (λ _. Later-refl c)
apply-Later starts_read c = Same-Later _ c (
    Yields-if (not c.reading || not c.events.reading) _ _ (Same c)
      (λ _.
        Yields-bind (channel_update enable_reading c) _ (Same c) (Same c)
          (channel_update-Same c.tag enable_reading c)
          (λ c' h. record { closes = h.closes; status = h.status }))
      (λ _. Same-refl c))
apply-Later stops_read c = Same-Later _ c (
    Yields-if (c.reading || c.events.reading) _ _ (Same c)
      (λ _.
        Yields-bind (channel_update disable_reading c) _ (Same c) (Same c)
          (channel_update-Same c.tag disable_reading c)
          (λ c' h. record { closes = h.closes; status = h.status }))
      (λ _. Same-refl c))
apply-Later (dispatches io r) c = handle_all-Later io (handle_event_guard callbacks r) c
apply-Later (sends bytes taken) c = Same-Later _ c (send-Same c bytes taken)

run-Later : (ops : List Op) (c : TcpConnection) → Yields (run ops c) (Later c)
unfolding run
run-Later [] c = Later-refl c
run-Later (op ∷ ops) c =
    Yields-bind (apply op c) (run ops) (Later c) (Later c) (apply-Later op c)
      (λ c' v'. Later-Yields _ v' (run-Later ops c'))

-- A new connection has not called it.
abbrev pub IsNew : TcpConnection → Type 0
IsNew c = (close_calls c.calls ≡ 0) × (closed c.status ≡ 0)

pub make-IsNew : Yields make IsNew
unfolding make
make-IsNew =
    Yields-next (Buffer.make initial_size_default) _ IsNew
      (λ input. Yields-next (Buffer.make initial_size_default) _ IsNew (λ output. (refl, refl)))

-- After any operations of a new connection that all return, `close_cb_` has been called once if the
-- connection is disconnected, and never if it is not.
pub close_once :
    (ops : List Op) (c : TcpConnection)
    → (make >>= run ops) ≡ ok c
    → close_calls c.calls ≡ closed c.status
close_once ops c e =
    Yields-ok (λ c. close_calls c.calls ≡ closed c.status)
      (Yields-bind make (run ops) IsNew (λ c. close_calls c.calls ≡ closed c.status) make-IsNew
        (λ c0 new.
          Yields-map (run ops c0) (run-Later ops c0) (λ c' later. omega (arith, later, new))))
      e
