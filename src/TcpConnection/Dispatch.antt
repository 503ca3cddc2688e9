-- ===== src/TcpConnection/Dispatch.antt =====
-- A round of events on a connection of src/server/tcpconnection.cc that is closed twice.
use tiny_http_server.Prelude.{
  ◌≡◌, ◌⊎◌, ◌∙◌, Bool, true, false, List, [], ◌++◌, refl, ap, ◌||◌, ◌&&◌, not, inl, inr, some,
}
use tiny_http_server.Prelude.Result.{Result, ok, fail, ◌>>=◌, ◌>>◌, check, Returns, assertion}
use tiny_http_server.Buffer.{done}
use tiny_http_server.Channel.{
  Revents, PollTag, new, add, del, Change, disable_all, handle_event_guard, called,
}
use tiny_http_server.TcpConnection.{
  TcpConnection, connected, disconnecting, disconnected, status_eq, handle_read, handle_close,
  channel_update_at, channel_update, call, connection_cb, close_cb,
}
use tiny_http_server.TcpConnection.Ops.{
  Io, Handler, reads, writes, closes, errors, handle, handle_all, dispatch,
}

-- the events of a channel that is closed and those that it is read at
abbrev pub to_close : Revents → Bool
to_close r = r.pollhup && not r.pollin

abbrev pub to_read : Revents → Bool
to_read r = r.pollin || (r.pollpri || r.pollrdhup)

called_on :
    (io : Io) (b : Bool) (h : Handler) (ks : List Handler) (c : TcpConnection)
    → b ≡ true
    → handle_all io (called b (some h) ++ ks) c ≡ (handle io h c >>= handle_all io ks)
called_on io true h ks c e = refl
called_on io false h ks c e = absurd cc

-- A change of the channel fails or keeps the status.
channel_update_cases :
    (t : PollTag) (x : Change) (c : TcpConnection)
    → (channel_update_at t x c ≡ fail assertion)
      ⊎ Returns (channel_update_at t x c) (λ c'. c'.status ≡ c.status)
unfolding channel_update_at
channel_update_cases new x c = inr (_, refl, refl)
channel_update_cases add x c = inr (_, refl, refl)
channel_update_cases del x c = inl refl

-- what `handle_close` does with the change of the channel
abbrev close_rest : Result TcpConnection → Result TcpConnection
close_rest r = r >>= λ c. ok (call close_cb (call connection_cb c))

handle_close_cases :
    (c : TcpConnection)
    → (status_eq c.status connected || status_eq c.status disconnecting) ≡ true
    → (handle_close c ≡ fail assertion) ⊎ Returns (handle_close c) (λ c'. c'.status ≡ disconnected)
unfolding handle_close
handle_close_cases c up =
    let down : TcpConnection = record c { status = disconnected } in
    let update = channel_update disable_all down in
    let tested = ap (λ b. check b assertion >> close_rest update) up in
    elim (channel_update_cases down.tag disable_all down) [
      | inl fails ↦ inl (tested ∙ ap close_rest fails)
      | inr (c', e, status) ↦
          inr (call close_cb (call connection_cb c'), tested ∙ ap close_rest e, status)
    ]

handle_close_down :
    (c : TcpConnection) → c.status ≡ disconnected → handle_read c (done []) ≡ fail assertion
unfolding handle_close handle_read
handle_close_down c e =
    ap
      (λ s.
        check (status_eq s connected || status_eq s disconnecting) assertion
        >> close_rest (channel_update disable_all (record c { status = disconnected })))
      e

and_true : (a b : Bool) → (a && b) ≡ true → (a ≡ true) × (b ≡ true)
and_true true b e = (refl, e)
and_true false b e = absurd cc

errors_skip :
    (io : Io) (b : Bool) (ks : List Handler) (c : TcpConnection)
    → handle_all io (called b (some errors) ++ ks) c ≡ handle_all io ks c
errors_skip io true ks c = refl
errors_skip io false ks c = refl

-- If the peer of an open connection has hung up and its channel is also to be read, although not with
-- POLLIN, and the read comes to the end, then the connection is closed twice, and an assertion fails:
-- that on its status the second time, unless that of the poller did the first time.
pub dispatch_twice :
    (c : TcpConnection) (io : Io) (r : Revents)
    → (status_eq c.status connected || status_eq c.status disconnecting) ≡ true
    → (to_close r && to_read r) ≡ true
    → io.received ≡ done []
    → dispatch io r c ≡ fail assertion
unfolding dispatch handle_event_guard
dispatch_twice c io r up both ends =
    let (hup, reads_) = and_true (to_close r) (to_read r) both in
    let tail = called (to_read r) (some reads) ++ called r.pollout (some writes) in
    let middle = called (r.pollerr || r.pollnval) (some errors) ++ tail in
    let rest = called_on io (to_close r) closes middle c hup in
    elim (handle_close_cases c up) [
      | inl fails ↦ rest ∙ ap (λ t. t >>= handle_all io middle) fails
      | inr (c', e, down) ↦
          rest
          ∙ ap (λ t. t >>= handle_all io middle) e
          ∙ errors_skip io (r.pollerr || r.pollnval) tail c'
          ∙ called_on io (to_read r) reads (called r.pollout (some writes)) c' reads_
          ∙ ap (λ t. handle_read c' t >>= handle_all io (called r.pollout (some writes))) ends
          ∙ ap (λ t. t >>= handle_all io (called r.pollout (some writes)))
              (handle_close_down c' down)
    ]
