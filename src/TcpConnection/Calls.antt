-- ===== src/TcpConnection/Calls.antt =====
-- The calls of `close_cb_` in src/server/tcpconnection.cc, and the operations that make none.
use Prim.Native.Nat.{ℕ}
use tiny_http_server.Prelude.{
  ◌≡◌, ◌+◌, ◌∙◌, Bool, true, false, List, [], ◌∷◌, ◌++◌, refl, arith, sym, ◌||◌, ◌&&◌, ltb, leb,
  not, if◌then◌else◌, ◌==◌, add_size, sub_size, length, drop,
}
use tiny_http_server.Prelude.Result.{
  Result, ok, fail, Yields, Yields-check, Yields-next, Yields-bind, Yields-if, assertion, ◌>>=◌,
}
use tiny_http_server.Prelude.Map.{Bytes}
use tiny_http_server.Buffer.{Transfer, failed, done, retrieve, append, read_able_bytes}
use tiny_http_server.Channel.{
  Change, PollTag, new, add, del, enable_writing, disable_writing, disable_all, is_none_event,
}
use tiny_http_server.TcpConnection.{
  TcpConnection, Call, connection_cb, message_cb, close_cb, queue_write_complete, queue_force_close,
  queue_high_water_mark, Status, disconnected, connecting, connected, disconnecting, status_eq,
  call, call_if, destroy_connect, handle_write, send, send_in_loop, send_now, send_rest,
  written_out, shutdown_in_loop, force_close, is_fault, channel_update_at, channel_update, is_new,
}

-- The calls of `close_cb_`.
abbrev pub close_calls : List Call → ℕ
close_calls [] = 0
close_calls (close_cb ∷ xs) = close_calls xs + 1
close_calls (connection_cb ∷ xs) = close_calls xs
close_calls (message_cb ∷ xs) = close_calls xs
close_calls (queue_write_complete ∷ xs) = close_calls xs
close_calls (queue_force_close ∷ xs) = close_calls xs
close_calls (queue_high_water_mark n ∷ xs) = close_calls xs

pub close_calls-append :
    (xs ys : List Call) → close_calls (xs ++ ys) ≡ close_calls xs + close_calls ys
close_calls-append [] ys = omega arith
close_calls-append (close_cb ∷ xs) ys = omega (arith, close_calls-append xs ys)
close_calls-append (connection_cb ∷ xs) ys = close_calls-append xs ys
close_calls-append (message_cb ∷ xs) ys = close_calls-append xs ys
close_calls-append (queue_write_complete ∷ xs) ys = close_calls-append xs ys
close_calls-append (queue_force_close ∷ xs) ys = close_calls-append xs ys
close_calls-append (queue_high_water_mark n ∷ xs) ys = close_calls-append xs ys

abbrev pub closed : Status → ℕ
closed disconnected = 1
closed _ = 0

pub connecting_closed : (s : Status) → status_eq s connecting ≡ true → closed s ≡ 0
connecting_closed connecting e = refl
connecting_closed connected e = refl
connecting_closed disconnecting e = refl
connecting_closed disconnected e = absurd cc

pub connected_closed : (s : Status) → status_eq s connected ≡ true → closed s ≡ 0
connected_closed connecting e = refl
connected_closed connected e = refl
connected_closed disconnecting e = refl
connected_closed disconnected e = absurd cc

pub starting_closed :
    (s : Status) → (status_eq s connected || status_eq s connecting) ≡ true → closed s ≡ 0
starting_closed connecting e = refl
starting_closed connected e = refl
starting_closed disconnecting e = refl
starting_closed disconnected e = absurd cc

pub open_closed :
    (s : Status) → (status_eq s connected || status_eq s disconnecting) ≡ true → closed s ≡ 0
open_closed connecting e = refl
open_closed connected e = refl
open_closed disconnecting e = refl
open_closed disconnected e = absurd cc

-- Nothing was closed in between.
pub record Same (c c' : TcpConnection) : Type 0 where
  pub closes : close_calls c'.calls ≡ close_calls c.calls
  pub status : closed c'.status ≡ closed c.status

pub Same-refl : (c : TcpConnection) → Same c c
Same-refl c = record { closes = refl; status = refl }

Same-trans : {a b c : TcpConnection} → Same a b → Same b c → Same a c
Same-trans h k = record { closes = k.closes ∙ h.closes; status = k.status ∙ h.status }

-- One of the other calls.
called-Same : (c : TcpConnection) (x : Call) → close_calls (x ∷ []) ≡ 0 → Same c (call x c)
called-Same c x e = record {
  closes = omega (arith, e, close_calls-append c.calls (x ∷ []));
  status = refl;
}

pub if-Same :
    {c : TcpConnection} (b : Bool) (x y : TcpConnection)
    → (b ≡ true → Same c x)
    → Same c y
    → Same c (if b then x else y)
if-Same true x y p q = p refl
if-Same false x y p q = q

call_if-Same :
    (c : TcpConnection) (b : Bool) (x : Call) → close_calls (x ∷ []) ≡ 0 → Same c (call_if b x c)
call_if-Same c true x e = called-Same c x e
call_if-Same c false x e = Same-refl c

pub shutdown_in_loop-Same : (c : TcpConnection) → Same c (shutdown_in_loop c)
unfolding shutdown_in_loop
shutdown_in_loop-Same c =
    if-Same (status_eq c.status connected) _ _
      (λ e. record { closes = refl; status = sym (connected_closed c.status e) }) (Same-refl c)

Same-Yields :
    {a b : TcpConnection} (r : Result TcpConnection)
    → Same a b
    → Yields r (Same b)
    → Yields r (Same a)
Same-Yields (fail fault) h k = tt
Same-Yields (ok c) h k = Same-trans h k

pub channel_update-Same :
    (t : PollTag) (x : Change) (c : TcpConnection) → Yields (channel_update_at t x c) (Same c)
unfolding channel_update_at
channel_update-Same new x c = record { closes = refl; status = refl }
channel_update-Same add x c = record { closes = refl; status = refl }
channel_update-Same del x c = tt

send_rest-Same : (c : TcpConnection) (rest : Bytes) → Yields (send_rest c rest) (Same c)
unfolding send_rest
send_rest-Same c rest =
    let old_len = read_able_bytes c.output in
    let new_len = add_size old_len (length rest) in
    let over =
      leb c.high_water_mark new_len && (ltb old_len c.high_water_mark && c.high_water_mark_set) in
    let full = call_if over (queue_high_water_mark new_len) c in
    let h = call_if-Same c over (queue_high_water_mark new_len) refl in
    Yields-if (ltb 0 (length rest)) _ _ (Same c)
      (λ _. Yields-next (append c.output rest) _ (Same c) (λ output.
        let c' : TcpConnection = record full { output = output } in
        let h' : Same c c' = record { closes = h.closes; status = h.status } in
        Yields-if c.events.writing _ _ (Same c) (λ _. h')
          (λ _. Same-Yields _ h' (channel_update-Same c'.tag enable_writing c'))))
      (λ _. Same-refl c)

send_now-Same :
    (c : TcpConnection) (bytes : Bytes) (t : Transfer ℕ) → Yields (send_now c bytes t) (Same c)
unfolding send_now
send_now-Same c bytes (failed errno) =
    Yields-if (is_fault errno) _ _ (Same c) (λ _. Same-refl c) (λ _. send_rest-Same c bytes)
send_now-Same c bytes (done n) =
    let remaining = sub_size (length bytes) n in
    let complete = (remaining == 0) && c.write_complete_set in
    Yields-check (leb remaining (length bytes)) assertion _ (Same c) (λ _.
      Same-Yields _ (call_if-Same c complete queue_write_complete refl)
        (send_rest-Same (call_if complete queue_write_complete c) (drop n bytes)))

pub send-Same :
    (c : TcpConnection) (bytes : Bytes) (t : Transfer ℕ) → Yields (send c bytes t) (Same c)
unfolding send send_in_loop
send-Same c bytes t =
    Yields-if (status_eq c.status connected) _ _ (Same c)
      (λ _.
        Yields-if (status_eq c.status disconnected) _ _ (Same c) (λ _. Same-refl c)
          (λ _.
            Yields-if (not c.events.writing && (read_able_bytes c.output == 0)) _ _ (Same c)
              (λ _. send_now-Same c bytes t) (λ _. send_rest-Same c bytes)))
      (λ _. Same-refl c)

written_out-Same : (c : TcpConnection) → Yields (written_out c) (Same c)
unfolding written_out
written_out-Same c =
    Yields-bind (channel_update disable_writing c) _ (Same c) (Same c)
      (channel_update-Same c.tag disable_writing c)
      (λ off h.
        let c' = call_if c.write_complete_set queue_write_complete off in
        let h' : Same c c' =
          Same-trans h (call_if-Same off c.write_complete_set queue_write_complete refl) in
        if-Same (status_eq c'.status disconnecting) _ _
          (λ _. Same-trans h' (shutdown_in_loop-Same c')) h')

pub handle_write-Same : (c : TcpConnection) (t : Transfer ℕ) → Yields (handle_write c t) (Same c)
unfolding handle_write
handle_write-Same c (failed e) = Same-refl c
handle_write-Same c (done n) =
    Yields-if (c.events.writing && ltb 0 n) _ _ (Same c)
      (λ _. Yields-next (retrieve c.output n) _ (Same c) (λ output.
        let c' : TcpConnection = record c { output = output } in
        let h : Same c c' = record { closes = refl; status = refl } in
        Yields-if (read_able_bytes output == 0) _ _ (Same c)
          (λ _. Same-Yields _ h (written_out-Same c')) (λ _. h)))
      (λ _. Same-refl c)

pub force_close-Same : (c : TcpConnection) → Same c (force_close c)
unfolding force_close
force_close-Same c =
    let c' : TcpConnection = record c { status = disconnecting } in
    if-Same (status_eq c.status connected || status_eq c.status connecting) _ _
      (λ e.
        Same-trans (record { closes = refl; status = sym (starting_closed c.status e) })
          (called-Same c' queue_force_close refl))
      (Same-refl c)

pub destroy_connect-Same : (c : TcpConnection) → Yields (destroy_connect c) (Same c)
unfolding destroy_connect
destroy_connect-Same c =
    let down : TcpConnection = record c { status = disconnecting } in
    Yields-bind
      (if status_eq c.status connected
        then (channel_update disable_all down >>= λ d. ok (call connection_cb d))
        else ok c)
      _ (Same c) (Same c)
      (Yields-if (status_eq c.status connected) _ _ (Same c)
        (λ e.
          Yields-bind (channel_update disable_all down) _ (Same down) (Same c)
            (channel_update-Same down.tag disable_all down)
            (λ d h.
              let start : Same c down = record {
                closes = refl;
                status = sym (connected_closed c.status e);
              } in
              Same-trans (Same-trans start h) (called-Same d connection_cb refl)))
        (λ _. Same-refl c))
      (λ c' h. Yields-check (is_none_event c'.events) assertion _ (Same c) (λ _.
        Yields-check (not (is_new c'.tag)) assertion _ (Same c)
          (λ _. record { closes = h.closes; status = h.status })))
