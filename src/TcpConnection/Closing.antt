-- ===== src/TcpConnection/Closing.antt =====
-- `force_close` and `shutdown` of src/server/tcpconnection.cc.
use tiny_http_server.Prelude.{
  ℕ, ◌≡◌, ◌≢◌, ◌≤◌, ◌<◌, ◌||◌, ◌&&◌, ◌∙◌, ap, not, Bool, true, false, refl, arith, ◌==◌, Bool-cases,
  if_true, if_false, inl, inr, length,
}
use tiny_http_server.Prelude.Result.{Returns}
use tiny_http_server.Channel.{add}
use tiny_http_server.Buffer.{done, read_able_bytes}
use tiny_http_server.Buffer.Bounds.{IsValid, view}
use tiny_http_server.Buffer.View.{retrieve-Shows}
use tiny_http_server.TcpConnection.Sending.{handle_write_step}
use tiny_http_server.TcpConnection.{
  TcpConnection, Status, connected, connecting, disconnecting, disconnected, force_close,
  force_close_in_loop, handle_write, written_out, shutdown_in_loop, status_eq, call,
  queue_force_close, channel_update_at,
}

pub never_both : (s : Status) → (status_eq s connected && status_eq s connecting) ≡ false
never_both disconnected = refl
never_both connecting = refl
never_both connected = refl
never_both disconnecting = refl

-- `force_close`, run to its end, closes nothing: a connection that was not disconnected is not
-- disconnected after it, and its channel waits for the same events.
pub force_close_lem :
    (c : TcpConnection)
    → c.status ≢ disconnected
    → Returns
        (force_close_in_loop (force_close c))
        (λ c'. (c'.status ≢ disconnected) × (c'.events ≡ c.events))
unfolding force_close force_close_in_loop
force_close_lem c up =
    elim (Bool-cases (status_eq c.status connected || status_eq c.status connecting)) [
      | inl open_ ↦ (
        call queue_force_close (record c { status = disconnecting }),
        rw open_ refl,
        (λ e. cc, refl),
      )
      | inr closing ↦ (c, rw (closing, never_both c.status) refl, (up, refl))
    ]

written_out_shut :
    (c : TcpConnection)
    → c.tag ≡ add
    → c.status ≡ disconnecting
    → Returns (written_out c) (λ c'. (c'.status ≡ disconnecting) × (c'.shut ≡ c.shut))
unfolding written_out shutdown_in_loop channel_update_at
written_out_shut c here e = rw (here, e) (_, refl, (refl, refl))

or_false : (b : Bool) → (b || false) ≡ b
or_false true = refl
or_false false = refl

-- Where output is pending when the connection, whose channel is in the poller, is shut down, the write that completes it does not
-- shut the socket down.
pub shutdown_pending :
    (c : TcpConnection) (n : ℕ)
    → IsValid c.output
    → c.tag ≡ add
    → c.status ≡ connected
    → c.events.writing ≡ true
    → 0 < n
    → n ≤ length (view c.output)
    → Returns
        (handle_write (shutdown_in_loop c) (done n))
        (λ c'. (c'.status ≡ disconnecting) × (c'.shut ≡ c.shut))
unfolding shutdown_in_loop
shutdown_pending c n v here up pending some_bytes h =
    let (output, e, s) = retrieve-Shows v n h in
    let down : TcpConnection = record c {
      status = disconnecting;
      shut = c.shut || not c.events.writing;
    } in
    let same : down.shut ≡ c.shut = ap (λ b. c.shut || not b) pending ∙ or_false c.shut in
    let (c', written, (status, shut)) =
      written_out_shut (record down { output = output }) here refl in
    let goes_down : shutdown_in_loop c ≡ down =
      if_true (status_eq c.status connected) _ _ (ap (λ s. status_eq s connected) up) in
    let first =
      ap (λ d. handle_write d (done n)) goes_down
      ∙ handle_write_step down n output pending (ground arith) e in
    elim (Bool-cases (read_able_bytes output == 0)) [
      | inl all ↦ (c', first ∙ if_true _ _ _ all ∙ written, (status, shut ∙ same))
      | inr left ↦ (record down { output = output }, first ∙ if_false _ _ _ left, (refl, same))
    ]
