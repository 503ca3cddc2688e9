-- ===== src/TcpConnection/Sending.antt =====
-- The order of what is sent over src/server/tcpconnection.cc: what the kernel takes, and what waits
-- in the output buffer.
use Prim.Native.Nat.{ℕ}
use tiny_http_server.Prelude.{
  ◌≡◌, ◌≤◌, ◌<◌, ◌+◌, ◌-◌, ◌∙◌, Bool, true, false, [], ◌∷◌, ◌++◌, refl, arith, ◌==◌, ltb, leb,
  Bool-cases, inl, inr, ap, sym, subst, length, take, drop, length-drop, take-append-drop,
  append-nil, if_true, if_false, not, ◌&&◌, ◌||◌, if◌then◌else◌, sub_size, add_size,
}
use mathlib.Core.Bool.{false≢true}
use tiny_http_server.Prelude.Result.{ok, Returns, ◌>>=◌}
use tiny_http_server.Prelude.Map.{Bytes}
use tiny_http_server.Buffer.{
  Buffer, done, read_able_bytes, max_size, retrieve, peek_string, retrieve_all,
}
use tiny_http_server.Buffer.Bounds.{IsValid, view, length-view, read_able_bytes_lem}
use tiny_http_server.Buffer.View.{append-Shows, retrieve-Shows}
use tiny_http_server.Channel.{
  Events, Change, add, del, disable_writing, enable_writing, change, is_none_event,
}
use tiny_http_server.TcpConnection.{
  TcpConnection, call, disconnected, connected, disconnecting, send, send_in_loop, send_buffer,
  send_now, send_rest, handle_write, call_if, status_eq, written_out, shutdown_in_loop,
  queue_write_complete, queue_high_water_mark, channel_update_at, channel_update,
}

-- The channel is in the poller, and the output buffer is valid, and empty unless the channel waits to
-- write.
pub record IsWaiting (c : TcpConnection) : Type 0 where
  pub added : c.tag ≡ add
  pub valid : IsValid c.output
  pub idle : c.events.writing ≡ false → view c.output ≡ []

-- A change of a channel that is in the poller, and keeps an event.
channel_update-added :
    (x : Change) (c : TcpConnection)
    → c.tag ≡ add
    → is_none_event (change x c.events) ≡ false
    → channel_update x c ≡ ok (record c { events = change x c.events; tag = add })
unfolding channel_update_at
channel_update-added x c here some_event =
    ap (λ t. channel_update_at t x c) here
    ∙ ap (λ b. ok (record c { events = change x c.events; tag = if b then del else add }))
        some_event

enable_writing-some : (e : Events) → is_none_event (change enable_writing e) ≡ false
unfolding is_none_event
enable_writing-some e = ground arith

-- `send_rest` puts the bytes behind those that wait.
send_rest-view :
    (c : TcpConnection) (rest : Bytes)
    → IsWaiting c
    → c.output.writer_index + length rest ≤ max_size
    → Returns (send_rest c rest) (λ c'. IsWaiting c' × (view c'.output ≡ view c.output ++ rest))
unfolding send_rest
send_rest-view c [] h room = (c, refl, (h, sym (append-nil (view c.output))))
send_rest-view c (x ∷ xs) h room =
    let (output, e, s) = append-Shows h.valid (x ∷ xs) room in
    let old_len : ℕ = read_able_bytes c.output in
    let new_len : ℕ = add_size old_len (length (x ∷ xs)) in
    let over : Bool =
      leb c.high_water_mark new_len && (ltb old_len c.high_water_mark && c.high_water_mark_set) in
    let more : ltb 0 (length (x ∷ xs)) ≡ true = ground arith in
    let c' : TcpConnection = record (call_if over (queue_high_water_mark new_len) c) {
      output = output;
    } in
    elim (Bool-cases c.events.writing) [
      | inl on ↦ (
        c',
        rw (more, e) (if_true _ _ _ on),
        (
          record {
            added = h.added;
            valid = s.valid;
            idle = λ off. absurd (false≢true (sym off ∙ on));
          },
          s.shown,
        ),
      )
      | inr off ↦ (
        record c' { events = change enable_writing c.events; tag = add },
        rw (more, e)
            (if_false _ _ _ off
              ∙ channel_update-added enable_writing c' h.added (enable_writing-some c.events)),
        (
          record { added = refl; valid = s.valid; idle = λ off'. absurd (false≢true (sym off')) },
          s.shown,
        ),
      )
    ]

-- what the kernel has taken of what was sent
abbrev pub sent : TcpConnection → Bytes → ℕ → Bytes
sent c bytes n = if c.events.writing then [] else take n bytes

sent_now :
    (c : TcpConnection) (bytes : Bytes) (n : ℕ)
    → IsWaiting c
    → n ≤ length bytes
    → length bytes ≤ max_size
    → c.output.writer_index + length bytes ≤ max_size
    → Returns
        (send_now c bytes (done n))
        (λ c'. IsWaiting c' × (view c'.output ≡ view c.output ++ drop n bytes))
unfolding send_now
sent_now c bytes n h some_of small room =
    let left : length (drop n bytes) ≡ length bytes - n = length-drop n bytes in
    let fits : leb (sub_size (length bytes) n) (length bytes) ≡ true = ground arith in
    elim (Bool-cases ((sub_size (length bytes) n == 0) && c.write_complete_set)) [
      | inl all ↦
          rw (fits, all)
            (send_rest-view (call queue_write_complete c) (drop n bytes)
              (record { added = h.added; valid = h.valid; idle = h.idle }) (omega (arith, left)))
      | inr some_left ↦
          rw (fits, some_left) (send_rest-view c (drop n bytes) h (omega (arith, left)))
    ]

-- which of the two ends of `send` runs
send_up :
    (c : TcpConnection) (bytes : Bytes) (n : ℕ)
    → c.status ≡ connected
    → send c bytes (done n) ≡ (
        if not c.events.writing && (read_able_bytes c.output == 0)
        then send_now c bytes (done n)
        else send_rest c bytes)
unfolding send send_in_loop
send_up c bytes n up =
    if_true (status_eq c.status connected) _ _ (ap (λ s. status_eq s connected) up)
    ∙ if_false (status_eq c.status disconnected) _ _ (ap (λ s. status_eq s disconnected) up)

-- Sending on a connection that is up, whose channel is in the poller and whose output is valid and
-- empty unless the channel waits to write, with room for the bytes: what the kernel takes of them and
-- what then waits in the output buffer are what waited before and the new bytes, in order; and bytes
-- wait only while the channel waits to write; the channel stays in the poller.
pub send_in_order :
    (c : TcpConnection) (bytes : Bytes) (n : ℕ)
    → IsWaiting c
    → c.status ≡ connected
    → n ≤ length bytes
    → c.output.writer_index + length bytes ≤ max_size
    → Returns
        (send c bytes (done n))
        (λ c'. IsWaiting c' × (sent c bytes n ++ view c'.output ≡ view c.output ++ bytes))
send_in_order c bytes n h up some_of room = elim (Bool-cases c.events.writing) [
  | inl waits ↦
      let (c', e, (w, shown)) = send_rest-view c bytes h room in
      let busy : (not c.events.writing && (read_able_bytes c.output == 0)) ≡ false =
        ap (λ b. not b && (read_able_bytes c.output == 0)) waits in
      let nothing : sent c bytes n ≡ [] = if_true c.events.writing [] (take n bytes) waits in
      (
        c',
        send_up c bytes n up ∙ if_false _ _ _ busy ∙ e,
        (w, ap (λ t. t ++ view c'.output) nothing ∙ shown),
      )
  | inr idle ↦
      let empty : view c.output ≡ [] = h.idle idle in
      let none_left : (read_able_bytes c.output == 0) ≡ true =
        ground (arith, read_able_bytes_lem h.valid, length-view h.valid, ap length empty) in
      let free : (not c.events.writing && (read_able_bytes c.output == 0)) ≡ true =
        ap (λ b. not b && (read_able_bytes c.output == 0)) idle ∙ none_left in
      let (c', e, (w, shown)) = sent_now c bytes n h some_of (omega arith) room in
      (
        c',
        send_up c bytes n up ∙ if_true _ _ _ free ∙ e,
        (
          w,
          ap (λ t. t ++ view c'.output) (if_false c.events.writing [] (take n bytes) idle)
              ∙ ap (λ t. take n bytes ++ t) (shown ∙ ap (λ t. t ++ drop n bytes) empty)
              ∙ take-append-drop n bytes
              ∙ ap (λ t. t ++ bytes) (sym empty),
        ),
      )
]

-- The same for a whole buffer, which is emptied.
pub send_buffer_in_order :
    (c : TcpConnection) (buff : Buffer) (n : ℕ)
    → IsWaiting c
    → IsValid buff
    → c.status ≡ connected
    → n ≤ length (view buff)
    → c.output.writer_index + length (view buff) ≤ max_size
    → Returns (send_buffer c buff (done n)) (λ r.
      IsWaiting r.0
      × (sent c (view buff) n ++ view r.0.output ≡ view c.output ++ view buff)
      × (view r.1 ≡ []))
unfolding send_buffer retrieve_all send
send_buffer_in_order c buff n h v up some_of room =
    let (c', e, (w, shown)) = send_in_order c (view buff) n h up some_of room in
    let here : status_eq c.status connected ≡ true = ap (λ s. status_eq s connected) up in
    let whole : peek_string buff (read_able_bytes buff) ≡ view buff =
      ap (peek_string buff) (read_able_bytes_lem v) in
    let in_loop : send_in_loop c (view buff) (done n) ≡ ok c' = sym (if_true _ _ _ here) ∙ e in
    (
      (c', retrieve_all buff),
      if_true _ _ _ here
          ∙ ap (λ t. send_in_loop c t (done n) >>= λ d. ok (d, retrieve_all buff)) whole
          ∙ ap (λ t. t >>= λ d. ok (d, retrieve_all buff)) in_loop,
      (w, shown, refl),
    )

length_zero : (xs : Bytes) → (length xs == 0) ≡ true → xs ≡ []
length_zero [] h = refl
length_zero (x ∷ xs) h = absurd (ground arith)

-- the output of `c`, and a channel in the poller that does not wait to write
abbrev Stopped : TcpConnection → TcpConnection → Type 0
Stopped c c' = (c'.output ≡ c.output) × (c'.events.writing ≡ false) × (c'.tag ≡ add)

if-Stopped :
    (c : TcpConnection) (b : Bool) (x y : TcpConnection)
    → Stopped c x
    → Stopped c y
    → Stopped c (if b then x else y)
if-Stopped c true x y p q = p
if-Stopped c false x y p q = q

written_out-Stopped :
    (c : TcpConnection)
    → c.tag ≡ add
    → c.events.reading ≡ true
    → Returns (written_out c) (Stopped c)
unfolding written_out shutdown_in_loop is_none_event
written_out-Stopped c here reads =
    let off : TcpConnection = record c { events = change disable_writing c.events; tag = add } in
    let c' : TcpConnection = call_if c.write_complete_set queue_write_complete off in
    (
      if status_eq c'.status disconnecting then shutdown_in_loop c' else c',
      ap
          (λ r. r >>= λ d.
            let d' = call_if c.write_complete_set queue_write_complete d in
            ok (if status_eq d'.status disconnecting then shutdown_in_loop d' else d'))
          (channel_update-added disable_writing c here (ap (λ b. not (b || false)) reads)),
      if-Stopped c (status_eq c'.status disconnecting) _ _
          (if-Stopped c (status_eq c'.status connected) _ _ (refl, refl, refl) (refl, refl, refl))
          (refl, refl, refl),
    )

pub handle_write_step :
    (c : TcpConnection) (n : ℕ) (output : Buffer)
    → c.events.writing ≡ true
    → ltb 0 n ≡ true
    → retrieve c.output n ≡ ok output
    → handle_write c (done n) ≡ (
        if read_able_bytes output == 0
        then written_out (record c { output = output })
        else ok (record c { output = output }))
unfolding handle_write
handle_write_step c n output waits more e =
    if_true (c.events.writing && ltb 0 n) _ _ (ap (λ b. b && ltb 0 n) waits ∙ more) ∙ rw e refl

-- A write of the first pending bytes, on a connection whose channel is in the poller, is read and
-- waits to write, and whose output is valid: it takes exactly these bytes off the output, keeps the
-- channel in the poller, and the channel waits to write after it exactly if bytes are left.
pub handle_write_in_order :
    (c : TcpConnection) (n : ℕ)
    → IsWaiting c
    → c.events.reading ≡ true
    → c.events.writing ≡ true
    → 0 < n
    → n ≤ length (view c.output)
    → Returns (handle_write c (done n)) (λ c'.
      IsWaiting c'
      × (take n (view c.output) ++ view c'.output ≡ view c.output)
      × (c'.events.writing ≡ not (length (view c'.output) == 0)))
handle_write_in_order c n h reads waits some_bytes enough =
    let (output, e, s) = retrieve-Shows h.valid n enough in
    let c1 : TcpConnection = record c { output = output } in
    let more : ltb 0 n ≡ true = ground arith in
    let rest : take n (view c.output) ++ view output ≡ view c.output =
      ap (λ t. take n (view c.output) ++ t) s.shown ∙ take-append-drop n (view c.output) in
    let size : read_able_bytes output ≡ length (view output) =
      read_able_bytes_lem s.valid ∙ sym (length-view s.valid) in
    elim (Bool-cases (read_able_bytes output == 0)) [
      | inl all ↦
          let (c', written, (same, off, here)) = written_out-Stopped c1 h.added reads in
          let empty : view output ≡ [] = length_zero (view output) (ground (arith, size)) in
          (
            c',
            handle_write_step c n output waits more e ∙ if_true _ _ _ all ∙ written,
            (
              record {
                added = here;
                valid = subst IsValid (sym same) s.valid;
                idle = λ h. ap view same ∙ empty;
              },
              ap (λ b. take n (view c.output) ++ view b) same ∙ rest,
              off
                  ∙ sym (
                      ap (λ b. not (length (view b) == 0)) same
                      ∙ ap (λ t. not (length t == 0)) empty),
            ),
          )
      | inr left ↦
          let some_left : (length (view output) == 0) ≡ false = ground (arith, size) in
          (
            c1,
            handle_write_step c n output waits more e ∙ if_false _ _ _ left,
            (
              record {
                added = h.added;
                valid = s.valid;
                idle = λ h. absurd (false≢true (sym h ∙ waits));
              },
              rest,
              waits ∙ sym (ap not some_left),
            ),
          )
    ]
