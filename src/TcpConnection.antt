-- ===== src/TcpConnection.antt =====
-- `TcpConnection` of src/server/tcpconnection.h and src/server/tcpconnection.cc: the states of a
-- connection and its output. What the kernel returns is an argument; everything runs in the loop.
pub mod Ops
pub mod Calls
pub mod Life
pub mod Dispatch
pub mod Sending
pub mod Closing
mod Tests
use Prim.Native.Nat.{ℕ}
use tiny_http_server.Prelude.{
  ◌+◌, ◌*◌, Bool, true, false, List, [], ◌∷◌, ◌++◌, ltb, leb, ◌==◌, if◌then◌else◌, ◌||◌, ◌&&◌, not,
  length, drop, some, sub_size, add_size,
}
use tiny_http_server.Prelude.Result.{Result, ok, fail, ◌>>=◌, ◌>>◌, check, assertion}
use tiny_http_server.Prelude.Map.{Bytes}
use tiny_http_server.Buffer.{
  Buffer, Transfer, failed, done, append, retrieve, read_able_bytes, read_fd, peek_string,
  retrieve_all,
}
use tiny_http_server.Channel.{
  Events, PollTag, new, add, del, Change, change, enable_reading, disable_reading, enable_writing,
  disable_writing, disable_all, is_none_event,
}

pub data Status : Type 0 where
  disconnected connecting connected disconnecting : Status

abbrev pub status_eq : Status → Status → Bool
status_eq disconnected disconnected = true
status_eq disconnected connecting = false
status_eq disconnected connected = false
status_eq disconnected disconnecting = false
status_eq connecting disconnected = false
status_eq connecting connecting = true
status_eq connecting connected = false
status_eq connecting disconnecting = false
status_eq connected disconnected = false
status_eq connected connecting = false
status_eq connected connected = true
status_eq connected disconnecting = false
status_eq disconnecting disconnected = false
status_eq disconnecting connecting = false
status_eq disconnecting connected = false
status_eq disconnecting disconnecting = true

-- What the connection calls or queues, in order. The callbacks are not part of the model, which is
-- about runs in which those that are called return and do not act on the connection themselves.
pub data Call : Type 0 where
  connection_cb message_cb close_cb queue_write_complete queue_force_close : Call
  queue_high_water_mark : ℕ → Call

-- `events` and `tag` are `events_` and `status_` of its channel; `shut` says that the socket was shut down for writing.
pub record TcpConnection : Type 0 where
  pub status : Status
  pub reading : Bool
  pub events : Events
  pub tag : PollTag
  pub input : Buffer
  pub output : Buffer
  pub high_water_mark : ℕ
  pub write_complete_set : Bool
  pub high_water_mark_set : Bool
  pub shut : Bool
  pub calls : List Call

abbrev pub call : Call → TcpConnection → TcpConnection
call x c = record c { calls = c.calls ++ x ∷ [] }

abbrev pub call_if : Bool → Call → TcpConnection → TcpConnection
call_if b x c = record c { calls = if b then c.calls ++ x ∷ [] else c.calls }

-- A change of `events_` and `Channel::update_`, which ends in `Epoller::update_channel`: that adds a
-- new channel to its map, whose descriptor the map does not hold yet, and takes a channel without
-- events out of the kernel, but not out of the map. Its assertion on a channel that comes back from
-- there, that the map does not hold it, fails.
unfoldable pub channel_update_at : PollTag → Change → TcpConnection → Result TcpConnection
channel_update_at new x c = ok (record c { events = change x c.events; tag = add })
channel_update_at add x c =
    let events = change x c.events in
    ok (record c { events = events; tag = if is_none_event events then del else add })
channel_update_at del x c = fail assertion

abbrev pub channel_update : Change → TcpConnection → Result TcpConnection
channel_update x c = channel_update_at c.tag x c

abbrev pub is_new : PollTag → Bool
is_new new = true
is_new add = false
is_new del = false

unfoldable pub build_connect : TcpConnection → Result TcpConnection
unfolding channel_update_at
build_connect c = do
  check (status_eq c.status connecting) assertion
  c' ← channel_update enable_reading (record c { status = connected })
  ok (call connection_cb c')

-- `Channel::remove` at its end asserts that no event is left, and the poller that its map holds the
-- channel.
unfoldable pub destroy_connect : TcpConnection → Result TcpConnection
unfolding channel_update_at
destroy_connect c = do
  c' ←
      if status_eq c.status connected
      then (do
        down ← channel_update disable_all (record c { status = disconnecting })
        ok (call connection_cb down))
      else ok c
  check (is_none_event c'.events) assertion
  check (not (is_new c'.tag)) assertion
  ok (record c' { tag = new })

unfoldable pub handle_close : TcpConnection → Result TcpConnection
unfolding channel_update_at
handle_close c = do
  check (status_eq c.status connected || status_eq c.status disconnecting) assertion
  c' ← channel_update disable_all (record c { status = disconnected })
  ok (call close_cb (call connection_cb c'))

-- What `read_fd` returned, and the input buffer after it.
unfoldable pub handle_read : TcpConnection → Transfer Bytes → Result TcpConnection
handle_read c (failed e) = ok c
handle_read c (done []) = handle_close c
handle_read c (done (x ∷ xs)) = do
  r ← read_fd c.input (done (x ∷ xs)) 0
  ok (call message_cb (record c { input = r.0 }))

unfoldable pub shutdown_in_loop : TcpConnection → TcpConnection
shutdown_in_loop c =
    if status_eq c.status connected
    then record c { status = disconnecting; shut = c.shut || not c.events.writing }
    else c

-- What follows when the output has been written out.
unfoldable pub written_out : TcpConnection → Result TcpConnection
unfolding channel_update_at
written_out c = do
  off ← channel_update disable_writing c
  let c' = call_if c.write_complete_set queue_write_complete off
  ok (if status_eq c'.status disconnecting then shutdown_in_loop c' else c')

unfoldable pub handle_write : TcpConnection → Transfer ℕ → Result TcpConnection
handle_write c (failed e) = ok c
handle_write c (done n) =
    if c.events.writing && ltb 0 n
    then (do
      output ← retrieve c.output n
      let c' : TcpConnection = record c { output = output }
      if read_able_bytes output == 0 then written_out c' else ok c')
    else ok c

-- `EPIPE` and `ECONNRESET`
abbrev pub is_fault : ℕ → Bool
is_fault errno = (errno == 32) || (errno == 104)

-- The end of `send_in_loop_`, for the bytes that the kernel has not taken.
unfoldable pub send_rest : TcpConnection → Bytes → Result TcpConnection
unfolding channel_update_at
send_rest c rest =
    let old_len = read_able_bytes c.output in
    let remaining = length rest in
    let over =
      leb c.high_water_mark (add_size old_len remaining)
      && (ltb old_len c.high_water_mark && c.high_water_mark_set) in
    if ltb 0 remaining
    then (do
      output ← append c.output rest
      let c' : TcpConnection =
          record (call_if over (queue_high_water_mark (add_size old_len remaining)) c) {
            output = output;
          }
      if c.events.writing then ok c' else channel_update enable_writing c')
    else ok c

-- `::send` was called; it returned the number of bytes taken, or an error.
unfoldable pub send_now : TcpConnection → Bytes → Transfer ℕ → Result TcpConnection
send_now c bytes (failed errno) = if is_fault errno then ok c else send_rest c bytes
send_now c bytes (done n) = do
  let remaining = sub_size (length bytes) n
  check (leb remaining (length bytes)) assertion
  send_rest (call_if ((remaining == 0) && c.write_complete_set) queue_write_complete c)
      (drop n bytes)

unfoldable pub send_in_loop : TcpConnection → Bytes → Transfer ℕ → Result TcpConnection
send_in_loop c bytes taken =
    if status_eq c.status disconnected
    then ok c
    else if not c.events.writing && (read_able_bytes c.output == 0)
    then send_now c bytes taken
    else send_rest c bytes

-- `send`, called in the thread of the loop.
unfoldable pub send : TcpConnection → Bytes → Transfer ℕ → Result TcpConnection
send c bytes taken = if status_eq c.status connected then send_in_loop c bytes taken else ok c

-- `send` of a buffer in the thread of the loop, which empties the buffer.
unfoldable pub send_buffer : TcpConnection → Buffer → Transfer ℕ → Result (TcpConnection × Buffer)
send_buffer c buff taken =
    if status_eq c.status connected
    then (do
      c' ← send_in_loop c (peek_string buff (read_able_bytes buff)) taken
      ok (c', retrieve_all buff))
    else ok (c, buff)

unfoldable pub force_close : TcpConnection → TcpConnection
force_close c =
    if status_eq c.status connected || status_eq c.status connecting
    then call queue_force_close (record c { status = disconnecting })
    else c

unfoldable pub force_close_in_loop : TcpConnection → Result TcpConnection
force_close_in_loop c =
    if status_eq c.status connected && status_eq c.status connecting then handle_close c else ok c

unfoldable pub start_read_in_loop : TcpConnection → Result TcpConnection
unfolding channel_update_at
start_read_in_loop c =
    if not c.reading || not c.events.reading
    then (do c' ← channel_update enable_reading c; ok (record c' { reading = true }))
    else ok c

unfoldable pub stop_read_in_loop : TcpConnection → Result TcpConnection
unfolding channel_update_at
stop_read_in_loop c =
    if c.reading || c.events.reading
    then (do c' ← channel_update disable_reading c; ok (record c' { reading = false }))
    else ok c
