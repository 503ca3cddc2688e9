-- ===== src/TcpConnection/Tests.antt =====
-- A connection that has just been built, and one whose output waits.
use tiny_http_server.Prelude.{
  ◌≡◌, ◌≢◌, ◌++◌, refl, List, [], ◌∷◌, true, false, arith, codes, replicate, take, length, not,
  ◌==◌,
}
use tiny_http_server.Prelude.Result.{Returns, ok, fail, assertion, ◌>>=◌}
use tiny_http_server.Buffer.{Buffer, done}
use tiny_http_server.Buffer.Bounds.{IsValid, view}
use tiny_http_server.TcpConnection.{
  TcpConnection, connected, disconnected, disconnecting, send, handle_write, force_close,
  force_close_in_loop, shutdown_in_loop, connection_cb, close_cb, build_connect, send_in_loop,
  send_now, send_rest, handle_read, handle_close,
}
use tiny_http_server.Channel.{Revents, add, del, handle_event_guard}
use tiny_http_server.TcpConnection.Ops.{
  make, fresh, Io, dispatch, Op, builds, sends, dispatches, run,
}
use tiny_http_server.TcpConnection.Calls.{close_calls, closed}
use tiny_http_server.TcpConnection.Life.{close_once}
use tiny_http_server.TcpConnection.Dispatch.{dispatch_twice}
use tiny_http_server.TcpConnection.Sending.{IsWaiting, sent, send_in_order, handle_write_in_order}
use tiny_http_server.TcpConnection.Closing.{force_close_lem, shutdown_pending}

abbrev blank : Buffer
blank = record { bytes = replicate 16 0; reader_index = 8; writer_index = 8 }

abbrev holding : Buffer
holding = record { bytes = replicate 8 0 ++ codes "abc"; reader_index = 8; writer_index = 11 }

abbrev up : TcpConnection
up = record {
  status = connected;
  reading = true;
  events = record { reading = true; writing = false };
  tag = add;
  input = blank;
  output = blank;
  high_water_mark = 67108864;
  write_complete_set = true;
  high_water_mark_set = true;
  shut = false;
  calls = [];
}

abbrev waiting : TcpConnection
waiting = record up { events = record { reading = true; writing = true }; output = holding }

blank-IsValid : IsValid blank
blank-IsValid = record {
  ordered = omega arith;
  inside = omega arith;
  header = omega arith;
  small = omega arith;
}

holding-IsValid : IsValid holding
holding-IsValid = record {
  ordered = omega arith;
  inside = omega arith;
  header = omega arith;
  small = omega arith;
}

send_in_order_example : Returns (send up (codes "hello") (done 2)) (λ c'.
    IsWaiting c' × (sent up (codes "hello") 2 ++ view c'.output ≡ view blank ++ codes "hello"))
send_in_order_example =
    send_in_order up (codes "hello") 2
      (record { added = refl; valid = blank-IsValid; idle = λ off. refl }) refl (omega arith)
      (omega arith)

force_close_lem_example :
    Returns
      (force_close_in_loop (force_close up))
      (λ c'. (c'.status ≢ disconnected) × (c'.events ≡ up.events))
force_close_lem_example = force_close_lem up (λ e. cc)

shutdown_pending_example :
    Returns
      (handle_write (shutdown_in_loop waiting) (done 3))
      (λ c'. (c'.status ≡ disconnecting) × (c'.shut ≡ waiting.shut))
shutdown_pending_example =
    shutdown_pending waiting 3 holding-IsValid refl refl refl (omega arith) (omega arith)

abbrev readable : Revents
readable = record {
  pollin = true;
  pollpri = false;
  pollout = true;
  pollerr = false;
  pollhup = false;
  pollnval = false;
  pollrdhup = false;
}

abbrev gone : Io
gone = record { received = done []; taken = done 0 }

abbrev hung_up : Revents
hung_up = record readable { pollin = false; pollhup = true; pollrdhup = true }

handle_write_in_order_example : Returns (handle_write waiting (done 3)) (λ c'.
    IsWaiting c'
    × (take 3 (view holding) ++ view c'.output ≡ view holding)
    × (c'.events.writing ≡ not (length (view c'.output) == 0)))
handle_write_in_order_example =
    handle_write_in_order waiting 3
      (record { added = refl; valid = holding-IsValid; idle = λ off. absurd cc }) refl refl
      (omega arith) (omega arith)

dispatch_twice_example : dispatch gone hung_up waiting ≡ fail assertion
dispatch_twice_example = dispatch_twice waiting gone hung_up refl refl refl

abbrev some_ops : List Op
some_ops = builds ∷ sends (codes "hello") (done 5) ∷ dispatches gone readable ∷ []

abbrev new_buffer : Buffer
new_buffer = record { bytes = replicate 1032 0; reader_index = 8; writer_index = 8 }

abbrev ended : TcpConnection
ended = record (fresh new_buffer new_buffer) {
  status = disconnected;
  tag = del;
  calls = connection_cb ∷ connection_cb ∷ close_cb ∷ [];
}

run_ended : (make >>= run some_ops) ≡ ok ended
unfolding make run build_connect send send_in_loop send_now send_rest dispatch handle_event_guard
    handle_read handle_write handle_close tiny_http_server.Buffer.make
    tiny_http_server.Channel.is_none_event
run_ended = refl

close_once_example : close_calls ended.calls ≡ closed ended.status
close_once_example = close_once some_ops ended run_ended
