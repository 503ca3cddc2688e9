-- ===== src/TcpConnection/Ops.antt =====
-- A connection of src/server/tcpconnection.cc from its construction on: its callbacks on the channel,
-- which `handle_event` calls, and its other operations, one after another.
use tiny_http_server.Prelude.{◌*◌, true, false, List, [], ◌∷◌, some, ℕ}
use tiny_http_server.Prelude.Result.{Result, ok, ◌>>=◌}
use tiny_http_server.Prelude.Map.{Bytes}
use tiny_http_server.Buffer.{Buffer, Transfer, initial_size_default}
use tiny_http_server.Buffer as Buffer
use tiny_http_server.Channel.{Callbacks, Revents, none_event, new, handle_event_guard}
use tiny_http_server.TcpConnection.{
  TcpConnection, connecting, build_connect, destroy_connect, handle_read, handle_write,
  handle_close, send, shutdown_in_loop, force_close, force_close_in_loop, start_read_in_loop,
  stop_read_in_loop,
}

-- the connection with its two buffers
abbrev pub fresh : Buffer → Buffer → TcpConnection
fresh input output = record {
  status = connecting;
  reading = true;
  events = none_event;
  tag = new;
  input = input;
  output = output;
  high_water_mark = 64 * 1024 * 1024;
  write_complete_set = false;
  high_water_mark_set = false;
  shut = false;
  calls = [];
}

-- The constructor.
unfoldable pub make : Result TcpConnection
make = do
  input ← Buffer.make initial_size_default
  output ← Buffer.make initial_size_default
  ok (fresh input output)

-- The callbacks that the constructor sets on the channel.
pub data Handler : Type 0 where
  reads writes closes errors : Handler

abbrev pub callbacks : Callbacks Handler
callbacks = record {
  read_cb = some reads;
  write_cb = some writes;
  close_cb = some closes;
  error_cb = some errors;
}

-- What the kernel returns to `handle_read_` and to `handle_write_`.
pub record Io : Type 0 where
  pub received : Transfer Bytes
  pub taken : Transfer ℕ

-- `handle_error_` only logs.
abbrev pub handle : Io → Handler → TcpConnection → Result TcpConnection
handle io reads c = handle_read c io.received
handle io writes c = handle_write c io.taken
handle io closes c = handle_close c
handle io errors c = ok c

abbrev pub handle_all : Io → List Handler → TcpConnection → Result TcpConnection
handle_all io [] c = ok c
handle_all io (h ∷ hs) c = handle io h c >>= handle_all io hs

-- `Channel::handle_event` of a connection that is alive.
unfoldable pub dispatch : Io → Revents → TcpConnection → Result TcpConnection
dispatch io r c = handle_all io (handle_event_guard callbacks r) c

pub data Op : Type 0 where
  builds destroys shuts_down forces_close force_closes starts_read stops_read : Op
  dispatches : Io → Revents → Op
  sends : Bytes → Transfer ℕ → Op

abbrev pub apply : Op → TcpConnection → Result TcpConnection
apply builds c = build_connect c
apply destroys c = destroy_connect c
apply shuts_down c = ok (shutdown_in_loop c)
apply forces_close c = ok (force_close c)
apply force_closes c = force_close_in_loop c
apply starts_read c = start_read_in_loop c
apply stops_read c = stop_read_in_loop c
apply (dispatches io r) c = dispatch io r c
apply (sends bytes taken) c = send c bytes taken

unfoldable pub run : List Op → TcpConnection → Result TcpConnection
run [] c = ok c
run (op ∷ ops) c = do c' ← apply op c; run ops c'
