-- ===== src/HttpServer/Tests.antt =====
-- Runs of the buckets, and a live connection to which a request for a page comes.
use tiny_http_server.Prelude.{
  ◌≡◌, ◌++◌, refl, List, [], ◌∷◌, true, false, arith, codes, has, replicate,
}
use tiny_http_server.Prelude.Result.{Returns}
use tiny_http_server.Prelude.Map.{lookup}
use tiny_http_server.Buffer.{Buffer, done}
use tiny_http_server.Buffer.Bounds.{view}
use tiny_http_server.HttpRequest.{is_keep_alive, parse_path, complete_path}
use tiny_http_server.Prelude.Digits.{digits}
use tiny_http_server.HttpResponse.{get_file_type, suffix_of}
use tiny_http_server.HttpContext.Page.{asked, answer}
use tiny_http_server.HttpContext.Samples.{
  db, world, page, one_page, get_page, no_fields, context, read_buff-IsValid, write_buff-IsValid,
  page_there, get_page-IsPlain,
}
use tiny_http_server.Channel.{add}
use tiny_http_server.TcpConnection.{TcpConnection, connected}
use tiny_http_server.TcpConnection.Sending.{sent}
use tiny_http_server.HttpServer.{
  Event, connects, messages, expires, ticks, empty, is_alive, connection_cb, run, ontime, touch,
  last_owned, Served, message_cb,
}
use tiny_http_server.HttpServer.Idle.{idle_timeout}
use tiny_http_server.HttpServer.Serve.{IsReady, serve_page}

abbrev quiet : List Event
quiet =
    ticks
    ∷ ticks
    ∷ messages 7
    ∷ connects 8
    ∷ connects 9
    ∷ expires 9
    ∷ ticks
    ∷ ticks
    ∷ ticks
    ∷ messages 7
    ∷ []

quiet-run : (run (connection_cb 7 empty) quiet).shut ≡ 8 ∷ 7 ∷ []
unfolding run connection_cb touch ontime is_alive last_owned
quiet-run = refl

idle_timeout_example :
    (is_alive 7 (run (connection_cb 7 empty) quiet) ≡ false)
    × (has 7 (run (connection_cb 7 empty) quiet).shut ≡ true)
unfolding is_alive
idle_timeout_example = idle_timeout 7 quiet empty refl refl refl (
  λ e. cc,
  (
    λ e. cc,
    (λ e. cc, (λ e. cc, (λ e. cc, (λ e. cc, (λ e. cc, (λ e. cc, (λ e. cc, (λ e. cc, tt)))))))),
  ),
)

abbrev blank : Buffer
blank = record { bytes = replicate 8 0; reader_index = 8; writer_index = 8 }

abbrev up : TcpConnection
up = record {
  status = connected;
  reading = true;
  events = record { reading = true; writing = false };
  tag = add;
  input = blank;
  output = blank;
  high_water_mark = 67108864;
  write_complete_set = false;
  high_water_mark_set = false;
  shut = false;
  calls = [];
}

abbrev live : Served db
live = record {
  buckets = record empty { middle = 7 ∷ [] };
  conn = up;
  context = record context { read_buff = blank };
  buff = context.read_buff;
  world = world;
}

live-IsReady : IsReady db 7 live
unfolding is_alive
live-IsReady = record {
  alive = refl;
  waiting = record { added = refl; valid = write_buff-IsValid; idle = λ off. refl };
  up = refl;
  buff = read_buff-IsValid;
  read_buff = write_buff-IsValid;
  write_buff = write_buff-IsValid;
  read_empty = refl;
  write_empty = refl;
}

serve_page_example : Returns (message_cb db one_page (codes "r") 7 (done 2) live) (λ s'.
    (sent up (answer (asked get_page no_fields) 3 page) 2 ++ view s'.conn.output
      ≡ view blank ++ answer (asked get_page no_fields) 3 page)
    × (view s'.buff ≡ [])
    × (view s'.context.read_buff ≡ [])
    × (view s'.context.write_buff ≡ [])
    × (is_alive 7 s'.buckets ≡ true))
unfolding digits get_file_type suffix_of lookup parse_path complete_path is_keep_alive
serve_page_example =
    serve_page db one_page (codes "r") 7 2 live get_page no_fields 3 page page refl live-IsReady
      refl get_page-IsPlain tt page_there (omega arith) (omega arith) (omega arith) (omega arith)
