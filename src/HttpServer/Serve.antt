-- ===== src/HttpServer/Serve.antt =====
-- `message_cb` of src/httpserver.cc on a request for a page, from the input buffer of the connection
-- to what it sends.
use Prim.Native.Nat.{ℕ}
use tiny_http_server.Prelude.{
  ◌≡◌, ◌≤◌, ◌+◌, ◌∙◌, true, false, List, [], ◌++◌, refl, arith, ap, sym, length, bytes_eq, All,
}
use tiny_http_server.Prelude.Result.{Returns}
use tiny_http_server.Prelude.Map.{Bytes}
use tiny_http_server.Buffer.{Buffer, done, max_size, read_able_bytes}
use tiny_http_server.Buffer.Bounds.{IsValid, view}
use tiny_http_server.Buffer.View.{Shows, append-Shows, retrieve_all_string-Shows}
use tiny_http_server.Patterns.{RequestLine}
use tiny_http_server.UserVerify.{Database, World}
use tiny_http_server.HttpRequest.Print.{Field, IsPlain, IsPlainField, print}
use tiny_http_server.HttpResponse.{FileSystem}
use tiny_http_server.HttpContext.{HttpContext, read}
use tiny_http_server.HttpContext.Page.{asked, begun, answer, HasPage, process_page}
use tiny_http_server.TcpConnection.{connected}
use tiny_http_server.TcpConnection.Sending.{IsWaiting, sent, send_buffer_in_order}
use tiny_http_server.HttpServer.{Buckets, Served, is_alive, touch, message_cb}

-- a live connection between two requests
pub record IsReady (db : Database) (e : ℕ) (s : Served db) : Type 0 where
  pub alive : is_alive e s.buckets ≡ true
  pub waiting : IsWaiting s.conn
  pub up : s.conn.status ≡ connected
  pub buff : IsValid s.buff
  pub read_buff : IsValid s.context.read_buff
  pub write_buff : IsValid s.context.write_buff
  pub read_empty : view s.context.read_buff ≡ []
  pub write_empty : view s.context.write_buff ≡ []

touch_alive : (e : ℕ) (s : Buckets) → is_alive e s ≡ true → is_alive e (touch e s) ≡ true
unfolding touch is_alive
touch_alive e s h = ground arith

-- `read` of a request for a page
read_page :
    (db : Database) (files : FileSystem) (src_dir : Bytes) (c : HttpContext) (buff : Buffer)
    (w : World db) (r : RequestLine) (fields : List Field) (size : ℕ) (held mapped : Bytes)
    → bytes_eq src_dir [] ≡ false
    → IsValid buff
    → IsValid c.read_buff
    → IsValid c.write_buff
    → view c.read_buff ≡ []
    → view buff ≡ print r fields []
    → IsPlain r
    → All IsPlainField fields
    → HasPage files (begun src_dir (asked r fields)) size held mapped
    → c.read_buff.writer_index + length (print r fields []) ≤ max_size
    → c.write_buff.writer_index + length (answer (asked r fields) size mapped) ≤ max_size
    → Returns (read db files src_dir c buff w) (λ s.
      (view s.1.read_buff ≡ [])
      × Shows
          (c.write_buff.writer_index + length (answer (asked r fields) size mapped))
          (view c.write_buff ++ answer (asked r fields) size mapped)
          s.1.write_buff
      × (view s.2 ≡ [])
      × (s.3 ≡ w))
unfolding read
read_page db files src_dir c buff w r fields size held mapped root vb vr vw empty holds line hs page
      room room' =
    let (t, e, (taken, left)) = retrieve_all_string-Shows vb in
    let text : t.0 ≡ print r fields [] = taken ∙ holds in
    let (rb, e', s) = append-Shows vr t.0 (omega (arith, ap length text)) in
    let shown : view rb ≡ print r fields [] = s.shown ∙ ap (λ x. x ++ t.0) empty ∙ text in
    let c' : HttpContext = record c { read_buff = rb } in
    let (p, e'', (good, none_left, written, same)) =
      process_page db files src_dir c' w r fields size held mapped root s.valid vw shown line hs
        page room' in
    (
      (read_able_bytes p.1.read_buff, p.1, t.1, p.2),
      rw (e, e', e'') refl,
      (none_left, written, left.shown, same),
    )

-- A live connection that is connected, with its channel in the poller, and has received nothing but a
-- printed request for a page, with a source directory that is not empty, a file that others may read,
-- that can be mapped, is not empty and does not begin with four bytes 255, and with room in the
-- buffers: `message_cb` sends the answer behind what still waited, so that what the kernel takes and
-- what waits after it are these bytes in order, leaves the input and the buffers of the context empty,
-- and keeps the entry of the connection alive.
pub serve_page :
    (db : Database) (files : FileSystem) (src_dir : Bytes) (e n : ℕ) (s : Served db)
    (r : RequestLine) (fields : List Field) (size : ℕ) (held mapped : Bytes)
    → bytes_eq src_dir [] ≡ false
    → IsReady db e s
    → view s.buff ≡ print r fields []
    → IsPlain r
    → All IsPlainField fields
    → HasPage files (begun src_dir (asked r fields)) size held mapped
    → n ≤ length (answer (asked r fields) size mapped)
    → s.context.read_buff.writer_index + length (print r fields []) ≤ max_size
    → s.context.write_buff.writer_index + length (answer (asked r fields) size mapped) ≤ max_size
    → s.conn.output.writer_index + length (answer (asked r fields) size mapped) ≤ max_size
    → Returns (message_cb db files src_dir e (done n) s) (λ s'.
      (sent s.conn (answer (asked r fields) size mapped) n ++ view s'.conn.output
        ≡ view s.conn.output ++ answer (asked r fields) size mapped)
      × (view s'.buff ≡ [])
      × (view s'.context.read_buff ≡ [])
      × (view s'.context.write_buff ≡ [])
      × (is_alive e s'.buckets ≡ true))
unfolding message_cb
serve_page db files src_dir e n s r fields size held mapped root i holds line hs page some_of room
      room' room'' =
    let text : Bytes = answer (asked r fields) size mapped in
    let (p, e', (read_left, written, buff_left, same)) =
      read_page db files src_dir s.context s.buff s.world r fields size held mapped root i.buff
        i.read_buff i.write_buff i.read_empty holds line hs page room room' in
    let shown : view p.1.write_buff ≡ text = written.shown ∙ ap (λ x. x ++ text) i.write_empty in
    let (c, e'', (w, order, emptied)) =
      send_buffer_in_order s.conn p.1.write_buff n i.waiting written.valid i.up
        (omega (arith, ap length shown, some_of)) (omega (arith, ap length shown, room'')) in
    (
      record {
        buckets = touch e s.buckets;
        conn = c.0;
        context = record p.1 { write_buff = c.1 };
        buff = p.2;
        world = p.3;
      },
      rw (i.alive, e', e'') refl,
      (
        ap (λ x. sent s.conn x n ++ view c.0.output) (sym shown)
            ∙ order
            ∙ ap (λ x. view s.conn.output ++ x) shown,
        buff_left,
        read_left,
        emptied,
        touch_alive e s.buckets i.alive,
      ),
    )
