-- ===== src/HttpContext/Page.antt =====
-- A request for a page, from its bytes to those of the response.
use Prim.Native.Nat.{ℕ}
use tiny_http_server.Prelude.{
  ◌≡◌, ◌≤◌, ◌<◌, ◌+◌, ◌∙◌, true, false, List, [], ◌∷◌, ◌++◌, none, some, append_assoc, refl, arith,
  ap, length, take, leb, ltb, bytes_eq, All, length-append,
}
use tiny_http_server.Prelude.Result.{Returns}
use tiny_http_server.Prelude.Map.{Bytes}
use tiny_http_server.Buffer.{read_able_bytes, max_size}
use tiny_http_server.Buffer.Bounds.{IsValid, view, length-view, read_able_bytes_lem}
use tiny_http_server.Buffer.View.{Shows, append-Shows}
use tiny_http_server.Patterns.{RequestLine}
use tiny_http_server.UserVerify.{Database, World}
use tiny_http_server.HttpRequest.{HttpRequest, is_keep_alive, finish}
use tiny_http_server.HttpRequest.Print.{
  Field, IsPlain, IsPlainField, print, insert_all, parsed, parse-print, length-print,
}
use tiny_http_server.HttpResponse.{FileSystem, HttpResponse, file_name, init as init_response}
use tiny_http_server.HttpResponse.Layout.{joined, ok_texts, make_response-found}
use tiny_http_server.HttpContext.{HttpContext, process}

-- what `process` has parsed of a printed request
abbrev pub asked : RequestLine → List Field → HttpRequest
asked r fields = parsed finish r (insert_all fields [])

-- the response that `Init` begins
abbrev pub begun : Bytes → HttpRequest → HttpResponse
begun src_dir q = record {
  code = some 200;
  is_keep_alive = is_keep_alive q;
  path = q.path;
  src_dir = src_dir;
  mm_file = none;
  mm_file_stat = record { st_size = 0; is_dir = false; others_read = false };
}

-- that the page behind a path can be read and mapped, and is not empty
pub record HasPage (files : FileSystem) (q : HttpResponse) (size : ℕ) (held mapped : Bytes)
    : Type 0 where
  pub known :
      files.stat (file_name files q)
      ≡ some (record { st_size = size; is_dir = false; others_read = true })
  pub opened : files.open_file (file_name files q) ≡ some held
  pub map : files.mmap size held ≡ some mapped
  pub plain : bytes_eq (take 4 mapped) (255 ∷ 255 ∷ 255 ∷ 255 ∷ []) ≡ false
  pub some_bytes : 0 < size

abbrev pub answer : HttpRequest → ℕ → Bytes → Bytes
answer q size mapped = joined (ok_texts (is_keep_alive q) q.path size) ++ take size mapped

-- A context whose read buffer holds a printed request for a page that is there answers it: behind
-- what the write buffer holds come the status line, the headers, the length and the page, and the
-- read buffer is empty; the write buffer stays valid.
pub process_page :
    (db : Database) (files : FileSystem) (src_dir : Bytes) (c : HttpContext) (w : World db)
    (r : RequestLine) (fields : List Field) (size : ℕ) (held mapped : Bytes)
    → bytes_eq src_dir [] ≡ false
    → IsValid c.read_buff
    → IsValid c.write_buff
    → view c.read_buff ≡ print r fields []
    → IsPlain r
    → All IsPlainField fields
    → HasPage files (begun src_dir (asked r fields)) size held mapped
    → c.write_buff.writer_index + length (answer (asked r fields) size mapped) ≤ max_size
    → Returns (process db files src_dir c w) (λ s.
      (s.0 ≡ true)
      × (view s.1.read_buff ≡ [])
      × Shows
          (c.write_buff.writer_index + length (answer (asked r fields) size mapped))
          (view c.write_buff ++ answer (asked r fields) size mapped)
          s.1.write_buff
      × (s.2 ≡ w))
unfolding process init_response
process_page db files src_dir c w r fields size held mapped root v v' holds line hs page room =
    let (p, e, (good, q, empty, same)) = parse-print db r fields c.read_buff w v line hs holds in
    let b : HttpResponse = begun src_dir (asked r fields) in
    let both = length-append (joined (ok_texts b.is_keep_alive b.path size)) (take size mapped) in
    let (m, e', (file, len, s)) =
      make_response-found files b c.write_buff size held mapped v' refl page.known page.opened
        page.map page.plain (omega (arith, both)) in
    let (b', e'', s') = append-Shows s.valid (take size mapped) (omega (arith, s.low, both)) in
    let some_bytes : leb (read_able_bytes c.read_buff) 0 ≡ false =
      ground
        (arith, read_able_bytes_lem v, length-view v, ap length holds, length-print r fields []) in
    let more : ltb 0 size ≡ true = ground (arith, page.some_bytes) in
    (
      (true, record { read_buff = p.2; write_buff = b'; request = p.1; response = m.0 }, p.3),
      rw (some_bytes, e, good, q, root, e', file, len, more, e'') refl,
      (
        refl,
        empty,
        record {
          valid = s'.valid;
          low = omega (arith, s'.low, s.low, both);
          shown =
              s'.shown
              ∙ ap (λ t. t ++ take size mapped) s.shown
              ∙ append_assoc (view c.write_buff) (joined (ok_texts b.is_keep_alive b.path size))
                  (take size mapped);
        },
        same,
      ),
    )
