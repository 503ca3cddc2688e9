-- ===== src/HttpContext.antt =====
-- `HttpContext` of src/http/httpcontext.h and src/http/httpcontext.cc: from the bytes of a request to
-- those of its response.
pub mod Page
pub mod Samples
use Prim.Native.Nat.{ℕ}
use tiny_http_server.Prelude.{
  Bool, true, false, Option, none, some, ltb, leb, if◌then◌else◌, ◌&&◌, take,
}
use tiny_http_server.Prelude.Result.{Result, ok, ◌>>=◌}
use tiny_http_server.Prelude.Map.{Bytes}
use tiny_http_server.Buffer.{Buffer, read_able_bytes, append, retrieve_all, retrieve_all_string}
use tiny_http_server.UserVerify.{Database, World}
use tiny_http_server.HttpRequest.{HttpRequest, is_keep_alive, parse, init as init_request}
use tiny_http_server.HttpResponse.{FileSystem, HttpResponse, make_response, init as init_response}

pub record HttpContext : Type 0 where
  pub read_buff : Buffer
  pub write_buff : Buffer
  pub request : HttpRequest
  pub response : HttpResponse

unfoldable pub init : HttpContext → HttpContext
init c = record c { write_buff = retrieve_all c.write_buff; read_buff = retrieve_all c.read_buff }

-- What is appended of the file: `FileLen` bytes of it, if there are any.
abbrev pub append_file : Option Bytes → ℕ → Buffer → Result Buffer
append_file none n b = ok b
append_file (some file) n b = if ltb 0 n then append b (take n file) else ok b

module _ (db : Database) (files : FileSystem) (src_dir : Bytes) where
  unfoldable pub process : HttpContext → World db → Result (Bool × HttpContext × World db)
  process c w =
      if leb (read_able_bytes c.read_buff) 0
      then ok (false, record c { request = init_request }, w)
      else (do
        r ← parse db init_request c.read_buff w
        let keep = r.0 && is_keep_alive r.1
        begun ← init_response src_dir r.1.path keep (some (if r.0 then 200 else 400)) c.response
        made ← make_response files begun c.write_buff
        written ← append_file made.0.mm_file made.0.mm_file_stat.st_size made.1
        ok (
          true,
          record { read_buff = r.2; write_buff = written; request = r.1; response = made.0 },
          r.3,
        ))

  -- The context, the buffer that was read, and how many bytes are left.
  unfoldable pub read :
      HttpContext → Buffer → World db → Result (ℕ × HttpContext × Buffer × World db)
  read c buff w = do
    taken ← retrieve_all_string buff
    read_buff ← append c.read_buff taken.0
    r ← process (record c { read_buff = read_buff }) w
    ok (read_able_bytes r.1.read_buff, r.1, taken.1, r.2)
