-- ===== src/HttpContext/Samples.antt =====
-- `GET /a.html`, a context that has read it, and a file system with that page.
use tiny_http_server.Prelude.{
  ◌+◌, ◌++◌, refl, List, [], ◌∷◌, none, some, true, false, arith, codes, length, replicate,
  bytes_eq, if◌then◌else◌,
}
use tiny_http_server.Prelude.Map.{Bytes}
use tiny_http_server.Buffer.Bounds.{IsValid}
use tiny_http_server.Patterns.{RequestLine}
use tiny_http_server.UserVerify.{Database, World, rows, c_str}
use tiny_http_server.HttpRequest.{parse_path, complete_path, init as init_request}
use tiny_http_server.HttpRequest.Print.{Field, print, IsPlain}
use tiny_http_server.HttpResponse.{FileSystem, Stat}
use tiny_http_server.HttpContext.{HttpContext}
use tiny_http_server.HttpContext.Page.{asked, begun, HasPage}

abbrev pub db : Database
db = record { State = List Bytes; query = λ sql sent st. (sent ∷ st, rows []) }

abbrev pub world : World db
world = record { pool = record { conn_que = []; sem = 0; max_conn = 0 }; store = [] }

abbrev pub page : Bytes
page = codes "<p>"

abbrev pub page_stat : Stat
page_stat = record { st_size = 3; is_dir = false; others_read = true }

abbrev pub one_page : FileSystem
one_page = record {
  stat = λ name. if bytes_eq name (codes "r/a.html") then some page_stat else none;
  open_file = λ name. if bytes_eq name (codes "r/a.html") then some page else none;
  mmap = λ n held. some held;
}

abbrev pub get_page : RequestLine
get_page = record { method = codes "GET"; path = codes "/a.html"; version = codes "1.1" }

abbrev pub no_fields : List Field
no_fields = []

abbrev pub request : Bytes
request = print get_page no_fields []

abbrev pub context : HttpContext
context = record {
  read_buff = record {
    bytes = replicate 8 0 ++ request;
    reader_index = 8;
    writer_index = 8 + length request;
  };
  write_buff = record { bytes = replicate 8 0; reader_index = 8; writer_index = 8 };
  request = init_request;
  response = begun (codes "r") init_request;
}

pub read_buff-IsValid : IsValid context.read_buff
read_buff-IsValid = record {
  ordered = omega arith;
  inside = omega arith;
  header = omega arith;
  small = omega arith;
}

pub write_buff-IsValid : IsValid context.write_buff
write_buff-IsValid = record {
  ordered = omega arith;
  inside = omega arith;
  header = omega arith;
  small = omega arith;
}

pub page_there : HasPage one_page (begun (codes "r") (asked get_page no_fields)) 3 page page
unfolding c_str parse_path complete_path
page_there = record {
  known = refl;
  opened = refl;
  map = refl;
  plain = refl;
  some_bytes = omega arith;
}

pub get_page-IsPlain : IsPlain get_page
get_page-IsPlain = record {
  method = record { no_space = refl; no_cr = refl };
  path = record { no_space = refl; no_cr = refl };
  version = record { no_space = refl; no_cr = refl };
}
