-- ===== src/HttpRequest/Tests.antt =====
-- Requests against a database that answers each query with no rows.
use tiny_http_server.Prelude.{
  ◌+◌, ◌≡◌, ◌≢◌, refl, List, [], ◌∷◌, ◌++◌, some, true, arith, codes, length, replicate, All,
}
use tiny_http_server.Prelude.Result.{Returns, fail, ok, out_of_fuel, ◌>>=◌}
use tiny_http_server.Prelude.Map.{Bytes}
use tiny_http_server.Buffer.{Buffer}
use tiny_http_server.Buffer.Bounds.{IsValid, view}
use tiny_http_server.Patterns.{RequestLine}
use tiny_http_server.UserVerify.{Database, World, rows}
use tiny_http_server.HttpRequest.{init, parse, parse_body, finish, body}
use tiny_http_server.HttpRequest.Refine.{parse_all, parse_refines, seen}
use tiny_http_server.HttpRequest.Ends.{parse_ends}
use tiny_http_server.HttpRequest.Print.{
  Field, IsPlain, IsPlainField, print, insert_all, parsed, parse-print, parse-print_body,
}

abbrev db : Database
db = record { State = List Bytes; query = λ sql sent st. (sent ∷ st, rows []) }

abbrev world : World db
world = record { pool = record { conn_que = some 1 ∷ []; sem = 1; max_conn = 1 }; store = [] }

abbrev get_login : RequestLine
get_login = record { method = codes "GET"; path = codes "/login"; version = codes "1.1" }

abbrev fields : List Field
fields = (codes "Host", codes "a") ∷ (codes "Connection", codes "keep-alive") ∷ []

abbrev holding : Bytes → Buffer
holding text = record {
  bytes = replicate 8 0 ++ text;
  reader_index = 8;
  writer_index = 8 + length text;
}

abbrev sent : Bytes
sent = print get_login fields []

abbrev sent_body : Bytes
sent_body = print get_login fields (codes "a=1")

holding-IsValid : IsValid (holding sent)
holding-IsValid = record {
  ordered = omega arith;
  inside = omega arith;
  header = omega arith;
  small = omega arith;
}

holding-IsValid_body : IsValid (holding sent_body)
holding-IsValid_body = record {
  ordered = omega arith;
  inside = omega arith;
  header = omega arith;
  small = omega arith;
}

plain : IsPlain get_login
plain = record {
  method = record { no_space = refl; no_cr = refl };
  path = record { no_space = refl; no_cr = refl };
  version = record { no_space = refl; no_cr = refl };
}

plain_fields : All IsPlainField fields
plain_fields = (
  record { no_colon = refl; no_cr = refl; single = refl },
  (record { no_colon = refl; no_cr = refl; single = refl }, tt),
)

parse_refines_example :
    seen db (parse db init (holding sent) world) ≡ parse_all db init (view (holding sent)) world
parse_refines_example = parse_refines db init (holding sent) world holding-IsValid

parse_ends_example : parse db init (holding sent) world ≢ fail out_of_fuel
parse_ends_example = parse_ends db init (holding sent) world holding-IsValid

parse-print_example : Returns (parse db init (holding sent) world) (λ s.
    (s.0 ≡ true)
    × (s.1 ≡ parsed finish get_login (insert_all fields []))
    × (view s.2 ≡ [])
    × (s.3 ≡ world))
parse-print_example =
    parse-print db get_login fields (holding sent) world holding-IsValid plain plain_fields refl

parse-print_body_example :
    seen db (parse db init (holding sent_body) world)
    ≡ parse_body db (parsed body get_login (insert_all fields [])) (codes "a=1") world >>= λ s.
        ok (true, s.0, codes "a=1", s.1)
parse-print_body_example =
    parse-print_body db get_login fields b'a' (codes "=1") (holding sent_body) world
      holding-IsValid_body plain plain_fields refl refl
