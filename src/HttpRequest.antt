-- ===== src/HttpRequest.antt =====
-- `HttpRequest` of src/http/httprequest.cc and src/http/httprequest.h: the parser of requests. It
-- takes a request off a buffer line by line; a POST of a known form is held against the database.
pub mod Refine
pub mod Ends
pub mod Print
mod Tests
use Prim.Native.Nat.{ℕ}
use tiny_http_server.Prelude.{
  zero, suc, ◌+◌, Bool, true, false, List, [], ◌∷◌, ◌++◌, Option, none, some, ◌==◌, leb,
  if◌then◌else◌, ◌||◌, ◌&&◌, not, codes, bytes_eq,
}
use tiny_http_server.Prelude.Result.{Result, ok, fail, ◌>>=◌, ◌>>◌, check, assertion, out_of_fuel}
use tiny_http_server.Prelude.Map.{Bytes, Map, lookup, contains, insert, index}
use tiny_http_server.Buffer.{Buffer, read_able_bytes, peek_string, retrieve_until}
use tiny_http_server.Patterns.{RequestLine, match_request_line, match_header}
use tiny_http_server.Urlencoded.{parse_from_urlencoded}
use tiny_http_server.UserVerify.{Database, World, user_verify}

pub data ParseState : Type 0 where
  request_line headers body finish : ParseState

pub record HttpRequest : Type 0 where
  pub state : ParseState
  pub method : Bytes
  pub path : Bytes
  pub version : Bytes
  pub content : Bytes
  pub header : Map
  pub post : Map

-- `Init`, which overwrites each field.
abbrev pub init : HttpRequest
init = record {
  state = request_line;
  method = [];
  path = [];
  version = [];
  content = [];
  header = [];
  post = [];
}

unfoldable pub is_keep_alive : HttpRequest → Bool
is_keep_alive q = elim (lookup (codes "Connection") q.header) [
  | none ↦ false
  | some v ↦ bytes_eq v (codes "keep-alive") && bytes_eq q.version (codes "1.1")
]

-- `GetPost`
unfoldable pub get_post : HttpRequest → Bytes → Result Bytes
get_post q key = do
  check (not (bytes_eq key [])) assertion
  ok (elim (lookup key q.post) [ none ↦ [] | some v ↦ v ])

abbrev pub default_html : List Bytes
default_html =
    codes "/index"
    ∷ codes "/register"
    ∷ codes "/login"
    ∷ codes "/welcome"
    ∷ codes "/video"
    ∷ codes "/picture"
    ∷ []

-- `DEFAULT_HTML_TAG`, with the tag 1 of a login as `true` and 0 as `false`.
abbrev pub default_html_tag : Bytes → Option Bool
default_html_tag path =
    if bytes_eq path (codes "/register.html")
    then some false
    else if bytes_eq path (codes "/login.html")
    then some true
    else none

-- the loop of `ParsePath_`
unfoldable pub complete_path : List Bytes → Bytes → Bytes
complete_path [] path = path
complete_path (item ∷ items) path =
    if bytes_eq item path then path ++ codes ".html" else complete_path items path

unfoldable pub parse_path : Bytes → Bytes
parse_path path =
    if bytes_eq path (codes "/") then codes "/index.html" else complete_path default_html path

-- `ParseRequestLine_`; none where it returns false.
unfoldable pub parse_request_line : HttpRequest → Bytes → Option HttpRequest
parse_request_line q line = elim (match_request_line line) [
  | none ↦ none
  | some m ↦
      some (record q { method = m.method; path = m.path; version = m.version; state = headers })
]

unfoldable pub parse_header : HttpRequest → Bytes → HttpRequest
parse_header q line = elim (match_header line) [
  | none ↦ record q { state = body }
  | some (name, value) ↦ record q { header = insert name value q.header }
]

module _ (db : Database) where
  -- The form of a page that is known, by its tag.
  unfoldable pub parse_login : HttpRequest → Bool → World db → Result (HttpRequest × World db)
  parse_login q is_login w = do
    let user = index (codes "username") q.post
    let password = index (codes "password") user.1
    r ← user_verify db user.0 password.0 is_login w
    ok (
      record q {
        post = password.1;
        path = if r.0 then codes "/welcome.html" else codes "/error.html";
      },
      r.1,
    )

  -- What follows the decoding of the form, given the tag of the path.
  abbrev pub parse_tag : Option Bool → HttpRequest → World db → Result (HttpRequest × World db)
  parse_tag none q w = ok (q, w)
  parse_tag (some is_login) q w = parse_login q is_login w

  -- A POST: `header_["Content-Type"]` is looked up, and so put in if it is missing.
  unfoldable pub parse_form : HttpRequest → World db → Result (HttpRequest × World db)
  parse_form q w =
      let typed = index (codes "Content-Type") q.header in
      let q' : HttpRequest = record q { header = typed.1 } in
      if bytes_eq typed.0 (codes "application/x-www-form-urlencoded")
      then (do
        form ← parse_from_urlencoded q'.content q'.post
        parse_tag (default_html_tag q'.path) (record q' { content = form.0; post = form.1 }) w)
      else ok (q', w)

  unfoldable pub parse_post : HttpRequest → World db → Result (HttpRequest × World db)
  parse_post q w = if bytes_eq q.method (codes "POST") then parse_form q w else ok (q, w)

  unfoldable pub parse_body : HttpRequest → Bytes → World db → Result (HttpRequest × World db)
  parse_body q line w = do
    r ← parse_post (record q { content = line }) w
    ok (record r.0 { state = finish }, r.1)

  -- The `switch`: whether to go on, and the request. `readable` counts this line, too.
  unfoldable pub parse_line :
      HttpRequest → ParseState → Bytes → ℕ → World db → Result (Bool × HttpRequest × World db)
  parse_line q request_line line readable w = elim (parse_request_line q line) [
    | none ↦ ok (false, q, w)
    | some r ↦ ok (true, record r { path = parse_path r.path }, w)
  ]
  parse_line q headers line readable w =
      let r = parse_header q line in
      ok (true, (if leb readable 2 then record r { state = finish } else r), w)
  parse_line q body line readable w = do r ← parse_body q line w; ok (true, r.0, r.1)
  parse_line q finish line readable w = ok (true, q, w)

-- `std::search` for CRLF: where it starts, or the end.
unfoldable pub find_crlf : Bytes → ℕ
find_crlf [] = 0
find_crlf (c ∷ []) = 1
find_crlf (c ∷ d ∷ cs) =
    let rest = find_crlf (d ∷ cs) in if (c == 13) && (d == 10) then 0 else suc rest

abbrev pub is_finish : ParseState → Bool
is_finish finish = true
is_finish request_line = false
is_finish headers = false
is_finish body = false

module _ (db : Database) where
  -- The `while` of `parse`. Each round but the last takes two bytes off at least.
  unfoldable pub parse_loop :
      ℕ → HttpRequest → Buffer → World db → Result (Bool × HttpRequest × Buffer × World db)
  parse_loop zero q b w = fail out_of_fuel
  parse_loop (suc rounds) q b w =
      if (read_able_bytes b == 0) || is_finish q.state then ok (true, q, b, w) else (do
        let line_end = find_crlf (peek_string b (read_able_bytes b))
        r ← parse_line db q q.state (peek_string b line_end) (read_able_bytes b) w
        let last_line = b.reader_index + line_end == b.writer_index
        if not r.0
            then ok (false, r.1, b, r.2)
            else if last_line
            then ok (true, r.1, b, r.2)
            else (do
              b' ← retrieve_until b (b.reader_index + line_end + 2)
              parse_loop rounds r.1 b' r.2))

  unfoldable pub parse :
      HttpRequest → Buffer → World db → Result (Bool × HttpRequest × Buffer × World db)
  parse q b w =
      if leb (read_able_bytes b) 0
      then ok (false, q, b, w)
      else parse_loop (suc (read_able_bytes b)) q b w
