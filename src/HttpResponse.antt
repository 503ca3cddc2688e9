-- ===== src/HttpResponse.antt =====
-- `HttpResponse` of src/http/httpresponse.cc: the status line, the headers and the file of a
-- response. The file system is a parameter.
pub mod Layout
mod Tests
use Prim.Native.Nat.{ℕ}
use tiny_http_server.Prelude.{
  zero, suc, ◌+◌, ◌/◌, ◌%◌, Bool, true, false, List, [], ◌∷◌, ◌++◌, Option, none, some, ltb, ◌==◌,
  if◌then◌else◌, not, codes, bytes_eq, length, take,
}
use tiny_http_server.Prelude.Result.{Result, ok, fail, ◌>>=◌, ◌>>◌, check, assertion, out_of_bounds}
use tiny_http_server.Prelude.Digits.{to_string}
use tiny_http_server.Prelude.Map.{Bytes, Map, lookup}
use tiny_http_server.Buffer.{Buffer, append}
use tiny_http_server.UserVerify.{c_str}

-- `struct stat`: the size, `S_ISDIR` and `S_IROTH`.
pub record Stat : Type 0 where
  pub st_size : ℕ
  pub is_dir : Bool
  pub others_read : Bool

-- `stat`, `open` for reading, which gives what the file holds, and `mmap` of a number of its bytes.
-- What fails gives none.
pub record FileSystem : Type 0 where
  pub stat : Bytes → Option Stat
  pub open_file : Bytes → Option Bytes
  pub mmap : ℕ → Bytes → Option Bytes

-- A code of none is -1, and a file of none is the null pointer.
pub record HttpResponse : Type 0 where
  pub code : Option ℕ
  pub is_keep_alive : Bool
  pub path : Bytes
  pub src_dir : Bytes
  pub mm_file : Option Bytes
  pub mm_file_stat : Stat

abbrev pub suffix_type : Map
suffix_type =
    (codes ".html", codes "text/html")
    ∷ (codes ".xml", codes "text/xml")
    ∷ (codes ".xhtml", codes "application/xhtml+xml")
    ∷ (codes ".txt", codes "text/plain")
    ∷ (codes ".rtf", codes "application/rtf")
    ∷ (codes ".pdf", codes "application/pdf")
    ∷ (codes ".word", codes "application/nsword")
    ∷ (codes ".png", codes "image/png")
    ∷ (codes ".gif", codes "image/gif")
    ∷ (codes ".jpg", codes "image/jpeg")
    ∷ (codes ".jpeg", codes "image/jpeg")
    ∷ (codes ".au", codes "audio/basic")
    ∷ (codes ".mpeg", codes "video/mpeg")
    ∷ (codes ".mpg", codes "video/mpeg")
    ∷ (codes ".avi", codes "video/x-msvideo")
    ∷ (codes ".gz", codes "application/x-gzip")
    ∷ (codes ".tar", codes "application/x-tar")
    ∷ (codes ".css", codes "text/css ")
    ∷ (codes ".js", codes "text/javascript ")
    ∷ []

abbrev pub code_status : Option ℕ → Option Bytes
code_status none = none
code_status (some code) =
    if code == 200
    then some (codes "OK")
    else if code == 400
    then some (codes "Bad Request")
    else if code == 403
    then some (codes "Forbidden")
    else if code == 404
    then some (codes "Not Found")
    else none

abbrev pub code_path : Option ℕ → Option Bytes
code_path none = none
code_path (some code) =
    if code == 400
    then some (codes "/400.html")
    else if code == 403
    then some (codes "/403.html")
    else if code == 404
    then some (codes "/404.html")
    else none

abbrev pub crlf : Bytes
crlf = 13 ∷ 10 ∷ []

-- calls of `append` one after the other
unfoldable pub append_all : Buffer → List Bytes → Result Buffer
append_all b [] = ok b
append_all b (text ∷ texts) = do b' ← append b text; append_all b' texts

-- `munmap` is all that `UnmapFile` does besides.
unfoldable pub unmap_file : HttpResponse → HttpResponse
unmap_file q = record q { mm_file = none }

unfoldable pub init : Bytes → Bytes → Bool → Option ℕ → HttpResponse → Result HttpResponse
init src_dir path is_keep_alive code q = do
  check (not (bytes_eq src_dir [])) assertion
  ok (record {
    code = code;
    is_keep_alive = is_keep_alive;
    path = path;
    src_dir = src_dir;
    mm_file = none;
    mm_file_stat = record { st_size = 0; is_dir = false; others_read = false };
  })

-- `find_last_of('.')` and `substr` from there
unfoldable pub suffix_of : Bytes → Option Bytes
suffix_of [] = none
suffix_of (c ∷ cs) = elim (suffix_of cs) [
  | some s ↦ some s
  | none ↦ if c == b'.' then some (c ∷ cs) else none
]

abbrev pub or_plain : Option Bytes → Bytes
or_plain none = codes "text/plain"
or_plain (some t) = t

abbrev pub type_of : Option Bytes → Bytes
type_of none = codes "text/plain"
type_of (some suffix) = or_plain (lookup suffix suffix_type)

unfoldable pub get_file_type : Bytes → Bytes
get_file_type path = type_of (suffix_of path)

-- the text of `AddStateLine_` for a code that has a status
abbrev pub state_line : ℕ → Bytes → Bytes
state_line code status = codes "HTTP/1.1 " ++ (to_string code ++ (codes " " ++ (status ++ crlf)))

abbrev pub add_status :
    Option ℕ → Option Bytes → HttpResponse → Buffer → Result (HttpResponse × Buffer)
add_status (some code) (some status) q b = do b' ← append b (state_line code status); ok (q, b')
add_status (some code) none q b = do
  b' ← append b (state_line 400 (codes "Bad Request"))
  ok (record q { code = some 400 }, b')
add_status none status q b = do
  b' ← append b (state_line 400 (codes "Bad Request"))
  ok (record q { code = some 400 }, b')

unfoldable pub add_state_line : HttpResponse → Buffer → Result (HttpResponse × Buffer)
add_state_line q b = add_status q.code (code_status q.code) q b

abbrev pub header_texts : Bool → Bytes → List Bytes
header_texts is_keep_alive path =
    let kind = (codes "Content-type: " ++ (get_file_type path ++ crlf)) ∷ [] in
    if is_keep_alive
    then codes "Connection: "
      ∷ (codes "keep-alive" ++ crlf)
      ∷ (codes "keep-alive: max=6, timeout=120" ++ crlf)
      ∷ kind
    else codes "Connection: " ∷ (codes "close" ++ crlf) ∷ kind

unfoldable pub add_header : HttpResponse → Buffer → Result Buffer
add_header q b = append_all b (header_texts q.is_keep_alive q.path)

abbrev pub length_text : ℕ → Bytes
length_text n = codes "Content-length: " ++ (to_string n ++ (crlf ++ crlf))

abbrev pub code_text : Option ℕ → Bytes
code_text none = codes "-1"
code_text (some code) = to_string code

abbrev pub error_body : Option ℕ → Bytes → Bytes
error_body code message =
    codes "<html><title>Error</title>"
    ++ (codes "<body bgcolor=\"ffffff\">"
        ++ (code_text code
            ++ (codes " : "
                ++ (elim (code_status code) [ none ↦ codes "Bad Request" | some status ↦ status ]
                    ++ (10
                        ∷ (codes "<p>"
                            ++ (message
                                ++ (codes "</p>"
                                    ++ codes "<hr><em>TinyWebServer</em></body></html>"))))))))

unfoldable pub error_content : HttpResponse → Buffer → Bytes → Result Buffer
error_content q b message =
    let text = error_body q.code message in append_all b (length_text (length text) ∷ text ∷ [])

module _ (files : FileSystem) where
  -- The name that the kernel sees.
  abbrev pub file_name : HttpResponse → Bytes
  file_name q = c_str (q.src_dir ++ q.path)

  -- `*mmRet == -1` reads the first four bytes of the mapping; a failed `mmap` is read as well.
  abbrev pub add_mapped : Option Bytes → HttpResponse → Buffer → Result (HttpResponse × Buffer)
  add_mapped none q b = fail out_of_bounds
  add_mapped (some mapped) q b =
      if bytes_eq (take 4 mapped) (255 ∷ 255 ∷ 255 ∷ 255 ∷ [])
      then (do b' ← error_content q b (codes "File NotFound!"); ok (q, b'))
      else (do
        b' ← append_all b (length_text q.mm_file_stat.st_size ∷ [])
        ok (record q { mm_file = some mapped }, b'))

  abbrev pub add_opened : Option Bytes → HttpResponse → Buffer → Result (HttpResponse × Buffer)
  add_opened none q b = do b' ← error_content q b (codes "File NotFound!"); ok (q, b')
  add_opened (some held) q b = add_mapped (files.mmap q.mm_file_stat.st_size held) q b

  unfoldable pub add_content : HttpResponse → Buffer → Result (HttpResponse × Buffer)
  add_content q b = add_opened (files.open_file (file_name q)) q b

  -- A `stat` that fails leaves the old values.
  abbrev pub keep_stat : Option Stat → Stat → Stat
  keep_stat none old = old
  keep_stat (some new_stat) old = new_stat

  unfoldable pub error_html : HttpResponse → HttpResponse
  error_html q = elim (code_path q.code) [
    | none ↦ q
    | some path ↦
        let q' : HttpResponse = record q { path = path } in
        record q' { mm_file_stat = keep_stat (files.stat (file_name q')) q.mm_file_stat }
  ]

  -- The code that `MakeResponse` chooses.
  abbrev pub choose_code : Option Stat → Option ℕ → Option ℕ
  choose_code none code = some 404
  choose_code (some s) code =
      if s.is_dir
      then some 404
      else if not s.others_read
      then some 403
      else elim code [ none ↦ some 200 | some n ↦ some n ]

  unfoldable pub make_response : HttpResponse → Buffer → Result (HttpResponse × Buffer)
  make_response q b = do
    let found = files.stat (file_name q)
    let chosen : HttpResponse = record q {
      code = choose_code found q.code;
      mm_file_stat = keep_stat found q.mm_file_stat;
    }
    r ← add_state_line (error_html chosen) b
    b' ← add_header r.0 r.1
    add_content r.0 b'
