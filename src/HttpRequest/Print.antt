-- ===== src/HttpRequest/Print.antt =====
-- Requests that are printed and parsed again.
use Prim.Native.Nat.{ℕ}
use tiny_http_server.Prelude.{
  has, has-append, suc, ◌+◌, ◌-◌, ◌≤◌, ◌<◌, ◌≡◌, ◌∙◌, Bool, true, false, List, [], ◌∷◌, ◌++◌, refl,
  arith, ◌==◌, length, length-append, drop, inl, ap, sym, leb, some, All, take_all,
  take-append_left, drop-append_left, append_assoc,
}
use tiny_http_server.Prelude.Result.{Result, ok, fail, ◌>>=◌, Returns}
use mathlib.Core.Bool.{false≢true}
use tiny_http_server.Prelude.Map.{Bytes, Map, insert}
use tiny_http_server.Buffer.{Buffer}
use tiny_http_server.Buffer.Bounds.{IsValid, view}
use tiny_http_server.Patterns.{RequestLine, one_line, space, colon, http, split_first, match_header}
use tiny_http_server.Patterns.Spec.{match_request_line_complete, match_header_complete}
use tiny_http_server.UserVerify.{Database, World}
use tiny_http_server.HttpRequest.{
  HttpRequest, ParseState, headers, body, finish, init, parse_line, parse, find_crlf, is_finish,
  parse_body, parse_path, parse_request_line, parse_header,
}
use tiny_http_server.HttpRequest.Refine.{parse_bytes, parse_all, parse_refines, seen}

abbrev pub Field : Type 0
Field = Bytes × Bytes

-- the header lines, the empty line and the body
abbrev pub print_headers : List Field → Bytes → Bytes
print_headers [] text = 13 ∷ 10 ∷ text
print_headers ((name, value) ∷ fields) text =
    (name ++ colon ∷ space ∷ value) ++ 13 ∷ 10 ∷ print_headers fields text

abbrev line_of : RequestLine → Bytes
line_of r = r.method ++ space ∷ (r.path ++ space ∷ (http ++ r.version))

abbrev pub print : RequestLine → List Field → Bytes → Bytes
print r fields text = line_of r ++ 13 ∷ 10 ∷ print_headers fields text

abbrev pub insert_all : List Field → Map → Map
insert_all [] m = m
insert_all ((name, value) ∷ fields) m = insert_all fields (insert name value m)

pub record IsPlainField (f : Field) : Type 0 where
  pub no_colon : has colon f.0 ≡ false
  pub no_cr : has 13 f.0 ≡ false
  pub single : one_line f.1 ≡ true

-- a part of the request line: no space and no carriage return
pub record IsPlainPart (part : Bytes) : Type 0 where
  pub no_space : has space part ≡ false
  pub no_cr : has 13 part ≡ false

find_crlf_line :
    (line rest : Bytes) → has 13 line ≡ false → find_crlf (line ++ 13 ∷ 10 ∷ rest) ≡ length line
unfolding find_crlf
find_crlf_line [] rest h = refl
find_crlf_line (x ∷ []) rest h = ground arith
find_crlf_line (x ∷ y ∷ line) rest h = ground (arith, find_crlf_line (y ∷ line) rest)

-- what the parser holds between the lines
abbrev pub parsed : ParseState → RequestLine → Map → HttpRequest
parsed s r m = record {
  state = s;
  method = r.method;
  path = parse_path r.path;
  version = r.version;
  content = [];
  header = m;
  post = [];
}

-- where the empty line leads: an empty body ends the request
abbrev pub after_headers : Bytes → ParseState
after_headers [] = finish
after_headers (c ∷ text) = body

line_no_cr :
    (name value : Bytes)
    → IsPlainField (name, value)
    → has 13 (name ++ colon ∷ space ∷ value) ≡ false
line_no_cr name value h =
    ground (arith, has-append 13 name (colon ∷ space ∷ value), h.no_cr, h.single)

parse_header-empty : (q : HttpRequest) → parse_header q [] ≡ record q { state = body }
unfolding parse_header match_header split_first
parse_header-empty q = refl

parse_header-plain :
    (q : HttpRequest) (name value : Bytes)
    → IsPlainField (name, value)
    → parse_header q (name ++ colon ∷ space ∷ value)
      ≡ record q { header = insert name value q.header }
unfolding parse_header
parse_header-plain q name value h =
    rw
      (
        parse_header,
        match_header_complete _ name value
            (record { shape = inl refl; no_colon = h.no_colon; single = h.single }),
      )
      refl

module _ (db : Database) where
  line_step :
      (k : ℕ) (q q' : HttpRequest) (line rest : Bytes) (w w' : World db)
      → is_finish q.state ≡ false
      → has 13 line ≡ false
      → parse_line db q q.state line (length line + 2 + length rest) w ≡ ok (true, q', w')
      → parse_bytes db (suc k) q (line ++ 13 ∷ 10 ∷ rest) w ≡ parse_bytes db k q' rest w'
  unfolding parse_bytes
  line_step k q q' line rest w w' open_ h e =
      let input : Bytes = line ++ 13 ∷ 10 ∷ rest in
      let size : length input ≡ length line + 2 + length rest =
        omega (arith, length-append line (13 ∷ 10 ∷ rest)) in
      let some_bytes : (length input == 0) ≡ false = ground (arith, size) in
      let more : (length line == length input) ≡ false = ground (arith, size) in
      let behind : drop (length line + 2) input ≡ rest =
        ap (drop (length line + 2)) (sym (append_assoc line (13 ∷ 10 ∷ []) rest))
        ∙ drop-append_left (length line + 2) (line ++ 13 ∷ 10 ∷ []) rest
            (omega (arith, length-append line (13 ∷ 10 ∷ []))) in
      rw
        (
          some_bytes,
          open_,
          find_crlf_line line rest h,
          more,
          behind,
          take-append_left (length line) line (13 ∷ 10 ∷ rest) refl,
          size,
          e,
        )
        refl

  headers_steps :
      (fields : List Field) (n k : ℕ) (r : RequestLine) (m : Map) (text : Bytes) (w : World db)
      → n ≡ length fields + suc k
      → All IsPlainField fields
      → parse_bytes db n (parsed headers r m) (print_headers fields text) w
        ≡ parse_bytes db k (parsed (after_headers text) r (insert_all fields m)) text w
  unfolding parse_line
  headers_steps [] n k r m [] w e h =
      let e' : n ≡ suc k = omega (arith, e) in
      rw e' (
        line_step k (parsed headers r m) (parsed finish r m) [] [] w w refl refl
          (rw (parse_header-empty (parsed headers r m)) refl))
  headers_steps [] n k r m (c ∷ text) w e h =
      let e' : n ≡ suc k = omega (arith, e) in
      let long : leb (0 + 2 + length (c ∷ text)) 2 ≡ false = ground arith in
      rw e' (
        line_step k (parsed headers r m) (parsed body r m) [] (c ∷ text) w w refl refl
          (rw (parse_header-empty (parsed headers r m), long) refl))
  headers_steps ((name, value) ∷ fields) n k r m text w e (h, hs) =
      let e' : n ≡ suc (length fields + suc k) = omega (arith, e) in
      let line : Bytes = name ++ colon ∷ space ∷ value in
      let rest : Bytes = print_headers fields text in
      let long : leb (length line + 2 + length rest) 2 ≡ false =
        ground (arith, length-append name (colon ∷ space ∷ value)) in
      rw e' (
        line_step (length fields + suc k) (parsed headers r m)
          (parsed headers r (insert name value m)) line rest w w refl (line_no_cr name value h)
          (rw (parse_header-plain (parsed headers r m) name value h, long) refl)
        ∙ headers_steps fields (length fields + suc k) k r (insert name value m) text w refl hs)

-- fewer header lines than bytes in them
print_headers_size :
    (fields : List Field) (text : Bytes)
    → length fields + 2 + length text ≤ length (print_headers fields text)
print_headers_size [] text = omega arith
print_headers_size ((name, value) ∷ fields) text = omega (
  arith,
  print_headers_size fields text,
  length-append (name ++ colon ∷ space ∷ value) (13 ∷ 10 ∷ print_headers fields text),
)

-- a request line of three such parts
pub record IsPlain (r : RequestLine) : Type 0 where
  pub method : IsPlainPart r.method
  pub path : IsPlainPart r.path
  pub version : IsPlainPart r.version

line_of_no_cr : (r : RequestLine) → IsPlain r → has 13 (line_of r) ≡ false
line_of_no_cr r h = ground (
  arith,
  has-append 13 r.method (space ∷ (r.path ++ space ∷ (http ++ r.version))),
  has-append 13 r.path (space ∷ (http ++ r.version)),
  has-append 13 http r.version,
  h.method.no_cr,
  h.path.no_cr,
  h.version.no_cr,
)

parse_request_line-plain :
    (q : HttpRequest) (r : RequestLine)
    → IsPlain r
    → parse_request_line q (line_of r)
      ≡ some (record q { method = r.method; path = r.path; version = r.version; state = headers })
unfolding parse_request_line
parse_request_line-plain q r h =
    rw
      (
        parse_request_line,
        match_request_line_complete (line_of r) r (record {
          shape = refl;
          method = h.method.no_space;
          path = h.path.no_space;
          version = h.version.no_space;
        }),
      )
      refl

bind_pure :
    {V : Type 0} (x : Result (HttpRequest × V))
    (g : Bool × HttpRequest × V → Result (Bool × HttpRequest × Bytes × V))
    → ((x >>= λ r. ok (true, r.0, r.1)) >>= g) ≡ (x >>= λ r. g (true, r.0, r.1))
bind_pure (fail e) g = refl
bind_pure (ok r) g = refl

find_crlf_none : (xs : Bytes) → has 13 xs ≡ false → find_crlf xs ≡ length xs
unfolding find_crlf
find_crlf_none [] h = refl
find_crlf_none (x ∷ []) h = refl
find_crlf_none (x ∷ y ∷ xs) h = ground (arith, find_crlf_none (y ∷ xs))

module _ (db : Database) (r : RequestLine) (fields : List Field) (w : World db) (plain : IsPlain r)
    (hs : All IsPlainField fields) where
  request_line_step :
      (text : Bytes)
      → (k : ℕ) × (parse_all db init (print r fields text) w
          ≡ parse_bytes db (suc k) (parsed (after_headers text) r (insert_all fields [])) text w)
  unfolding parse_all parse_line
  request_line_step text =
      let line : Bytes = line_of r in
      let rest : Bytes = print_headers fields text in
      let n : ℕ = length (print r fields text) in
      let size : n ≡ length line + 2 + length rest =
        omega (arith, length-append line (13 ∷ 10 ∷ rest)) in
      let enough : length fields + 2 + length text ≤ length rest = print_headers_size fields text in
      let some_bytes : leb n 0 ≡ false = ground (arith, size) in
      let k : ℕ = n - length fields - 2 in
      (
        k,
        rw some_bytes (
            line_step db n init (parsed headers r []) line rest w w refl (line_of_no_cr r plain)
              (rw (parse_line, parse_request_line-plain init r plain) refl)
            ∙ headers_steps db fields n (suc k) r [] text w (omega (arith, size, enough)) hs),
      )

  parse_print_all :
      parse_all db init (print r fields []) w
      ≡ ok (true, parsed finish r (insert_all fields []), [], w)
  unfolding parse_bytes
  parse_print_all = let (k, e) = request_line_step [] in e ∙ refl

  -- a body of one line
  parse_print_body_all :
      (c : ℕ) (text : Bytes)
      → has 13 (c ∷ text) ≡ false
      → parse_all db init (print r fields (c ∷ text)) w
        ≡ parse_body db (parsed body r (insert_all fields [])) (c ∷ text) w >>= λ s.
            ok (true, s.0, c ∷ text, s.1)
  unfolding parse_bytes parse_line
  parse_print_body_all c text h =
      let (k, e) = request_line_step (c ∷ text) in
      let whole : find_crlf (c ∷ text) ≡ length (c ∷ text) = find_crlf_none (c ∷ text) h in
      let some_bytes : (length (c ∷ text) == 0) ≡ false = ground arith in
      let last : (length (c ∷ text) == length (c ∷ text)) ≡ true = ground arith in
      e
      ∙ rw (some_bytes, whole, last, take_all (length (c ∷ text)) (c ∷ text) (omega arith))
          (bind_pure (parse_body db (parsed body r (insert_all fields [])) (c ∷ text) w) _)

abbrev is_ok : {V : Type 0} → Result V → Bool
is_ok (ok v) = true
is_ok (fail f) = false

abbrev value_or : {V : Type 0} → V → Result V → V
value_or d (ok v) = v
value_or d (fail f) = d

-- the outcome on the buffer, from the outcome on its bytes
returned :
    (db : Database) (x : Result (Bool × HttpRequest × Buffer × World db)) (good : Bool)
    (q : HttpRequest) (bytes : Bytes) (w : World db)
    → seen db x ≡ ok (good, q, bytes, w)
    → Returns x (λ r. (r.0 ≡ good) × (r.1 ≡ q) × (view r.2 ≡ bytes) × (r.3 ≡ w))
returned db (fail f) good q bytes w e = absurd (false≢true (ap is_ok e))
returned db (ok r) good q bytes w e =
    let Outcome : Type 0 = Bool × HttpRequest × Bytes × World db in
    let d : Outcome = (good, q, bytes, w) in
    let p : Path Outcome (r.0, r.1, view r.2, r.3) d = ap (value_or d) e in
    (
      r,
      refl,
      (
        ap (λ (t : Outcome). t.0) p,
        ap (λ (t : Outcome). t.1) p,
        ap (λ (t : Outcome). t.2) p,
        ap (λ (t : Outcome). t.3) p,
      ),
    )

-- A request that is printed from a plain request line and plain fields is parsed to its method, the
-- completed path, its version and the fields; the whole request is taken off the buffer.
pub parse-print :
    (db : Database) (r : RequestLine) (fields : List Field) (b : Buffer) (w : World db)
    → IsValid b
    → IsPlain r
    → All IsPlainField fields
    → view b ≡ print r fields []
    → Returns (parse db init b w) (λ s.
      (s.0 ≡ true) × (s.1 ≡ parsed finish r (insert_all fields [])) × (view s.2 ≡ []) × (s.3 ≡ w))
parse-print db r fields b w v plain hs e =
    returned db (parse db init b w) true (parsed finish r (insert_all fields [])) [] w (
      parse_refines db init b w v
      ∙ ap (λ t. parse_all db init t w) e
      ∙ parse_print_all db r fields w plain hs)

-- If a body of one line follows, it is handed to `ParseBody_` with the head of the request in place,
-- and it is still in the buffer when `parse` returns.
pub parse-print_body :
    (db : Database) (r : RequestLine) (fields : List Field) (c : ℕ) (text : Bytes) (b : Buffer)
    (w : World db)
    → IsValid b
    → IsPlain r
    → All IsPlainField fields
    → has 13 (c ∷ text) ≡ false
    → view b ≡ print r fields (c ∷ text)
    → seen db (parse db init b w)
      ≡ parse_body db (parsed body r (insert_all fields [])) (c ∷ text) w >>= λ s.
          ok (true, s.0, c ∷ text, s.1)
parse-print_body db r fields c text b w v plain hs h e =
    parse_refines db init b w v
    ∙ ap (λ t. parse_all db init t w) e
    ∙ parse_print_body_all db r fields w plain hs c text h

pub length-print :
    (r : RequestLine) (fields : List Field) (text : Bytes) → 0 < length (print r fields text)
length-print r fields text =
    omega (arith, length-append (line_of r) (13 ∷ 10 ∷ print_headers fields text))
