-- ===== src/HttpRequest/Ends.antt =====
-- The rounds of the loop of `HttpRequest::parse` (src/http/httprequest.cc).
use Prim.Native.Nat.{ℕ}
use tiny_http_server.Prelude.{
  zero, suc, ◌+◌, ◌<◌, ◌≡◌, ◌≢◌, ◌∙◌, Bool, true, false, List, [], ◌∷◌, refl, arith, ◌==◌, ◌||◌,
  length, length-drop, drop, Bool-cases, inl, inr, ap, sym, leb, none, some, bytes_eq, Option,
  codes,
}
use tiny_http_server.Prelude.Result.{
  Result, ok, fail, ◌>>=◌, out_of_fuel, check, assertion, length_error, out_of_bounds, overflow,
  blocked, empty_function,
}
use mathlib.Core.Bool.{false≢true}
use tiny_http_server.Prelude.Map.{Bytes, Map, index}
use tiny_http_server.Buffer.{Buffer}
use tiny_http_server.Buffer.Bounds.{IsValid, view}
use tiny_http_server.SqlPool.{
  SqlPool, Conn, acquire, release, free_conn, get_conn, take_conn, not_null,
}
use tiny_http_server.Urlencoded.{parse_from_urlencoded}
use tiny_http_server.Urlencoded.Progress.{parse_cases}
use tiny_http_server.UserVerify.{
  Database, World, Answer, refused, rows, user_verify, verify_answer, verify_rows,
}
use tiny_http_server.HttpRequest.{
  HttpRequest, ParseState, request_line, headers, body, finish, parse_line, parse, find_crlf,
  is_finish, parse_body, parse_post, parse_form, parse_login, parse_path, parse_tag,
  parse_request_line,
}
use tiny_http_server.HttpRequest.Refine.{
  parse_bytes, parse_all, parse_refines, seen, find_crlf_cases,
}

-- the rounds of a loop did not run out
abbrev ends {ℓ} : {V : Type ℓ} → Result V → Bool
ends (ok v) = true
ends (fail out_of_fuel) = false
ends (fail assertion) = true
ends (fail length_error) = true
ends (fail out_of_bounds) = true
ends (fail overflow) = true
ends (fail blocked) = true
ends (fail empty_function) = true

ends-bind :
    {V W : Type 0} (x : Result V) (f : V → Result W)
    → ends x ≡ true
    → ((v : V) → ends (f v) ≡ true)
    → ends (x >>= f) ≡ true
ends-bind (fail out_of_fuel) f h k = absurd (false≢true h)
ends-bind (fail assertion) f h k = refl
ends-bind (fail length_error) f h k = refl
ends-bind (fail out_of_bounds) f h k = refl
ends-bind (fail overflow) f h k = refl
ends-bind (fail blocked) f h k = refl
ends-bind (fail empty_function) f h k = refl
ends-bind (ok v) f h k = k v

free_conn-ends : (c : Conn) (p : SqlPool) → ends (free_conn c p) ≡ true
unfolding free_conn
free_conn-ends none p = refl
free_conn-ends (some c) p = refl

release-ends : (c : Conn) (p : SqlPool) → ends (release c p) ≡ true
unfolding release
release-ends none p = refl
release-ends (some c) p = free_conn-ends (some c) p

take_conn-ends :
    (n : ℕ) (c : Conn) (rest : List Conn) (p : SqlPool) → ends (take_conn n c rest p) ≡ true
unfolding take_conn
take_conn-ends zero c rest p = refl
take_conn-ends (suc n) c rest p = refl

acquire-ends : (p : SqlPool) → ends (acquire p) ≡ true
unfolding acquire get_conn
acquire-ends p =
    elim p.conn_que
      as (λ q.
        ends (elim q [ [] ↦ ok (none, p) | sql ∷ rest ↦ take_conn p.sem sql rest p ]) ≡ true) [
          | [] ↦ refl
          | c ∷ rest ↦ take_conn-ends p.sem c rest p
        ]

parse_from_urlencoded-ends :
    (input : Bytes) (post : Map) → ends (parse_from_urlencoded input post) ≡ true
parse_from_urlencoded-ends input post = elim (parse_cases input post) [
  | inl e ↦ rw e refl
  | inr (r, e, h) ↦ rw e refl
]

check-ends : (b : Bool) → ends (check b assertion) ≡ true
check-ends true = refl
check-ends false = refl

module _ (db : Database) where
  verify_answer-ends :
      (c : Conn) (name pwd : Bytes) (is_login : Bool) (w : World db) (a : db.State × Answer)
      → ends (verify_answer db c name pwd is_login w a) ≡ true
  unfolding verify_rows verify_answer
  verify_answer-ends c name pwd is_login w (st, refused) = refl
  verify_answer-ends c name pwd is_login w (st, rows found) =
      ends-bind _ _ (free_conn-ends c _) (λ p. refl)

  user_verify-ends :
      (name pwd : Bytes) (is_login : Bool) (w : World db)
      → ends (user_verify db name pwd is_login w) ≡ true
  unfolding user_verify
  user_verify-ends name pwd is_login w = elim (Bool-cases (bytes_eq name [] || bytes_eq pwd [])) [
    | inl e ↦ rw e refl
    | inr e ↦ rw e (
        ends-bind (acquire w.pool) _ (acquire-ends w.pool) λ r.
          ends-bind (release r.0 r.1) _ (release-ends r.0 r.1) λ p.
            ends-bind (check (not_null r.0) assertion) _ (check-ends (not_null r.0)) λ u.
              verify_answer-ends r.0 name pwd is_login (record { pool = p; store = w.store }) _)
  ]

  parse_tag-ends :
      (t : Option Bool) (q : HttpRequest) (w : World db) → ends (parse_tag db t q w) ≡ true
  unfolding parse_login
  parse_tag-ends none q w = refl
  parse_tag-ends (some is_login) q w = ends-bind _ _ (user_verify-ends _ _ is_login w) (λ r. refl)

  parse_post-ends : (q : HttpRequest) (w : World db) → ends (parse_post db q w) ≡ true
  unfolding parse_post parse_form
  parse_post-ends q w = elim (Bool-cases (bytes_eq q.method (codes "POST"))) [
    | inr e ↦ rw e refl
    | inl e ↦
        rw e
          (elim (Bool-cases (
            bytes_eq (index (codes "Content-Type") q.header).0
              (codes "application/x-www-form-urlencoded"))) [
                | inr e' ↦ rw e' refl
                | inl e' ↦ rw e' (
                    ends-bind _ _ (parse_from_urlencoded-ends q.content q.post)
                      (λ form. parse_tag-ends _ _ w))
              ])
  ]

  parse_line-ends :
      (q : HttpRequest) (s : ParseState) (line : Bytes) (n : ℕ) (w : World db)
      → ends (parse_line db q s line n w) ≡ true
  unfolding parse_line parse_body
  parse_line-ends q request_line line n w =
      elim (parse_request_line q line)
        as (λ t.
          ends {V = Bool × HttpRequest × World db} (elim t [
            | none ↦ ok (false, q, w)
            | some r ↦ ok (true, record r { path = parse_path r.path }, w)
          ])
          ≡ true) [ none ↦ refl | some r ↦ refl ]
  parse_line-ends q headers line n w = refl
  parse_line-ends q body line n w =
      ends-bind _ _ (ends-bind _ _ (parse_post-ends _ w) (λ r. refl)) (λ r. refl)
  parse_line-ends q finish line n w = refl

  parse_bytes-ends :
      (rounds : ℕ) (q : HttpRequest) (input : Bytes) (w : World db)
      → length input < rounds
      → ends (parse_bytes db rounds q input w) ≡ true
  unfolding parse_bytes
  parse_bytes-ends zero q input w h = absurd (omega arith)
  parse_bytes-ends (suc rounds) q input w h =
      elim (Bool-cases ((length input == 0) || is_finish q.state)) [
        | inl e ↦ rw e refl
        | inr e ↦ rw e (
            ends-bind _ _ (parse_line-ends q q.state _ _ w) λ r. elim (Bool-cases r.0) [
              | inr bad ↦ rw bad refl
              | inl good ↦ elim (Bool-cases (find_crlf input == length input)) [
                | inl last ↦ rw (good, last) refl
                | inr more ↦
                    rw (good, more)
                      (parse_bytes-ends rounds r.1 (drop (find_crlf input + 2) input) r.2 (
                        ground
                          (arith, find_crlf_cases input, length-drop (find_crlf input + 2) input)))
              ]
            ])
      ]

-- On a valid buffer, whatever the request, the bytes and the database are, the loop of `parse` ends
-- within one round more than there are readable bytes.
pub parse_ends :
    (db : Database) (q : HttpRequest) (b : Buffer) (w : World db)
    → IsValid b
    → parse db q b w ≢ fail out_of_fuel
unfolding parse_all
parse_ends db q b w v stuck =
    let same : seen db (parse db q b w) ≡ parse_all db q (view b) w = parse_refines db q b w v in
    let good : ends (parse_all db q (view b) w) ≡ true =
      elim (Bool-cases (leb (length (view b)) 0)) [
        | inl e ↦ rw e refl
        | inr e ↦ rw e (parse_bytes-ends db (suc (length (view b))) q (view b) w (omega arith))
      ] in
    false≢true (ap (λ r. ends (seen db r)) (sym stuck) ∙ ap ends same ∙ good)
