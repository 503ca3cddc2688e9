-- ===== src/HttpResponse/Layout.antt =====
-- What a response looks like in the buffer.
use Prim.Native.Nat.{ℕ}
use tiny_http_server.Prelude.{
  ◌+◌, ◌≤◌, ◌≡◌, ◌∙◌, Bool, true, false, List, [], ◌∷◌, ◌++◌, none, some, refl, arith, codes, ap,
  sym, length, length-append, append_assoc, append-nil, bytes_eq, take,
}
use tiny_http_server.Prelude.Result.{ok, Returns}
use tiny_http_server.Prelude.Map.{Bytes}
use tiny_http_server.Buffer.{Buffer, append, max_size}
use tiny_http_server.Buffer.Bounds.{IsValid, view}
use tiny_http_server.Buffer.View.{Shows, append-Shows}
use tiny_http_server.HttpResponse.{
  Stat, FileSystem, HttpResponse, append_all, state_line, header_texts, length_text, error_body,
  error_content, add_state_line, add_header, add_content, error_html, file_name, make_response,
  code_status, code_path, choose_code,
}

abbrev pub joined : List Bytes → Bytes
joined [] = []
joined (text ∷ texts) = text ++ joined texts

append_all-Shows :
    (texts : List Bytes) {b : Buffer} (v : IsValid b)
    → b.writer_index + length (joined texts) ≤ max_size
    → Returns
        (append_all b texts)
        (Shows (b.writer_index + length (joined texts)) (view b ++ joined texts))
unfolding append_all
append_all-Shows [] {b} v room =
    (b, refl, record { valid = v; low = omega arith; shown = sym (append-nil (view b)) })
append_all-Shows (text ∷ texts) {b} v room =
    let both : length (text ++ joined texts) ≡ length text + length (joined texts) =
      length-append text (joined texts) in
    let (b', e, s) = append-Shows v text (omega (arith, both)) in
    let (b'', e', s') = append_all-Shows texts s.valid (omega (arith, s.low, both)) in
    (
      b'',
      rw e e',
      record {
        valid = s'.valid;
        low = omega (arith, s'.low, s.low, both);
        shown =
            s'.shown
            ∙ ap (λ t. t ++ joined texts) s.shown
            ∙ append_assoc (view b) text (joined texts);
      },
    )

-- the texts of a response before its file
abbrev pub ok_texts : Bool → Bytes → ℕ → List Bytes
ok_texts is_keep_alive path size =
    state_line 200 (codes "OK") ∷ header_texts is_keep_alive path ++ length_text size ∷ []

abbrev pub missing_texts : Bool → List Bytes
missing_texts is_keep_alive =
    let text = error_body (some 404) (codes "File NotFound!") in
    state_line 404 (codes "Not Found") ∷ header_texts is_keep_alive (codes "/404.html")
    ++ length_text (length text) ∷ text ∷ []

joined-append : (xs ys : List Bytes) → joined (xs ++ ys) ≡ joined xs ++ joined ys
joined-append [] ys = refl
joined-append (x ∷ xs) ys =
    ap (◌++◌ x) (joined-append xs ys) ∙ sym (append_assoc x (joined xs) (joined ys))

-- the buffer after the status line, after the headers and at the end
record Written (b : Buffer) (first : Bytes) (middle last : List Bytes) : Type 0 where
  pub b1 : Buffer
  pub b2 : Buffer
  pub b3 : Buffer
  pub line : append b first ≡ ok b1
  pub headers : append_all b1 middle ≡ ok b2
  pub content : append_all b2 last ≡ ok b3
  pub valid : IsValid b3
  pub low : b3.writer_index ≤ b.writer_index + length (joined (first ∷ middle ++ last))
  pub shown : view b3 ≡ view b ++ joined (first ∷ middle ++ last)

writes :
    {b : Buffer} (v : IsValid b) (first : Bytes) (middle last : List Bytes)
    → b.writer_index + length (joined (first ∷ middle ++ last)) ≤ max_size
    → Written b first middle last
writes {b} v first middle last room =
    let size : length (joined (first ∷ middle ++ last))
        ≡ length first + (length (joined middle) + length (joined last)) =
      length-append first (joined (middle ++ last))
      ∙ ap (λ t. length first + t)
          (ap length (joined-append middle last) ∙ length-append (joined middle) (joined last)) in
    let (b1, e1, s1) = append-Shows v first (omega (arith, size)) in
    let (b2, e2, s2) = append_all-Shows middle s1.valid (omega (arith, s1.low, size)) in
    let (b3, e3, s3) = append_all-Shows last s2.valid (omega (arith, s1.low, s2.low, size)) in
    record {
      b1 = b1;
      b2 = b2;
      b3 = b3;
      line = e1;
      headers = e2;
      content = e3;
      valid = s3.valid;
      low = omega (arith, s3.low, s2.low, s1.low, size);
      shown =
          s3.shown
          ∙ ap (λ t. t ++ joined last) (s2.shown ∙ ap (λ t. t ++ joined middle) s1.shown)
          ∙ append_assoc (view b ++ first) (joined middle) (joined last)
          ∙ append_assoc (view b) first (joined middle ++ joined last)
          ∙ ap (λ t. view b ++ (first ++ t)) (sym (joined-append middle last));
    }

add_state_line_ok :
    (q : HttpResponse) (b b' : Buffer) (code : ℕ) (status : Bytes)
    → q.code ≡ some code
    → code_status (some code) ≡ some status
    → append b (state_line code status) ≡ ok b'
    → add_state_line q b ≡ ok (q, b')
unfolding add_state_line
add_state_line_ok q b b' code status e known written = rw (e, known, written) refl

error_html-none :
    (files : FileSystem) (q : HttpResponse) → code_path q.code ≡ none → error_html files q ≡ q
unfolding error_html
error_html-none files q e = rw (error_html, e) refl

add_content_found :
    (files : FileSystem) (q : HttpResponse) (b b' : Buffer) (held mapped : Bytes)
    → files.open_file (file_name files q) ≡ some held
    → files.mmap q.mm_file_stat.st_size held ≡ some mapped
    → bytes_eq (take 4 mapped) (255 ∷ 255 ∷ 255 ∷ 255 ∷ []) ≡ false
    → append_all b (length_text q.mm_file_stat.st_size ∷ []) ≡ ok b'
    → add_content files q b ≡ ok (record q { mm_file = some mapped }, b')
unfolding add_content
add_content_found files q b b' held mapped opened map plain written =
    rw (opened, map, plain, written) refl

add_content_missing :
    (files : FileSystem) (q : HttpResponse) (b b' : Buffer)
    → files.open_file (file_name files q) ≡ none
    → error_content q b (codes "File NotFound!") ≡ ok b'
    → add_content files q b ≡ ok (q, b')
unfolding add_content
add_content_missing files q b b' missing written = rw (missing, written) refl

-- A request for a file that others may read and that can be mapped, made with the code 200, is
-- answered by the status line, the headers with the type of the file, and its length, and the file
-- is mapped; the buffer stays valid.
pub make_response-found :
    (files : FileSystem) (q : HttpResponse) (b : Buffer) (size : ℕ) (held mapped : Bytes)
    → IsValid b
    → q.code ≡ some 200
    → files.stat (file_name files q)
      ≡ some (record { st_size = size; is_dir = false; others_read = true })
    → files.open_file (file_name files q) ≡ some held
    → files.mmap size held ≡ some mapped
    → bytes_eq (take 4 mapped) (255 ∷ 255 ∷ 255 ∷ 255 ∷ []) ≡ false
    → b.writer_index + length (joined (ok_texts q.is_keep_alive q.path size)) ≤ max_size
    → Returns (make_response files q b) (λ r.
      (r.0.mm_file ≡ some mapped)
      × (r.0.mm_file_stat.st_size ≡ size)
      × Shows
          (b.writer_index + length (joined (ok_texts q.is_keep_alive q.path size)))
          (view b ++ joined (ok_texts q.is_keep_alive q.path size))
          r.1)
unfolding make_response add_header
make_response-found files q b size held mapped v code found opened map plain room =
    let st : Stat = record { st_size = size; is_dir = false; others_read = true } in
    let w =
      writes v (state_line 200 (codes "OK")) (header_texts q.is_keep_alive q.path)
        (length_text size ∷ []) room in
    let q' : HttpResponse = record q {
      code = choose_code files (some st) q.code;
      mm_file_stat = st;
    } in
    let chosen : q'.code ≡ some 200 = ap (choose_code files (some st)) code in
    (
      (record q' { mm_file = some mapped }, w.b3),
      rw
          (
            found,
            error_html-none files q' (ap code_path chosen),
            add_state_line_ok q' b w.b1 200 (codes "OK") chosen refl w.line,
            w.headers,
            add_content_found files q' w.b2 w.b3 held mapped opened map plain w.content,
          )
          refl,
      (refl, refl, record { valid = w.valid; low = w.low; shown = w.shown }),
    )

-- A request for a file that is not there, where the page for the code 404 is not there either, is
-- answered by a response of that code that carries its own page.
pub make_response-missing :
    (files : FileSystem) (q : HttpResponse) (b : Buffer)
    → IsValid b
    → files.stat (file_name files q) ≡ none
    → files.stat (file_name files (record q { path = codes "/404.html" })) ≡ none
    → files.open_file (file_name files (record q { path = codes "/404.html" })) ≡ none
    → b.writer_index + length (joined (missing_texts q.is_keep_alive)) ≤ max_size
    → Returns
        (make_response files q b)
        (λ r. (r.0.code ≡ some 404) × (view r.1 ≡ view b ++ joined (missing_texts q.is_keep_alive)))
unfolding make_response error_html add_header error_content
make_response-missing files q b v gone no_page closed room =
    let text : Bytes = error_body (some 404) (codes "File NotFound!") in
    let w =
      writes v (state_line 404 (codes "Not Found"))
        (header_texts q.is_keep_alive (codes "/404.html")) (length_text (length text) ∷ text ∷ [])
        room in
    let q' : HttpResponse = record q { code = some 404; path = codes "/404.html" } in
    (
      (q', w.b3),
      rw
          (
            gone,
            no_page,
            add_state_line_ok q' b w.b1 404 (codes "Not Found") refl refl w.line,
            w.headers,
            add_content_missing files q' w.b2 w.b3 closed w.content,
          )
          refl,
      (refl, w.shown),
    )
