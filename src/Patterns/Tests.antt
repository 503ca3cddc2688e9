-- ===== src/Patterns/Tests.antt =====
-- The matchers on lines of requests.
use tiny_http_server.Prelude.{◌≡◌, ◌↔◌, refl, none, some, codes}
use tiny_http_server.Patterns.{
  RequestLine, split_first, strip_prefix, match_request_line, match_header,
}
use tiny_http_server.Patterns.Spec.{IsRequestLine, match_request_line_iff}

abbrev home : RequestLine
home = record { method = codes "GET"; path = codes "/"; version = codes "1.1" }

matches : match_request_line (codes "GET / HTTP/1.1") ≡ some home
unfolding match_request_line split_first strip_prefix
matches = refl

two_spaces : match_request_line (codes "GET /a b HTTP/1.1") ≡ none
unfolding match_request_line split_first strip_prefix
two_spaces = refl

header : match_header (codes "Host: a:80") ≡ some (codes "Host", codes "a:80")
unfolding match_header split_first
header = refl

match_request_line_iff_example :
    (match_request_line (codes "GET / HTTP/1.1") ≡ some home)
    ↔ IsRequestLine (codes "GET / HTTP/1.1") home
match_request_line_iff_example = match_request_line_iff (codes "GET / HTTP/1.1") home
