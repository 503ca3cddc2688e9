-- ===== src/Urlencoded/Tests.antt =====
-- The decoder on small bodies.
use tiny_http_server.Prelude.{◌≡◌, ◌⊎◌, refl, [], ◌∷◌, ◌++◌, codes, length}
use tiny_http_server.Prelude.Result.{ok, fail, out_of_bounds, Returns}
use tiny_http_server.Prelude.Map.{insert, contains}
use tiny_http_server.Urlencoded.{
  parse_from_urlencoded, scan, scan_char, finish, escape, store_digits, read, write, conver_hex,
  percent,
}
use tiny_http_server.Urlencoded.Fields.{spaces, named}
use tiny_http_server.Urlencoded.Decode.{Fields, encode, store, parse-encode}
use tiny_http_server.Urlencoded.Progress.{parse_cases}
use tiny_http_server.Urlencoded.Escape.{rewritten, parse_escape}

abbrev more : Fields
more = (codes "b", codes "x+y") ∷ []

decodes :
    parse_from_urlencoded (codes "a=1&b=x+y") []
    ≡ ok (codes "a=1&b=x y", (codes "a", codes "1") ∷ (codes "b", codes "x y") ∷ [])
unfolding parse_from_urlencoded scan scan_char finish insert contains
decodes = refl

-- "%20" becomes the bytes 37, 132 and 56.
space_escape :
    parse_from_urlencoded (codes "a=%20") []
    ≡ ok (codes "a=%" ++ 132 ∷ 56 ∷ [], (codes "a", 37 ∷ 132 ∷ 56 ∷ []) ∷ [])
unfolding parse_from_urlencoded scan scan_char finish insert contains escape store_digits read write
    conver_hex
space_escape = refl

short_escape : parse_from_urlencoded (codes "a=%2") [] ≡ fail out_of_bounds
unfolding parse_from_urlencoded scan scan_char escape store_digits read write conver_hex
short_escape = refl

parse-encode_example :
    parse_from_urlencoded (encode (codes "a") (codes "1") more) []
    ≡ ok (spaces (encode (codes "a") (codes "1") more), store (codes "a") (codes "1") more [])
parse-encode_example =
    parse-encode (codes "a") (codes "1") more []
      (((refl, tt), (refl, tt)), (((refl, tt), (refl, (refl, (refl, tt)))), tt))

parse_cases_example :
    (parse_from_urlencoded (codes "a=%2") [] ≡ fail out_of_bounds)
    ⊎ Returns (parse_from_urlencoded (codes "a=%2") []) (λ r. length r.0 ≡ 4)
parse_cases_example = parse_cases (codes "a=%2") []

parse_escape_example :
    parse_from_urlencoded (codes "a=%20") []
    ≡ ok (
      named (codes "a") [] ++ percent ∷ rewritten 50 48,
      insert (spaces (codes "a")) (percent ∷ rewritten 50 48) [],
    )
unfolding contains spaces
parse_escape_example = parse_escape (codes "a") 50 48 [] (refl, tt) refl
