-- ===== src/Urlencoded.antt =====
-- `HttpRequest::ParseFromUrlencoded_` and `ConverHex` of src/http/httprequest.cc: a body such as
-- `a=1&b=2` is read into a map, and rewritten in place on the way.
pub mod Progress
pub mod Fields
pub mod Decode
pub mod Escape
mod Tests
use Prim.Native.Nat.{ℕ}
use tiny_http_server.Prelude.{
  ℕ, zero, suc, ◌+◌, ◌-◌, ◌*◌, ◌/◌, ◌%◌, Bool, true, false, List, [], ◌∷◌, Option, none, some, ltb,
  leb, ◌==◌, if◌then◌else◌, ◌&&◌, length, get_elem?, set, slice, not,
}
use tiny_http_server.Prelude.Result.{
  Result, ok, fail, ◌>>=◌, ◌>>◌, check, assertion, out_of_bounds, out_of_fuel,
}
use tiny_http_server.Prelude.Map.{Bytes, Map, insert, contains}

-- An `int`: `negsuc n` is -(n + 1). The values here stay below 2 ^ 12.
pub data ℤ : Type 0 where
  pos : ℕ → ℤ
  negsuc : ℕ → ℤ

-- a - b
abbrev pub sub_ℕ : ℕ → ℕ → ℤ
sub_ℕ a b = if leb b a then pos (a - b) else negsuc (b - a - 1)

-- `char` is signed: bytes from 128 on are negative.
abbrev pub of_char : ℕ → ℤ
of_char c = if ltb c 128 then pos c else negsuc (255 - c)

unfoldable pub conver_hex : ℕ → ℤ
conver_hex ch =
    if leb b'A' ch && leb ch b'F'
    then pos (ch - b'A' + 10)
    else if leb b'a' ch && leb ch b'f'
    then pos (ch - b'a' + 10)
    else of_char ch

-- a * 16 + b
abbrev pub hex_pair : ℤ → ℤ → ℤ
hex_pair (pos a) (pos b) = pos (a * 16 + b)
hex_pair (pos a) (negsuc b) = sub_ℕ (a * 16) (b + 1)
hex_pair (negsuc a) (pos b) = sub_ℕ b ((a + 1) * 16)
hex_pair (negsuc a) (negsuc b) = negsuc (a * 16 + b + 16)

-- `x + '0'` as a `char`
abbrev pub digit_char : ℤ → ℕ
digit_char (pos n) = (n + b'0') % 256
digit_char (negsuc n) = (b'0' + 256 - (n + 1) % 256) % 256

-- `x / 10` and `x % 10`, which round towards zero.
abbrev pub tens : ℤ → ℤ
tens (pos n) = pos (n / 10)
tens (negsuc n) = sub_ℕ 0 ((n + 1) / 10)

abbrev pub ones : ℤ → ℤ
ones (pos n) = pos (n % 10)
ones (negsuc n) = sub_ℕ 0 ((n + 1) % 10)

-- `body_[i]`: the terminator can be read behind the last byte, and nothing beyond it.
unfoldable pub read : Bytes → ℕ → Result ℕ
read body i = elim (get_elem? body i) [
  | some c ↦ ok c
  | none ↦ if i == length body then ok 0 else fail out_of_bounds
]

-- `body_[i] = c`: the terminator must not be overwritten.
unfoldable pub write : Bytes → ℕ → ℕ → Result Bytes
write body i c = do check (ltb i (length body)) out_of_bounds; ok (set body i c)

-- The variables of the loop; `key` holds the name of the field that is being read.
pub record Scan : Type 0 where
  pub body : Bytes
  pub i : ℕ
  pub j : ℕ
  pub key : Bytes
  pub post : Map

abbrev pub percent : ℕ
percent = b'%'

abbrev pub equals : ℕ
equals = b'='

abbrev pub plus : ℕ
plus = b'+'

abbrev pub ampersand : ℕ
ampersand = b'&'

-- The two digits that the `case '%'` stores over the two that it has read.
unfoldable pub store_digits : Scan → ℤ → Result Scan
store_digits s num = do
  body' ← write s.body (s.i + 2) (digit_char (ones num))
  body'' ← write body' (s.i + 1) (digit_char (tens num))
  ok (record s { body = body''; i = s.i + 2 })

-- The `case '%'`, up to its `break`.
unfoldable pub escape : Scan → Result Scan
escape s = do
  hi ← read s.body (s.i + 1)
  lo ← read s.body (s.i + 2)
  store_digits s (hex_pair (conver_hex hi) (conver_hex lo))

-- The `switch` on the character at `i`, and the `i++` of the loop.
unfoldable pub scan_char : Scan → ℕ → Result Scan
scan_char s ch =
    if ch == equals
    then ok (record s { key = slice s.body s.j (s.i - s.j); j = s.i + 1; i = s.i + 1 })
    else if ch == plus
    then ok (record s { body = set s.body s.i b' '; i = s.i + 1 })
    else if ch == percent
    then (do s' ← escape s; ok (record s' { i = s'.i + 1 }))
    else if ch == ampersand
    then ok (record s {
      j = s.i + 1;
      post = insert s.key (slice s.body s.j (s.i - s.j)) s.post;
      i = s.i + 1;
    })
    else ok (record s { i = s.i + 1 })

-- `for (; i < n; i++)`; each round moves `i` on, so `n` rounds are enough.
unfoldable pub scan : ℕ → Scan → Result Scan
scan zero s = fail out_of_fuel
scan (suc rounds) s = elim (get_elem? s.body s.i) [
  | none ↦ ok s
  | some ch ↦ scan_char s ch >>= scan rounds
]

-- The last field is stored if its name is new and its value not empty.
abbrev pub stored : Scan → Map
stored s =
    if not (contains s.key s.post) && ltb s.j s.i
    then insert s.key (slice s.body s.j (s.i - s.j)) s.post
    else s.post

-- What follows the loop.
unfoldable pub finish : Scan → Result (Bytes × Map)
finish s = do check (leb s.j s.i) assertion; ok (s.body, stored s)

-- The rewritten body and the fields.
unfoldable pub parse_from_urlencoded : Bytes → Map → Result (Bytes × Map)
parse_from_urlencoded body post = if length body == 0 then ok (body, post) else (do
  s ← scan (suc (length body)) (record { body = body; i = 0; j = 0; key = []; post = post })
  finish s)
