-- ===== src/Patterns.antt =====
-- The two regular expressions of src/http/httprequest.cc, which `std::regex_match` holds against a
-- whole line: `^([^ ]*) ([^ ]*) HTTP/([^ ]*)$` and `^([^:]*): ?(.*)$`.
pub mod Spec
mod Tests
use Prim.Native.Nat.{ℕ}
use tiny_http_server.Prelude.{
  has, Bool, true, false, List, [], ◌∷◌, Option, none, some, ◌==◌, if◌then◌else◌, codes, ◌||◌,
}
use tiny_http_server.Prelude.Map.{Bytes}

-- The groups of the first expression.
pub record RequestLine : Type 0 where
  pub method : Bytes
  pub path : Bytes
  pub version : Bytes

abbrev pub bind {ℓ κ} : {A : Type ℓ} {B : Type κ} → Option A → (A → Option B) → Option B
bind none f = none
bind (some a) f = f a

-- `([^c]*)c`: what stands before the first `c`, and behind it.
unfoldable pub split_first : ℕ → Bytes → Option (Bytes × Bytes)
split_first c [] = none
split_first c (x ∷ xs) =
    let rest = split_first c xs in
    if x == c then some ([], xs) else bind rest (λ r. some (x ∷ r.0, r.1))

unfoldable pub strip_prefix : Bytes → Bytes → Option Bytes
strip_prefix [] xs = some xs
strip_prefix (p ∷ ps) [] = none
strip_prefix (p ∷ ps) (x ∷ xs) = let rest = strip_prefix ps xs in if x == p then rest else none

abbrev pub space : ℕ
space = b' '

abbrev pub colon : ℕ
colon = b':'

abbrev pub http : Bytes
http = codes "HTTP/"

unfoldable pub match_request_line : Bytes → Option RequestLine
match_request_line line = bind (split_first space line) λ a. bind (split_first space a.1) λ b.
    bind (strip_prefix http b.1)
      λ v. if has space v then none else some (record { method = a.0; path = b.0; version = v })

-- ` ?`, which takes a space that is there.
abbrev pub skip_space : Bytes → Bytes
skip_space [] = []
skip_space (x ∷ xs) = if x == space then xs else x ∷ xs

-- `.` matches no line feed and no carriage return.
abbrev pub one_line : Bytes → Bool
one_line v = elim (has 10 v || has 13 v) [ true ↦ false | false ↦ true ]

unfoldable pub match_header : Bytes → Option (Bytes × Bytes)
match_header line =
    bind (split_first colon line)
      λ a. if one_line (skip_space a.1) then some (a.0, skip_space a.1) else none
