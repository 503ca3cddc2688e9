-- ===== src/Patterns/Spec.antt =====
-- The matchers against the expressions read as statements about the line.
use Prim.Native.Nat.{ℕ}
use tiny_http_server.Prelude.{
  has, ◌≡◌, ◌↔◌, ◌⊎◌, true, false, [], ◌∷◌, ◌++◌, some, refl, ap, inl, inr, arith, Bool-cases,
  Option-cases, ◌==◌, ==_iff,
}
use tiny_http_server.Prelude.Map.{Bytes}
use tiny_http_server.Patterns.{
  RequestLine, split_first, strip_prefix, space, colon, http, match_request_line, match_header,
  skip_space, one_line,
}

-- `line` is `method path HTTP/version`, with no space in the three.
pub record IsRequestLine (line : Bytes) (r : RequestLine) : Type 0 where
  pub shape : line ≡ r.method ++ space ∷ (r.path ++ space ∷ (http ++ r.version))
  pub method : has space r.method ≡ false
  pub path : has space r.path ≡ false
  pub version : has space r.version ≡ false

split_first_sound :
    (c : ℕ) (xs a b : Bytes)
    → split_first c xs ≡ some (a, b)
    → (xs ≡ a ++ c ∷ b) × (has c a ≡ false)
unfolding split_first
split_first_sound c [] a b h = cc
split_first_sound c (x ∷ xs) a b h = elim (Option-cases (split_first c xs)) [
  | inl e ↦ ground (arith, e)
  | inr ((a', b'), e) ↦ ground (arith, e, split_first_sound c xs a' b' e)
]

split_first_complete :
    (c : ℕ) (a b : Bytes) → has c a ≡ false → split_first c (a ++ c ∷ b) ≡ some (a, b)
unfolding split_first
split_first_complete c [] b h = ground arith
split_first_complete c (x ∷ a) b h = ground (arith, split_first_complete c a b)

strip_prefix_sound : (ps xs v : Bytes) → strip_prefix ps xs ≡ some v → xs ≡ ps ++ v
unfolding strip_prefix
strip_prefix_sound [] xs v h = ground arith
strip_prefix_sound (p ∷ ps) [] v h = cc
strip_prefix_sound (p ∷ ps) (x ∷ xs) v h = ground (arith, strip_prefix_sound ps xs v)

strip_prefix_complete : (ps v : Bytes) → strip_prefix ps (ps ++ v) ≡ some v
unfolding strip_prefix
strip_prefix_complete [] v = refl
strip_prefix_complete (p ∷ ps) v = ground (arith, strip_prefix_complete ps v)

-- A line that the first expression matches is a request line of the groups, and every request line
-- is matched, with these groups.
pub match_request_line_sound :
    (line : Bytes) (r : RequestLine) → match_request_line line ≡ some r → IsRequestLine line r
unfolding match_request_line
match_request_line_sound line r h = elim (Option-cases (split_first space line)) [
  | inl e ↦ ground (arith, e)
  | inr ((m, rest), e) ↦ elim (Option-cases (split_first space rest)) [
    | inl e' ↦ ground (arith, e, e')
    | inr ((p, rest'), e') ↦ elim (Option-cases (strip_prefix http rest')) [
      | inl e'' ↦ ground (arith, e, e', e'')
      | inr (v, e'') ↦ ground (
        arith,
        e,
        e',
        e'',
        split_first_sound space line m rest e,
        split_first_sound space rest p rest' e',
        strip_prefix_sound http rest' v e'',
      )
    ]
  ]
]

pub match_request_line_complete :
    (line : Bytes) (r : RequestLine) → IsRequestLine line r → match_request_line line ≡ some r
unfolding match_request_line
match_request_line_complete line r s = rw (
  s.shape,
  split_first_complete space r.method _ s.method,
  split_first_complete space r.path _ s.path,
  strip_prefix_complete http r.version,
  s.version,
)

-- `line` is `name: value`, where one space behind the colon is dropped.
pub record IsHeader (line name value : Bytes) : Type 0 where
  pub shape :
      (line ≡ name ++ colon ∷ space ∷ value)
      ⊎ ((line ≡ name ++ colon ∷ value) × (skip_space value ≡ value))
  pub no_colon : has colon name ≡ false
  pub single : one_line value ≡ true

skip_space_cases :
    (xs : Bytes)
    → (xs ≡ space ∷ skip_space xs)
      ⊎ ((xs ≡ skip_space xs) × (skip_space (skip_space xs) ≡ skip_space xs))
skip_space_cases [] = inr (refl, refl)
skip_space_cases (x ∷ xs) = elim (Bool-cases (x == space)) [
  | inl e ↦ inl (rw e (ap (λ t. t ∷ xs) ((==_iff x space).0 e)))
  | inr e ↦ inr (rw e (refl, rw e refl))
]

-- A line that the second expression matches is a header of its two groups, and every header is
-- matched, with these groups.
pub match_header_sound :
    (line name value : Bytes) → match_header line ≡ some (name, value) → IsHeader line name value
unfolding match_header
match_header_sound line name value h = elim (Option-cases (split_first colon line)) [
  | inl e ↦ ground (arith, e)
  | inr ((k, rest), e) ↦
      let p = split_first_sound colon line k rest e in
      let c = skip_space_cases rest in ground (arith, e, p, c)
]

pub match_header_complete :
    (line name value : Bytes) → IsHeader line name value → match_header line ≡ some (name, value)
unfolding match_header
match_header_complete line name value s = elim s.shape [
  | inl e ↦ rw (e, split_first_complete colon name (space ∷ value) s.no_colon, s.single) refl
  | inr (e, kept) ↦ rw (e, split_first_complete colon name value s.no_colon, kept, s.single) refl
]

-- The first expression matches exactly the request lines, each with its three groups.
pub match_request_line_iff :
    (line : Bytes) (r : RequestLine) → (match_request_line line ≡ some r) ↔ IsRequestLine line r
match_request_line_iff line r =
    (match_request_line_sound line r, match_request_line_complete line r)

-- The second expression matches exactly the header lines, each with its name and value.
pub match_header_iff :
    (line name value : Bytes) → (match_header line ≡ some (name, value)) ↔ IsHeader line name value
match_header_iff line name value =
    (match_header_sound line name value, match_header_complete line name value)
