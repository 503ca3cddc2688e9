-- ===== src/Prelude/Map.antt =====
-- `std::unordered_map<std::string, std::string>`: an association list with one entry for a key,
-- whose order the code does not look at.
use Prim.Native.Nat.{ℕ}
use mathlib.Core.Path.{◌≡◌, refl}
use mathlib.Core.Bool.{Bool, true, false}
use mathlib.Core.List.{List, [], ◌∷◌}
use mathlib.Core.Option.{Option, none, some}
use native.Mathlib.Omega.{arith}
use tiny_http_server.Prelude.Tests.{if◌then◌else◌}
use tiny_http_server.Prelude.Bytes.{bytes_eq, bytes_eq_iff}

abbrev pub Bytes : Type 0
Bytes = List ℕ

abbrev pub Map : Type 0
Map = List (Bytes × Bytes)

-- `find`
unfoldable pub lookup : Bytes → Map → Option Bytes
lookup k [] = none
lookup k ((j, v) ∷ m) = if bytes_eq j k then some v else lookup k m

-- `count(k) == 1`
unfoldable pub contains : Bytes → Map → Bool
unfolding lookup
contains k m = elim (lookup k m) [ none ↦ false | some v ↦ true ]

-- `m[k] = v`
unfoldable pub insert : Bytes → Bytes → Map → Map
insert k v [] = (k, v) ∷ []
insert k v ((j, w) ∷ m) = if bytes_eq j k then (j, v) ∷ m else (j, w) ∷ insert k v m

-- `m[k]`, which puts an empty text under a key that is missing.
unfoldable pub index : Bytes → Map → Bytes × Map
unfolding lookup insert
index k m = elim (lookup k m) [ none ↦ ([], insert k [] m) | some v ↦ (v, m) ]

-- A look-up after an assignment: the new value under that key, and the old values elsewhere.
pub lookup-insert :
    (k i v : Bytes) (m : Map)
    → lookup i (insert k v m) ≡ (if bytes_eq k i then some v else lookup i m)
unfolding lookup insert
lookup-insert k i v [] = refl
lookup-insert k i v ((j, w) ∷ m) =
    ground (arith, bytes_eq_iff j k, bytes_eq_iff k i, bytes_eq_iff j i, lookup-insert k i v m)
