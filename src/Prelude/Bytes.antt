-- ===== src/Prelude/Bytes.antt =====
-- Regions of an array, as `std::copy` and `memmove` read and write them, and texts as bytes.
use Prim.Native.Nat.{ℕ, zero, suc, ◌+◌, ◌≤◌}
use Prim.Native.Char.{code}
use Prim.Native.String.{String}
use mathlib.Core.Path.{◌≡◌, refl, ap, subst}
use mathlib.Core.Logic.{◌↔◌}
use mathlib.Core.Bool.{Bool, true, false, ◌&&◌, ◌||◌}
use mathlib.Core.Option.{some, none}
use mathlib.Core.List.{List, [], ◌∷◌, ◌++◌}
use native.Mathlib.Omega.{arith}
use tiny_http_server.Prelude.Tests.{◌==◌}
use tiny_http_server.Prelude.Lists.{
  length, get_elem?, set, drop-append_left, take-append_left, take, drop, take-append, length-take,
  length-drop, take-nil, drop-nil,
}

-- The code points of a text: its bytes, if it is ASCII.
abbrev pub codes : String → List ℕ
codes String.[] = []
codes (String.◌∷◌ c s) = code c ∷ codes s

-- `==` of two `std::string`.
abbrev pub bytes_eq : List ℕ → List ℕ → Bool
bytes_eq [] [] = true
bytes_eq [] (y ∷ ys) = false
bytes_eq (x ∷ xs) [] = false
bytes_eq (x ∷ xs) (y ∷ ys) = (x == y) && bytes_eq xs ys

abbrev pub has : ℕ → List ℕ → Bool
has c [] = false
has c (x ∷ xs) = (x == c) || has c xs

pub has-append : (c : ℕ) (xs ys : List ℕ) → has c (xs ++ ys) ≡ (has c xs || has c ys)
has-append c [] ys = refl
has-append c (x ∷ xs) ys = ground (arith, has-append c xs ys)

pub bytes_eq_sound : (xs ys : List ℕ) → bytes_eq xs ys ≡ true → xs ≡ ys
bytes_eq_sound [] [] h = refl
bytes_eq_sound [] (y ∷ ys) h = ground arith
bytes_eq_sound (x ∷ xs) [] h = ground arith
bytes_eq_sound (x ∷ xs) (y ∷ ys) h = ground (arith, bytes_eq_sound xs ys)

pub bytes_eq_refl : (xs : List ℕ) → bytes_eq xs xs ≡ true
bytes_eq_refl [] = refl
bytes_eq_refl (x ∷ xs) = ground (arith, bytes_eq_refl xs)

pub bytes_eq_iff : (xs ys : List ℕ) → (bytes_eq xs ys ≡ true) ↔ (xs ≡ ys)
bytes_eq_iff xs ys =
    (bytes_eq_sound xs ys, λ e. subst (λ zs. bytes_eq xs zs ≡ true) e (bytes_eq_refl xs))

module _ {ℓ} {A : Type ℓ} where
  -- `n` entries from index `i` on
  abbrev pub slice : List A → ℕ → ℕ → List A
  slice xs i n = take n (drop i xs)

  -- the entries of `ds` stored one by one from index `i` on; what falls outside is dropped
  unfoldable pub write_at : List A → ℕ → List A → List A
  write_at [] i ds = []
  write_at (x ∷ xs) zero [] = x ∷ xs
  write_at (x ∷ xs) zero (d ∷ ds) = d ∷ write_at xs zero ds
  write_at (x ∷ xs) (suc i) ds = x ∷ write_at xs i ds

module _ {ℓ} {A : Type ℓ} where
  pub length-write_at : (xs : List A) (i : ℕ) (ds : List A) → length (write_at xs i ds) ≡ length xs
  unfolding write_at
  length-write_at [] i ds = refl
  length-write_at (x ∷ xs) zero [] = refl
  length-write_at (x ∷ xs) zero (d ∷ ds) = ap suc (length-write_at xs zero ds)
  length-write_at (x ∷ xs) (suc i) ds = ap suc (length-write_at xs i ds)

  take-write_at :
      (xs : List A) (m k : ℕ) (ds : List A)
      → k ≡ m + length ds
      → k ≤ length xs
      → take k (write_at xs m ds) ≡ take m xs ++ ds
  unfolding write_at
  take-write_at [] m zero [] e h = rw (take-nil m) refl
  take-write_at [] m zero (d ∷ ds) e h = absurd (omega arith)
  take-write_at [] m (suc k) ds e h = absurd (omega arith)
  take-write_at (x ∷ xs) zero zero [] e h = refl
  take-write_at (x ∷ xs) zero (suc k) [] e h = absurd (omega arith)
  take-write_at (x ∷ xs) zero zero (d ∷ ds) e h = absurd (omega arith)
  take-write_at (x ∷ xs) zero (suc k) (d ∷ ds) e h =
      ap (◌∷◌ d) (take-write_at xs zero k ds (omega arith) (omega arith))
  take-write_at (x ∷ xs) (suc m) zero ds e h = absurd (omega arith)
  take-write_at (x ∷ xs) (suc m) (suc k) ds e h =
      ap (◌∷◌ x) (take-write_at xs m k ds (omega arith) (omega arith))

  -- a write just behind a region extends it
  pub slice-write_at :
      (xs : List A) (i n m k : ℕ) (ds : List A)
      → m ≡ i + n
      → k ≡ n + length ds
      → i + k ≤ length xs
      → slice (write_at xs m ds) i k ≡ slice xs i n ++ ds
  unfolding write_at
  slice-write_at xs zero n m k ds e e' h =
      let p : m ≡ n = omega arith in rw p (take-write_at xs n k ds e' (omega arith))
  slice-write_at [] (suc i) n m k ds e e' h = absurd (omega arith)
  slice-write_at (x ∷ xs) (suc i) n zero k ds e e' h = absurd (omega arith)
  slice-write_at (x ∷ xs) (suc i) n (suc m) k ds e e' h =
      slice-write_at xs i n m k ds (omega arith) e' (omega arith)

  -- a write before a region leaves it alone
  pub drop-write_at :
      (xs : List A) (m k : ℕ) (ds : List A)
      → m + length ds ≤ k
      → drop k (write_at xs m ds) ≡ drop k xs
  unfolding write_at
  drop-write_at [] m k ds h = refl
  drop-write_at (x ∷ xs) zero k [] h = refl
  drop-write_at (x ∷ xs) zero zero (d ∷ ds) h = absurd (omega arith)
  drop-write_at (x ∷ xs) zero (suc k) (d ∷ ds) h = drop-write_at xs zero k ds (omega arith)
  drop-write_at (x ∷ xs) (suc m) zero ds h = absurd (omega arith)
  drop-write_at (x ∷ xs) (suc m) (suc k) ds h = drop-write_at xs m k ds (omega arith)

  -- an extension behind a region leaves it alone
  pub slice-append :
      (xs ys : List A) (i n : ℕ) → i + n ≤ length xs → slice (xs ++ ys) i n ≡ slice xs i n
  slice-append xs ys zero n h = take-append n xs ys (omega arith)
  slice-append [] ys (suc i) zero h = refl
  slice-append [] ys (suc i) (suc n) h = absurd (omega arith)
  slice-append (x ∷ xs) ys (suc i) n h = slice-append xs ys i n (omega arith)

  pub length-slice : (xs : List A) (i n : ℕ) → i + n ≤ length xs → length (slice xs i n) ≡ n
  length-slice xs i n h = omega (arith, length-take n (drop i xs), length-drop i xs)

  pub take-take : (m n : ℕ) (xs : List A) → m ≤ n → take m (take n xs) ≡ take m xs
  take-take zero n xs h = refl
  take-take (suc m) zero xs h = absurd (omega arith)
  take-take (suc m) (suc n) [] h = refl
  take-take (suc m) (suc n) (x ∷ xs) h = ap (◌∷◌ x) (take-take m n xs (omega arith))

  -- dropping entries of a region moves its start
  pub drop-slice :
      (xs : List A) (i n m j k : ℕ) → j ≡ i + m → n ≡ m + k → drop m (slice xs i n) ≡ slice xs j k
  drop-slice xs (suc i) n m zero k e e' = absurd (omega arith)
  drop-slice [] (suc i) n m (suc j) k e e' = rw (take-nil n, drop-nil m, take-nil k) refl
  drop-slice (x ∷ xs) (suc i) n m (suc j) k e e' = drop-slice xs i n m j k (omega arith) e'
  drop-slice xs zero n zero zero k e e' = let p : n ≡ k = omega arith in rw p refl
  drop-slice xs zero n zero (suc j) k e e' = absurd (omega arith)
  drop-slice xs zero n (suc m) zero k e e' = absurd (omega arith)
  drop-slice xs zero zero (suc m) (suc j) k e e' = absurd (omega arith)
  drop-slice [] zero (suc n) (suc m) (suc j) k e e' = rw take-nil refl
  drop-slice (x ∷ xs) zero (suc n) (suc m) (suc j) k e e' =
      drop-slice xs zero n m j k (omega arith) (omega arith)

  -- a write at the start of a longer region replaces its first part
  pub slice-write_at_front :
      (xs : List A) (i k n j : ℕ) (ds : List A)
      → j ≡ i + length ds
      → k ≡ length ds + n
      → j ≤ length xs
      → slice (write_at xs i ds) i k ≡ ds ++ slice xs j n
  unfolding write_at
  slice-write_at_front [] zero k n zero [] e e' h = let p : k ≡ n = omega arith in rw p refl
  slice-write_at_front [] zero k n (suc j) [] e e' h = absurd (omega arith)
  slice-write_at_front [] zero k n j (d ∷ ds) e e' h = absurd (omega arith)
  slice-write_at_front [] (suc i) k n j ds e e' h = absurd (omega arith)
  slice-write_at_front (x ∷ xs) zero k n zero [] e e' h = let p : k ≡ n = omega arith in rw p refl
  slice-write_at_front (x ∷ xs) zero k n (suc j) [] e e' h = absurd (omega arith)
  slice-write_at_front (x ∷ xs) zero k n zero (d ∷ ds) e e' h = absurd (omega arith)
  slice-write_at_front (x ∷ xs) zero zero n (suc j) (d ∷ ds) e e' h = absurd (omega arith)
  slice-write_at_front (x ∷ xs) zero (suc k) n (suc j) (d ∷ ds) e e' h =
      ap (◌∷◌ d) (slice-write_at_front xs zero k n j ds (omega arith) (omega arith) (omega arith))
  slice-write_at_front (x ∷ xs) (suc i) k n zero ds e e' h = absurd (omega arith)
  slice-write_at_front (x ∷ xs) (suc i) k n (suc j) ds e e' h =
      slice-write_at_front xs i k n j ds (omega arith) e' (omega arith)

  -- what stands behind a prefix, read, written and cut out by its position
  pub get_elem?-append :
      (xs : List A) (x : A) (ys : List A) (i : ℕ)
      → i ≡ length xs
      → get_elem? (xs ++ x ∷ ys) i ≡ some x
  get_elem?-append [] x ys zero e = refl
  get_elem?-append [] x ys (suc i) e = absurd (omega arith)
  get_elem?-append (y ∷ xs) x ys zero e = absurd (omega arith)
  get_elem?-append (y ∷ xs) x ys (suc i) e = get_elem?-append xs x ys i (omega arith)

  pub set-append :
      (xs : List A) (x : A) (ys : List A) (i : ℕ) (v : A)
      → i ≡ length xs
      → set (xs ++ x ∷ ys) i v ≡ xs ++ v ∷ ys
  set-append [] x ys zero v e = refl
  set-append [] x ys (suc i) v e = absurd (omega arith)
  set-append (y ∷ xs) x ys zero v e = absurd (omega arith)
  set-append (y ∷ xs) x ys (suc i) v e = ap (◌∷◌ y) (set-append xs x ys i v (omega arith))

  pub slice-append_mid :
      (xs ys zs : List A) (i n : ℕ)
      → i ≡ length xs
      → n ≡ length ys
      → slice (xs ++ (ys ++ zs)) i n ≡ ys
  slice-append_mid xs ys zs i n e e' =
      rw (drop-append_left i xs (ys ++ zs) e) (take-append_left n ys zs e')

  pub get_elem?_end : (xs : List A) (i : ℕ) → length xs ≤ i → get_elem? xs i ≡ none
  get_elem?_end [] i h = refl
  get_elem?_end (x ∷ xs) zero h = absurd (omega arith)
  get_elem?_end (x ∷ xs) (suc i) h = get_elem?_end xs i (omega arith)

  pub get_elem?-append_right :
      (xs ys : List A) (i n : ℕ) → i ≡ length xs + n → get_elem? (xs ++ ys) i ≡ get_elem? ys n
  get_elem?-append_right [] ys i n e = let p : i ≡ n = omega arith in rw p refl
  get_elem?-append_right (x ∷ xs) ys zero n e = absurd (omega arith)
  get_elem?-append_right (x ∷ xs) ys (suc i) n e = get_elem?-append_right xs ys i n (omega arith)

  pub set-append_right :
      (xs ys : List A) (i n : ℕ) (v : A) → i ≡ length xs + n → set (xs ++ ys) i v ≡ xs ++ set ys n v
  set-append_right [] ys i n v e = let p : i ≡ n = omega arith in rw p refl
  set-append_right (x ∷ xs) ys zero n v e = absurd (omega arith)
  set-append_right (x ∷ xs) ys (suc i) n v e =
      ap (◌∷◌ x) (set-append_right xs ys i n v (omega arith))
