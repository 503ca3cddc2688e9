-- ===== src/Prelude/Digits.antt =====
-- `std::to_string` of a number.
use Prim.Native.Nat.{ℕ, zero, suc, ◌+◌, ◌*◌, ◌/◌, ◌%◌, ◌<◌}
use mathlib.Core.Path.{◌≡◌, refl, ap, ap₂, sym, ◌∙◌}
use mathlib.Core.Logic.{inl, inr}
use mathlib.Core.List.{List, [], ◌∷◌, ◌++◌}
use native.Mathlib.Omega.{arith}
use tiny_http_server.Prelude.Tests.{ltb, if◌then◌else◌, Bool-cases, if_true, if_false}
use tiny_http_server.Prelude.Lists.{length, length-append}

-- A number has no more digits than its value and one.
unfoldable pub digits : ℕ → ℕ → List ℕ
digits zero n = (n % 10 + b'0') ∷ []
digits (suc more) n =
    let front = digits more (n / 10) in
    if ltb n 10 then (n + b'0') ∷ [] else front ++ (n % 10 + b'0') ∷ []

abbrev pub to_string : ℕ → List ℕ
to_string n = digits 20 n

-- the numbers of at most so many digits and one
abbrev pub bound : ℕ → ℕ
bound zero = 10
bound (suc more) = 10 * bound more

snoc_injective {ℓ} :
    {A : Type ℓ} (xs ys : List A) {x y : A} → xs ++ x ∷ [] ≡ ys ++ y ∷ [] → (xs ≡ ys) × (x ≡ y)
snoc_injective [] [] e = (refl, cc)
snoc_injective [] (z ∷ ys) {y = y} e =
    absurd (omega (arith, ap length e, length-append ys (y ∷ [])))
snoc_injective (z ∷ xs) [] {x} e = absurd (omega (arith, ap length e, length-append xs (x ∷ [])))
snoc_injective (z ∷ xs) (w ∷ ys) {x} {y} e =
    let same : z ≡ w = cc in
    let rest : xs ++ x ∷ [] ≡ ys ++ y ∷ [] = cc in
    let (fronts, lasts) = snoc_injective xs ys rest in (ap₂ ◌∷◌ same fronts, lasts)

front : ℕ → ℕ → List ℕ
front more n = if ltb n 10 then [] else digits more (n / 10)

digits_snoc : (more n : ℕ) → digits (suc more) n ≡ front more n ++ (n % 10 + b'0') ∷ []
unfolding digits front
digits_snoc more n = ground arith

digits_pos : (more n : ℕ) → 0 < length (digits more n)
unfolding digits
digits_pos zero n = omega arith
digits_pos (suc more) n =
    omega
      (arith, ap length (digits_snoc more n), length-append (front more n) ((n % 10 + b'0') ∷ []))

-- numbers of the same last digit and the same front
front_injective :
    (more m n : ℕ)
    → m % 10 + b'0' ≡ n % 10 + b'0'
    → (digits more (m / 10) ≡ digits more (n / 10) → m / 10 ≡ n / 10)
    → front more m ≡ front more n
    → m ≡ n
unfolding front
front_injective more m n lasts ih fronts = elim (Bool-cases (ltb m 10)) [
  | inl short ↦ elim (Bool-cases (ltb n 10)) [
    | inl short' ↦ ground arith
    | inr long' ↦ absurd (
        omega (
          arith,
          ap length (sym (if_true _ _ _ short) ∙ fronts ∙ if_false _ _ _ long'),
          digits_pos more (n / 10),
        ))
  ]
  | inr long ↦ elim (Bool-cases (ltb n 10)) [
    | inl short' ↦ absurd (
        omega (
          arith,
          ap length (sym (if_false _ _ _ long) ∙ fronts ∙ if_true _ _ _ short'),
          digits_pos more (m / 10),
        ))
    | inr long' ↦ omega (arith, ih (sym (if_false _ _ _ long) ∙ fronts ∙ if_false _ _ _ long'))
  ]
]

digits-injective :
    (more m n : ℕ) → m < bound more → n < bound more → digits more m ≡ digits more n → m ≡ n
unfolding digits
digits-injective zero m n hm hn e = let same : m % 10 + b'0' ≡ n % 10 + b'0' = cc in omega arith
digits-injective (suc more) m n hm hn e =
    let (fronts, lasts) =
      snoc_injective (front more m) (front more n)
        (sym (digits_snoc more m) ∙ e ∙ digits_snoc more n) in
    front_injective more m n lasts
      (digits-injective more (m / 10) (n / 10) (omega arith) (omega arith)) fronts

pub to_string-injective :
    {m n : ℕ} → m < 2147483648 → n < 2147483648 → to_string m ≡ to_string n → m ≡ n
to_string-injective {m} {n} hm hn e = digits-injective 20 m n (omega arith) (omega arith) e
