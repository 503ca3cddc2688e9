-- ===== src/Prelude/Result.antt =====
-- How a call ends in C++: with a value, or by one of the ways in which this code stops.
use mathlib.Core.Path.{◌≡◌, refl, subst}
use tiny_http_server.Prelude.Tests.{if◌then◌else◌}
use mathlib.Core.Bool.{Bool, true, false}

-- A failed `assert`, `std::length_error` from a vector, an access out of bounds, an `int` past its
-- largest value, a wait that nothing ends, a call of an empty `std::function`, or the rounds that the model gives a loop running out.
pub data Fault : Type 0 where
  assertion length_error out_of_bounds overflow blocked empty_function out_of_fuel : Fault

pub data Result {ℓ} (V : Type ℓ) : Type ℓ where
  fail : Fault → Result V
  ok : V → Result V

-- One call after another: a fault ends both.
infixl 5 ◌>>=◌ ◌>>◌
abbrev pub ◌>>=◌ {ℓ κ} : {V : Type ℓ} {W : Type κ} → Result V → (V → Result W) → Result W
fail fault >>= next = fail fault
ok value >>= next = next value

-- `assert(b)`, and a check of the bounds that the code does not make.
abbrev pub check : Bool → Fault → Result (Unit {0})
check false fault = fail fault
check true fault = ok tt

abbrev pub ◌>>◌ {ℓ} : {W : Type ℓ} → Result (Unit {0}) → Result W → Result W
checked >> rest = checked >>= λ passed. rest

-- The call returns, and its value satisfies `P`.
abbrev pub Returns {ℓ κ} : {V : Type ℓ} → Result V → (V → Type κ) → Type (ℓ ⊔ κ)
Returns {V = V} r P = (v : V) × (r ≡ ok v) × P v

-- If the call returns, its value satisfies `P`.
abbrev pub Yields {ℓ κ} : {V : Type ℓ} → Result V → (V → Type κ) → Type κ
Yields (fail fault) P = Unit
Yields (ok v) P = P v

pub Yields-bind {ℓ ℓ' κ κ'} :
    {V : Type ℓ} {W : Type ℓ'} (r : Result V) (next : V → Result W) (P : V → Type κ)
    (Q : W → Type κ')
    → Yields r P
    → ((v : V) → P v → Yields (next v) Q)
    → Yields (r >>= next) Q
Yields-bind (fail fault) next P Q p h = tt
Yields-bind (ok v) next P Q p h = h v p

pub Yields-check {ℓ κ} :
    {V : Type ℓ} (b : Bool) (fault : Fault) (rest : Result V) (Q : V → Type κ)
    → (b ≡ true → Yields rest Q)
    → Yields (check b fault >> rest) Q
Yields-check false fault rest Q h = tt
Yields-check true fault rest Q h = h refl

pub Yields-ok {ℓ κ} :
    {V : Type ℓ} {r : Result V} {v : V} (P : V → Type κ) → Yields r P → r ≡ ok v → P v
Yields-ok P y e = subst (λ r. Yields r P) e y

pub Yields-if {ℓ κ} :
    {V : Type ℓ} (b : Bool) (x y : Result V) (P : V → Type κ)
    → (b ≡ true → Yields x P)
    → (b ≡ false → Yields y P)
    → Yields (if b then x else y) P
Yields-if true x y P p q = p refl
Yields-if false x y P p q = q refl

pub Yields-next {ℓ ℓ' κ} :
    {V : Type ℓ} {W : Type ℓ'} (r : Result V) (next : V → Result W) (Q : W → Type κ)
    → ((v : V) → Yields (next v) Q)
    → Yields (r >>= next) Q
Yields-next (fail fault) next Q h = tt
Yields-next (ok v) next Q h = h v
