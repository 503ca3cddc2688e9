-- ===== src/TcpServer/Times.antt =====
-- How often a connection stands in a list of those of src/server/tcpserver.cc.
use Prim.Native.Nat.{ℕ, zero, suc}
use tiny_http_server.Prelude.{
  ◌≡◌, ◌+◌, ◌<◌, ◌∙◌, refl, arith, ap, List, [], ◌∷◌, ◌++◌, some, if◌then◌else◌, ◌==◌, Bool-cases,
  inl, inr, All, map, replicate, false, if_true, if_false,
}
use tiny_http_server.TcpServer.Names.{with_first}
use tiny_http_server.TcpServer.Spec.{Open, remove}

abbrev pub once : ℕ → ℕ → ℕ
once i j = if j == i then 1 else 0

abbrev pub times : ℕ → List Open → ℕ
times i [] = 0
times i (o ∷ os) = once i o.index + times i os

pub times-append : (i : ℕ) (xs ys : List Open) → times i (xs ++ ys) ≡ times i xs + times i ys
times-append i [] ys = omega arith
times-append i (x ∷ xs) ys = omega (arith, times-append i xs ys)

-- a number that is above all others does not stand there
pub times_above : (i : ℕ) (os : List Open) → All (λ o. o.index < i) os → times i os ≡ 0
times_above i [] h = refl
times_above i (o ∷ os) (h, hs) = ground (arith, times_above i os hs)

-- what stands there can be removed, once
pub remove-times :
    (i : ℕ) (os : List Open)
    → 0 < times i os
    → (os' : List Open) × (remove i os ≡ some os') × ((j : ℕ) → times j os ≡ times j os' + once j i)
unfolding remove
remove-times i [] h = absurd (omega arith)
remove-times i (o ∷ os) h = elim (Bool-cases (o.index == i)) [
  | inl same ↦ (os, if_true _ _ _ same, λ j. ground arith)
  | inr other ↦
      let (os', e, kept) = remove-times i os (ground arith) in
      (o ∷ os', if_false _ _ _ other ∙ ap (with_first o) e, λ j. omega (arith, kept j))
]

-- copies of one connection
pub times-replicate_same : (i d : ℕ) (o : Open) → o.index ≡ i → times i (replicate d o) ≡ d
times-replicate_same i zero o e = refl
times-replicate_same i (suc d) o e = ground (arith, times-replicate_same i d o e)

pub times-replicate_other :
    (j d : ℕ) (o : Open) → (o.index == j) ≡ false → times j (replicate d o) ≡ 0
times-replicate_other j zero o e = refl
times-replicate_other j (suc d) o e = ground (arith, times-replicate_other j d o e)

pub map-replicate {ℓ κ} :
    {A : Type ℓ} {B : Type κ} (f : A → B) (d : ℕ) (a : A)
    → map f (replicate d a) ≡ replicate d (f a)
map-replicate f zero a = refl
map-replicate f (suc d) a = ap (◌∷◌ (f a)) (map-replicate f d a)

pub All-replicate {ℓ κ} :
    {A : Type ℓ} (P : A → Type κ) (d : ℕ) (a : A) → P a → All P (replicate d a)
All-replicate P zero a p = tt
All-replicate P (suc d) a p = (p, All-replicate P d a p)
