-- ===== src/HttpServer/Idle.antt =====
-- How long an entry of src/httpserver.cc lives in the buckets.
use Prim.Native.Nat.{ℕ}
use tiny_http_server.Prelude.{
  suc, ◌≡◌, ◌≢◌, ◌≤◌, Bool, true, false, List, [], ◌∷◌, refl, ap, subst, arith, has, has-append,
  if◌then◌else◌, ◌||◌, ◌&&◌, ◌==◌, not, All, Bool-cases, inl, inr,
}
use tiny_http_server.HttpServer.{
  Bucket, Buckets, Event, connects, messages, expires, ticks, is_alive, insert_back, last_owned,
  ontime, touch, connection_cb, step, run,
}

-- Whether an entry lives on, from how many ticks have passed since its last message: the third tick
-- without one ends it.
abbrev pub lives : ℕ → ℕ → List Event → Bool
lives e n [] = true
lives e n (connects f ∷ xs) = lives e n xs
lives e n (messages f ∷ xs) = lives e (if f == e then 0 else n) xs
lives e n (expires f ∷ xs) = lives e n xs
lives e n (ticks ∷ xs) = let rest = lives e (suc n) xs in if n == 2 then false else rest

-- Whether a connection is shut down by its entry, from how many ticks have passed since its last
-- message and whether it is still there: the third tick without one does, if it is there then.
abbrev pub falls : ℕ → ℕ → Bool → List Event → Bool
falls e n there [] = false
falls e n there (connects f ∷ xs) = falls e n there xs
falls e n there (messages f ∷ xs) = falls e (if f == e then 0 else n) there xs
falls e n there (expires f ∷ xs) = falls e n (there && not (f == e)) xs
falls e n there (ticks ∷ xs) = let rest = falls e (suc n) there xs in if n == 2 then there else rest

-- the bucket that holds the entry, and no later one does
pub record IsAt (e n : ℕ) (there : Bool) (s : Buckets) : Type 0 where
  pub few : n ≤ 2
  pub back : has e s.back ≡ (n == 0)
  pub middle : n ≡ 1 → has e s.middle ≡ true
  pub oldest : n ≡ 2 → (has e s.oldest ≡ true) × (has e s.middle ≡ false)
  pub gone : has e s.gone ≡ not there
  pub up : has e s.shut ≡ false

record IsGone (e : ℕ) (fell : Bool) (s : Buckets) : Type 0 where
  dead : is_alive e s ≡ false
  shut : has e s.shut ≡ fell

has-last_owned :
    (e : ℕ) (b : Bucket) (s : Buckets)
    → has e (last_owned b s) ≡ (has e b && not (is_alive e s || has e s.gone))
unfolding last_owned
has-last_owned e [] s = refl
has-last_owned e (f ∷ fs) s = ground (arith, has-last_owned e fs s)

has-insert_back :
    (e f : ℕ) (s : Buckets) → has e (insert_back f s).back ≡ ((f == e) || has e s.back)
has-insert_back e f s = ground arith

step-IsGone :
    (e : ℕ) (fell : Bool) (x : Event) (s : Buckets)
    → x ≢ connects e
    → IsGone e fell s
    → IsGone e fell (step s x)
unfolding ontime touch connection_cb is_alive
step-IsGone e fell (connects f) s h g =
    let other : f ≢ e = λ p. h (ap connects p) in
    ground (arith, has-insert_back e f s, g.dead, g.shut)
step-IsGone e fell (messages f) s h g = ground (arith, has-insert_back e f s, g.dead, g.shut)
step-IsGone e fell (expires f) s h g = record { dead = g.dead; shut = g.shut }
step-IsGone e fell ticks s h g = ground (
  arith,
  g.dead,
  g.shut,
  has-append e s.shut
      (last_owned s.oldest (record s { oldest = s.middle; middle = s.back; back = [] })),
  has-last_owned e s.oldest (record s { oldest = s.middle; middle = s.back; back = [] }),
)

module _ (e : ℕ) where
  connects-IsAt :
      (n f : ℕ) (there : Bool) (s : Buckets)
      → f ≢ e
      → IsAt e n there s
      → IsAt e n there (connection_cb f s)
  unfolding connection_cb
  connects-IsAt n f there s other h =
      ground (arith, has-insert_back e f s, h.few, h.back, h.middle, h.oldest, h.gone, h.up)

  messages-IsAt :
      (n f : ℕ) (there : Bool) (s : Buckets)
      → IsAt e n there s
      → IsAt e (if f == e then 0 else n) there (touch f s)
  unfolding touch is_alive
  messages-IsAt n f there s h =
      ground (arith, has-insert_back e f s, h.few, h.back, h.middle, h.oldest, h.gone, h.up)

  expires-IsAt :
      (n f : ℕ) (there : Bool) (s : Buckets)
      → IsAt e n there s
      → IsAt e n (there && not (f == e)) (step s (expires f))
  expires-IsAt n f there s h = record {
    few = h.few;
    back = h.back;
    middle = h.middle;
    oldest = h.oldest;
    gone = ground (arith, h.gone);
    up = h.up;
  }

  ticks-IsAt :
      (n : ℕ) (there : Bool) (s : Buckets)
      → n ≢ 2
      → IsAt e n there s
      → IsAt e (suc n) there (ontime s)
  unfolding ontime is_alive
  ticks-IsAt n there s more h =
      let s' : Buckets = record s { oldest = s.middle; middle = s.back; back = [] } in
      ground (
        arith,
        has-append e s.shut (last_owned s.oldest s'),
        has-last_owned e s.oldest s',
        h.few,
        h.back,
        h.middle,
        h.oldest,
        h.gone,
        h.up,
      )

  ticks-IsGone : (there : Bool) (s : Buckets) → IsAt e 2 there s → IsGone e there (ontime s)
  unfolding ontime is_alive
  ticks-IsGone there s h =
      let s' : Buckets = record s { oldest = s.middle; middle = s.back; back = [] } in
      ground (
        arith,
        has-append e s.shut (last_owned s.oldest s'),
        has-last_owned e s.oldest s',
        h.back,
        h.oldest refl,
        h.gone,
        h.up,
      )

  run-IsGone :
      (fell : Bool) (xs : List Event) (s : Buckets)
      → All (λ x. x ≢ connects e) xs
      → IsGone e fell s
      → IsGone e fell (run s xs)
  unfolding run
  run-IsGone fell [] s h g = g
  run-IsGone fell (x ∷ xs) s (h, hs) g =
      run-IsGone fell xs (step s x) hs (step-IsGone e fell x s h g)

IsAt-alive : (e n : ℕ) (there : Bool) (s : Buckets) → IsAt e n there s → is_alive e s ≡ true
unfolding is_alive
IsAt-alive e n there s h = ground (arith, h.few, h.back, h.middle, h.oldest)

-- what is to be shown of a run: whether the entry is alive, and whether its connection was shut down
abbrev IsTimed : ℕ → Bool → Bool → Buckets → Type 0
IsTimed e alive fell s = (is_alive e s ≡ alive) × (has e s.shut ≡ fell)

run-IsTimed :
    (e n : ℕ) (there : Bool) (xs : List Event) (s : Buckets)
    → All (λ x. x ≢ connects e) xs
    → IsAt e n there s
    → IsTimed e (lives e n xs) (falls e n there xs) (run s xs)
unfolding run
run-IsTimed e n there [] s h a = (IsAt-alive e n there s a, a.up)
run-IsTimed e n there (connects f ∷ xs) s (h, hs) a =
    run-IsTimed e n there xs (connection_cb f s) hs
      (connects-IsAt e n f there s (λ p. h (ap connects p)) a)
run-IsTimed e n there (messages f ∷ xs) s (h, hs) a =
    run-IsTimed e (if f == e then 0 else n) there xs (touch f s) hs (messages-IsAt e n f there s a)
run-IsTimed e n there (expires f ∷ xs) s (h, hs) a =
    run-IsTimed e n (there && not (f == e)) xs (step s (expires f)) hs
      (expires-IsAt e n f there s a)
run-IsTimed e n there (ticks ∷ xs) s (h, hs) a = elim (Bool-cases (n == 2)) [
  | inl third ↦
      let g =
        run-IsGone e there xs (ontime s) hs
          (ticks-IsGone e there s (subst (λ k. IsAt e k there s) (ground arith) a)) in
      rw third (g.dead, g.shut)
  | inr early ↦
      rw early
        (run-IsTimed e (suc n) there xs (ontime s) hs (ticks-IsAt e n there s (ground arith) a))
]

-- After a connection comes up with a fresh entry, whatever happens then to it and to the others: its
-- entry is alive exactly if no three ticks passed without a message of it, and the entry has shut the
-- connection down exactly if they did and the connection had not been destroyed before the third.
pub idle_timeout :
    (e : ℕ) (xs : List Event) (s : Buckets)
    → is_alive e s ≡ false
    → has e s.gone ≡ false
    → has e s.shut ≡ false
    → All (λ x. x ≢ connects e) xs
    → (is_alive e (run (connection_cb e s) xs) ≡ lives e 0 xs)
      × (has e (run (connection_cb e s) xs).shut ≡ falls e 0 true xs)
unfolding connection_cb
idle_timeout e xs s fresh there up h = run-IsTimed e 0 true xs (insert_back e s) h (record {
  few = omega arith;
  back = ground (arith, has-insert_back e e s);
  middle = λ p. absurd (omega arith);
  oldest = λ p. absurd (omega arith);
  gone = ground arith;
  up = ground arith;
})
