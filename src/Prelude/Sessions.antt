-- ===== src/Prelude/Sessions.antt =====
-- Lists of sessions, which are dates as their ordinals: the tests that the validators share.
use Prim.Native.Nat.{ℕ, ◌≤◌, ◌<◌}
use mathlib.Core.Path.{◌≡◌, refl}
use mathlib.Core.Bool.{Bool, true, false, ◌&&◌, ◌||◌}
use mathlib.Core.Option.{Option, none, some}
use mathlib.Core.List.{List, [], ◌∷◌}
use native.Mathlib.Omega.{arith}
use spy_market_agent.Prelude.Tests.{ltb, leb, ◌==◌}
use spy_market_agent.Prelude.Lists.{All, any}

-- `sessions` are unique and equal to `tuple(sorted(sessions))`: each is below the next
unfoldable pub is_increasing : List ℕ → Bool
is_increasing [] = true
is_increasing (a ∷ []) = true
is_increasing (a ∷ b ∷ rest) = ltb a b && is_increasing (b ∷ rest)

-- `sessions[0]` and `sessions[-1]`
abbrev pub first : List ℕ → Option ℕ
first [] = none
first (a ∷ _) = some a

abbrev pub last : List ℕ → Option ℕ
last [] = none
last (a ∷ []) = some a
last (a ∷ b ∷ rest) = last (b ∷ rest)

-- `a < b`, `a == b` of two sessions that are read off lists
abbrev pub is_before : Option ℕ → Option ℕ → Bool
is_before (some a) (some b) = ltb a b
is_before _ _ = false

abbrev pub is_same : Option ℕ → Option ℕ → Bool
is_same (some a) (some b) = a == b
is_same _ _ = false

-- `len(values) != len(set(values))`
unfoldable pub repeats : List ℕ → Bool
repeats [] = false
repeats (a ∷ rest) = any (λ b. a == b) rest || repeats rest

-- `values == sorted(values)`
unfoldable pub is_sorted : List ℕ → Bool
is_sorted [] = true
is_sorted (a ∷ []) = true
is_sorted (a ∷ b ∷ rest) = leb a b && is_sorted (b ∷ rest)

pub sorted-increasing :
    (xs : List ℕ) → repeats xs ≡ false → is_sorted xs ≡ true → is_increasing xs ≡ true
unfolding repeats is_sorted is_increasing
sorted-increasing [] h k = refl
sorted-increasing (a ∷ []) h k = refl
sorted-increasing (a ∷ b ∷ rest) h k = ground (arith, sorted-increasing (b ∷ rest))

pub All-weaken : (a b : ℕ) (xs : List ℕ) → a ≤ b → All (λ x. b ≤ x) xs → All (λ x. a ≤ x) xs
All-weaken a b [] h all = tt
All-weaken a b (x ∷ xs) h all = (omega (arith, all.0), All-weaken a b xs h all.1)

-- an increasing list is bounded by its ends
pub first-bound :
    (xs : List ℕ) (a : ℕ) → is_increasing xs ≡ true → first xs ≡ some a → All (λ x. a ≤ x) xs
unfolding is_increasing
first-bound [] a h e = tt
first-bound (x ∷ []) a h e = (ground arith, tt)
first-bound (x ∷ y ∷ rest) a h e =
    let later = first-bound (y ∷ rest) y (ground arith) refl in
    (ground arith, All-weaken a y (y ∷ rest) (ground arith) later)

pub last-bound :
    (xs : List ℕ) (b : ℕ) → is_increasing xs ≡ true → last xs ≡ some b → All (λ x. x ≤ b) xs
unfolding is_increasing
last-bound [] b h e = tt
last-bound (x ∷ []) b h e = (ground arith, tt)
last-bound (x ∷ y ∷ rest) b h e =
    let later = last-bound (y ∷ rest) b (ground arith) e in (ground (arith, later.0), later)

pub All-weaken_above : (b c : ℕ) (xs : List ℕ) → b ≤ c → All (λ x. x ≤ b) xs → All (λ x. x ≤ c) xs
All-weaken_above b c [] h all = tt
All-weaken_above b c (x ∷ xs) h all = (omega (arith, all.0), All-weaken_above b c xs h all.1)

pub is_same-some : (o : Option ℕ) (a : ℕ) → is_same o (some a) ≡ true → o ≡ some a
is_same-some none a h = ground arith
is_same-some (some b) a h = ground arith

-- every session of the one list is before every session of the other
abbrev pub Before : List ℕ → List ℕ → Type 0
Before early late = All (λ a. All (λ b. a < b) late) early

pub apart :
    (b a : ℕ) (early late : List ℕ)
    → b < a
    → All (λ x. x ≤ b) early
    → All (λ x. a ≤ x) late
    → Before early late
apart b a [] late h below above = tt
apart b a (x ∷ early) late h below above =
    (later x late (omega (arith, below.0)) above, apart b a early late h below.1 above)
  where
    later : (x : ℕ) (late : List ℕ) → x < a → All (λ y. a ≤ y) late → All (λ y. x < y) late
    later x [] l above = tt
    later x (y ∷ late) l above = (omega (arith, above.0), later x late l above.1)
