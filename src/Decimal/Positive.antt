-- ===== src/Decimal/Positive.antt =====
-- Positive values stay positive under sums and products, since rounding keeps what is positive.
use Prim.Native.Nat.{max}
use native.Mathlib.Nat.{one-le-pow}
use spy_market_agent.Prelude.{
  ℕ, zero, suc, ◌+◌, ◌-◌, ◌*◌, ◌^◌, ◌<◌, ◌≡◌, refl, true, false, some, none, Option, ◌==◌, Bool,
  if◌then◌else◌, arith, sym, ap,
}
use spy_market_agent.Prelude.Int.{
  ℤ, pos, negsuc, ◌*ℤ◌, ◌+ℤ◌, neg_part, pos_part, magnitude, pos-mul, pos-add,
}
use spy_market_agent.Decimal.{
  Decimal, lt, add, mul, round_coefficient, absolute, round, divide, zero_decimal, rescale,
  quotient_digits, digit_count, precision,
}
use spy_market_agent.Decimal.Sign.{IsNonNeg, rescale-nonneg}
use spy_market_agent.Decimal.Idempotent.{round_magnitude-positive}

-- a coefficient above zero
abbrev pub IsPos : Decimal → Type 0
IsPos d = 0 < pos_part d.coefficient

IsPos-of_lt :
    (c : ℤ) (s : ℕ)
    → lt zero_decimal (record { coefficient = c; scale = s }) ≡ true
    → 0 < pos_part c
unfolding lt
IsPos-of_lt (pos zero) s h = ground arith
IsPos-of_lt (pos (suc n)) s h = omega arith
IsPos-of_lt (negsuc n) s h = ground arith

pub positive-IsPos : (d : Decimal) → lt zero_decimal d ≡ true → IsPos d
positive-IsPos d h = IsPos-of_lt d.coefficient d.scale h

lt-of_positive :
    (c : ℤ) (s : ℕ)
    → 0 < pos_part c
    → lt zero_decimal (record { coefficient = c; scale = s }) ≡ true
unfolding lt
lt-of_positive (pos zero) s h = absurd (omega arith)
lt-of_positive (pos (suc n)) s h = ground arith
lt-of_positive (negsuc n) s h = absurd (omega arith)

pub IsPos-positive : (d : Decimal) → IsPos d → lt zero_decimal d ≡ true
IsPos-positive d h = lt-of_positive d.coefficient d.scale h

round_coefficient-positive : (c : ℤ) → 0 < pos_part c → 0 < pos_part (round_coefficient c)
unfolding round_coefficient
round_coefficient-positive (pos n) h = round_magnitude-positive n h
round_coefficient-positive (negsuc n) h = absurd (omega arith)

times-positive : (a b : ℤ) → 0 < pos_part a → 0 < pos_part b → 0 < pos_part (a *ℤ b)
times-positive (pos zero) b h k = absurd (omega arith)
times-positive (pos (suc m)) (pos zero) h k = absurd (omega arith)
times-positive (pos (suc m)) (pos (suc n)) h k = rw (pos-mul (suc m) (suc n)) (omega arith)
times-positive (pos (suc m)) (negsuc n) h k = absurd (omega arith)
times-positive (negsuc m) b h k = absurd (omega arith)

plus-positive : (a b : ℤ) → 0 < pos_part a → neg_part b ≡ 0 → 0 < pos_part (a +ℤ b)
plus-positive (pos m) (pos n) h k = rw (pos-add m n) (omega arith)
plus-positive (pos m) (negsuc n) h k = absurd (omega arith)
plus-positive (negsuc m) b h k = absurd (omega arith)

pub mul-IsPos : (a b : Decimal) → IsPos a → IsPos b → IsPos (mul a b)
mul-IsPos a b h k =
    unfold mul in
    round_coefficient-positive (a.coefficient *ℤ b.coefficient)
      (times-positive a.coefficient b.coefficient h k)

rescale-positive : (s : ℕ) (a : Decimal) → IsPos a → 0 < pos_part (rescale s a)
rescale-positive s a h =
    times-positive a.coefficient (pos (10 ^ (s - a.scale))) h
      (one-le-pow (s - a.scale) 10 (omega arith))

pub add-IsPos : (a b : Decimal) → IsPos a → IsNonNeg b → IsPos (add a b)
add-IsPos a b h k =
    unfold add in
    let s = max a.scale b.scale in
    round_coefficient-positive (rescale s a +ℤ rescale s b)
      (plus-positive (rescale s a) (rescale s b) (rescale-positive s a h) (rescale-nonneg s b k))

pub absolute-IsNonNeg : (a : Decimal) → IsNonNeg (absolute a)
absolute-IsNonNeg a = unfold absolute round round_coefficient in refl

-- a quotient of a non-negative value by a positive one
chosen-nonneg :
    (b : Bool) (n s : ℕ) {q : Decimal}
    → (if b then none else some (round (record { coefficient = pos n; scale = s }))) ≡ some q
    → IsNonNeg q
unfolding round round_coefficient
chosen-nonneg true n s e = ground arith
chosen-nonneg false n s {q} e =
    sym (ap (λ (o : Option Decimal). elim o [ none ↦ 0 | some d ↦ neg_part d.coefficient ]) e)

divided-nonneg :
    (n m : ℤ) (s t : ℕ) {q : Decimal}
    → neg_part n ≡ 0
    → neg_part m ≡ 0
    → divide (record { coefficient = n; scale = s }) (record { coefficient = m; scale = t })
      ≡ some q
    → IsNonNeg q
unfolding divide
divided-nonneg (pos n) (pos m) s t {q} h k e =
    let d = magnitude (pos m) * 10 ^ s in
    let extra = digit_count d + precision + 2 in
    chosen-nonneg (magnitude (pos m) == 0) (quotient_digits (magnitude (pos n) * 10 ^ t) d extra)
      (extra + 1) {q = q} e
divided-nonneg (pos n) (negsuc m) s t h k e = absurd (omega arith)
divided-nonneg (negsuc n) m s t h k e = absurd (omega arith)

pub divide-IsNonNeg :
    (a b : Decimal) {q : Decimal} → IsNonNeg a → IsNonNeg b → divide a b ≡ some q → IsNonNeg q
divide-IsNonNeg a b h k e = divided-nonneg a.coefficient b.coefficient a.scale b.scale h k e
