-- ===== src/Decimal/Sign.antt =====
-- Signs are exact: rounding keeps them, and sums and products of non-negative values are
-- non-negative.
use Prim.Native.Nat.{max}
use spy_market_agent.Prelude.{
  ℕ, zero, suc, ◌-◌, ◌^◌, ◌≡◌, ◌≢◌, refl, inl, inr, true, false, some, none, arith, Option-cases,
}
use spy_market_agent.Prelude.Int.{ℤ, pos, negsuc, ◌*ℤ◌, ◌+ℤ◌, neg_part, +ℤ_nonneg, *ℤ_nonneg}
use spy_market_agent.Decimal.{
  Decimal, lt, le, add, mul, round_coefficient, divide, zero_decimal, rescale,
}

-- a coefficient that is not negative
abbrev pub IsNonNeg : Decimal → Type 0
IsNonNeg d = neg_part d.coefficient ≡ 0

IsNonNeg-of_lt :
    (c : ℤ) (s : ℕ)
    → lt (record { coefficient = c; scale = s }) zero_decimal ≡ false
    → IsNonNeg (record { coefficient = c; scale = s })
unfolding lt
IsNonNeg-of_lt (pos n) s h = refl
IsNonNeg-of_lt (negsuc n) s h = ground arith

lt-zero_IsNonNeg :
    (c : ℤ) (s : ℕ)
    → neg_part c ≡ 0
    → lt (record { coefficient = c; scale = s }) zero_decimal ≡ false
unfolding lt
lt-zero_IsNonNeg (pos n) s h = ground arith
lt-zero_IsNonNeg (negsuc n) s h = absurd (omega arith)

round_coefficient-nonneg : (c : ℤ) → neg_part c ≡ 0 → neg_part (round_coefficient c) ≡ 0
unfolding round_coefficient
round_coefficient-nonneg (pos n) h = refl
round_coefficient-nonneg (negsuc n) h = absurd (omega arith)

pub mul-IsNonNeg : (a b : Decimal) → IsNonNeg a → IsNonNeg b → IsNonNeg (mul a b)
mul-IsNonNeg a b h k =
    unfold mul in
    round_coefficient-nonneg (a.coefficient *ℤ b.coefficient)
      (*ℤ_nonneg a.coefficient b.coefficient h k)

pub rescale-nonneg : (s : ℕ) (a : Decimal) → IsNonNeg a → neg_part (rescale s a) ≡ 0
rescale-nonneg s a h = *ℤ_nonneg a.coefficient (pos (10 ^ (s - a.scale))) h refl

pub add-IsNonNeg : (a b : Decimal) → IsNonNeg a → IsNonNeg b → IsNonNeg (add a b)
add-IsNonNeg a b h k =
    unfold add in
    let s = max a.scale b.scale in
    round_coefficient-nonneg (rescale s a +ℤ rescale s b)
      (+ℤ_nonneg (rescale s a) (rescale s b) (rescale-nonneg s a h) (rescale-nonneg s b k))

divide-ne-none :
    (a : Decimal) (c : ℤ) (s : ℕ)
    → le (record { coefficient = c; scale = s }) zero_decimal ≡ false
    → divide a (record { coefficient = c; scale = s }) ≢ none
unfolding le lt divide
divide-ne-none a (pos zero) s h e = ground arith
divide-ne-none a (pos (suc n)) s h e = ground arith
divide-ne-none a (negsuc n) s h e = ground arith

pub divide-some :
    (a b : Decimal) → le b zero_decimal ≡ false → (q : Decimal) × (divide a b ≡ some q)
divide-some a b h = elim (Option-cases (divide a b)) [
  | inr found ↦ found
  | inl e ↦ absurd (divide-ne-none a b.coefficient b.scale h e)
]

IsNonNeg-of_positive :
    (c : ℤ) (s : ℕ)
    → lt zero_decimal (record { coefficient = c; scale = s }) ≡ true
    → neg_part c ≡ 0
unfolding lt
IsNonNeg-of_positive (pos n) s h = refl
IsNonNeg-of_positive (negsuc n) s h = ground arith

pub positive-IsNonNeg : (d : Decimal) → lt zero_decimal d ≡ true → IsNonNeg d
positive-IsNonNeg d h = IsNonNeg-of_positive d.coefficient d.scale h

pub lt_zero-IsNonNeg : (d : Decimal) → lt d zero_decimal ≡ false → IsNonNeg d
lt_zero-IsNonNeg d h = IsNonNeg-of_lt d.coefficient d.scale h

pub IsNonNeg-lt_zero : (d : Decimal) → IsNonNeg d → lt d zero_decimal ≡ false
IsNonNeg-lt_zero d h = lt-zero_IsNonNeg d.coefficient d.scale h
