-- ===== src/Decimal.antt =====
-- `decimal.Decimal` as the program uses it: finite values under the default context, which rounds
-- each result to 28 significant digits, half to even. A value is its number, without the exponent
-- that Python keeps for printing; the limits on exponents are left out. Python's `-x` and `abs(x)`
-- round as the binary operations do.
pub mod Order
pub mod Rounding
pub mod Sign
pub mod Digits
pub mod Idempotent
pub mod Positive
use Prim.Native.Nat.{min, max}
use spy_market_agent.Prelude.{
  ℕ, zero, suc, ◌+◌, ◌-◌, ◌*◌, ◌/◌, ◌%◌, ◌^◌, Bool, true, false, Option, none, some, ltb, leb, ◌==◌,
  if◌then◌else◌,
}
use spy_market_agent.Prelude.Int.{ℤ, pos, negsuc, ◌+ℤ◌, ◌*ℤ◌, neg_ℤ, ltb_ℤ, eqb_ℤ, magnitude}

-- coefficient / 10 ^ scale
pub record Decimal : Type 0 where
  pub coefficient : ℤ
  pub scale : ℕ

abbrev pub from_int : ℤ → Decimal
from_int n = record { coefficient = n; scale = 0 }

abbrev pub zero_decimal : Decimal
zero_decimal = from_int (pos 0)

abbrev pub one_decimal : Decimal
one_decimal = from_int (pos 1)

-- the precision of the default context
abbrev pub precision : ℕ
precision = 28

-- The number of decimal digits of `n`; the fuel `n` is enough, since each round divides by ten.
unfoldable pub count_digits : ℕ → ℕ → ℕ
count_digits zero n = 1
count_digits (suc fuel) n = elim (ltb n 10) [ true ↦ 1 | false ↦ suc (count_digits fuel (n / 10)) ]

unfoldable pub digit_count : ℕ → ℕ
unfolding count_digits
digit_count n = count_digits n n

-- n / p to the nearest number, a half to the even one
unfoldable pub half_even : ℕ → ℕ → ℕ
half_even n p =
    let q = n / p in
    let twice = 2 * (n % p) in if ltb twice p then q else if ltb p twice then q + 1 else q + q % 2

unfoldable pub round_magnitude : ℕ → ℕ
unfolding digit_count half_even
round_magnitude n =
    let d = digit_count n in
    if leb d precision then n else half_even n (10 ^ (d - precision)) * 10 ^ (d - precision)

unfoldable pub round_coefficient : ℤ → ℤ
unfolding round_magnitude
round_coefficient (pos n) = pos (round_magnitude n)
round_coefficient (negsuc n) = neg_ℤ (pos (round_magnitude (suc n)))

unfoldable pub round : Decimal → Decimal
unfolding round_coefficient
round a = record a { coefficient = round_coefficient a.coefficient }

-- the coefficient of `a` at a scale that is at least its own
abbrev pub rescale : ℕ → Decimal → ℤ
rescale s a = a.coefficient *ℤ pos (10 ^ (s - a.scale))

unfoldable pub exact_add : Decimal → Decimal → Decimal
unfolding ◌+ℤ◌ ◌*ℤ◌
exact_add a b =
    let s = max a.scale b.scale in record { coefficient = rescale s a +ℤ rescale s b; scale = s }

unfoldable pub exact_neg : Decimal → Decimal
exact_neg a = record a { coefficient = neg_ℤ a.coefficient }

-- a + b
unfoldable pub add : Decimal → Decimal → Decimal
unfolding exact_add round
add a b = round (exact_add a b)

-- a - b
unfoldable pub sub : Decimal → Decimal → Decimal
unfolding exact_add exact_neg round
sub a b = round (exact_add a (exact_neg b))

-- a * b
unfoldable pub mul : Decimal → Decimal → Decimal
unfolding round ◌*ℤ◌
mul a b = round (record { coefficient = a.coefficient *ℤ b.coefficient; scale = a.scale + b.scale })

-- -a
unfoldable pub negate : Decimal → Decimal
unfolding exact_neg round
negate a = round (exact_neg a)

-- abs(a)
unfoldable pub absolute : Decimal → Decimal
unfolding round
absolute a = round (record a { coefficient = pos (magnitude a.coefficient) })

-- The quotient of two magnitudes to at least 30 digits, with one more digit that is 1 if anything
-- is left over: what `round` makes of it is the exact quotient rounded once.
abbrev quotient_digits : ℕ → ℕ → ℕ → ℕ
quotient_digits n d extra =
    let scaled = n * 10 ^ extra in scaled / d * 10 + (if scaled % d == 0 then 0 else 1)

abbrev same_sign : ℤ → ℤ → Bool
same_sign (pos _) (pos _) = true
same_sign (negsuc _) (negsuc _) = true
same_sign _ _ = false

-- a / b; `none` is the exception that a division by zero raises
unfoldable pub divide : Decimal → Decimal → Option Decimal
unfolding round digit_count
divide a b =
    let n = magnitude a.coefficient * 10 ^ b.scale in
    let d = magnitude b.coefficient * 10 ^ a.scale in
    let extra = digit_count d + precision + 2 in
    let q = quotient_digits n d extra in
    if magnitude b.coefficient == 0
    then none
    else some (
        round (record {
          coefficient = if same_sign a.coefficient b.coefficient then pos q else neg_ℤ (pos q);
          scale = extra + 1;
        }))

-- int(a // b), which cuts toward zero; `none` is the exception of a division by zero, or of a
-- quotient of more digits than the precision
unfoldable pub floor_divide : Decimal → Decimal → Option ℤ
unfolding digit_count
floor_divide a b =
    let d = magnitude b.coefficient * 10 ^ a.scale in
    let q = magnitude a.coefficient * 10 ^ b.scale / d in
    if magnitude b.coefficient == 0
    then none
    else if ltb precision (digit_count q)
    then none
    else some (if same_sign a.coefficient b.coefficient then pos q else neg_ℤ (pos q))

-- a < b, a <= b, a == b: comparisons are exact
unfoldable pub lt : Decimal → Decimal → Bool
unfolding ◌*ℤ◌
lt a b = ltb_ℤ (a.coefficient *ℤ pos (10 ^ b.scale)) (b.coefficient *ℤ pos (10 ^ a.scale))

unfoldable pub eq : Decimal → Decimal → Bool
unfolding ◌*ℤ◌
eq a b = eqb_ℤ (a.coefficient *ℤ pos (10 ^ b.scale)) (b.coefficient *ℤ pos (10 ^ a.scale))

-- a <= b, which for finite values is the negation of b < a
unfoldable pub le : Decimal → Decimal → Bool
unfolding lt
le a b = if lt b a then false else true

-- int(a), which cuts toward zero
unfoldable pub truncate : Decimal → ℤ
truncate a =
    let n = magnitude a.coefficient / 10 ^ a.scale in
    elim a.coefficient [ pos _ ↦ pos n | negsuc _ ↦ neg_ℤ (pos n) ]
