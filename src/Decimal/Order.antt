-- ===== src/Decimal/Order.antt =====
-- The order of the decimals, which is exact.
use spy_market_agent.Prelude.{◌≡◌, true, false, arith}
use spy_market_agent.Prelude.Int.{pos, ◌*ℤ◌, eqb_ℤ_refl}
use spy_market_agent.Decimal.{Decimal, lt, le, eq}

pub eq_refl_lem : (a : Decimal) → eq a a ≡ true
unfolding eq
eq_refl_lem a = eqb_ℤ_refl (a.coefficient *ℤ pos _)

pub lt_irrefl : (a : Decimal) → lt a a ≡ false
unfolding lt
lt_irrefl a = ground arith

pub le-of_not_lt : (a b : Decimal) → lt b a ≡ false → le a b ≡ true
unfolding le
le-of_not_lt a b h = ground arith
