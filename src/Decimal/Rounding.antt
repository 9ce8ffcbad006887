-- ===== src/Decimal/Rounding.antt =====
-- Rounding to the precision of the context, on values that Python prints.
use spy_market_agent.Prelude.{◌≡◌, refl, some}
use spy_market_agent.Prelude.Int.{ℤ, pos, negsuc}
use spy_market_agent.Decimal.{Decimal, mul, divide, floor_divide, from_int}

abbrev cents : ℤ → Decimal
cents n = record { coefficient = n; scale = 2 }

two_thirds :
    divide (from_int (pos 2)) (from_int (pos 3))
    ≡ some (record { coefficient = pos 66666666666666666666666666670000; scale = 32 })
unfolding divide
two_thirds = refl

long_product :
    mul (from_int (pos 12345678901234567890)) (from_int (pos 12345678901234567890))
    ≡ from_int (pos 152415787532388367501905199900000000000)
unfolding mul
long_product = refl

floor_divide_cuts : floor_divide (from_int (negsuc 6)) (cents (pos 200)) ≡ some (negsuc 2)
unfolding floor_divide
floor_divide_cuts = refl
