-- ===== src/Risk/Models.antt =====
-- risk/models.py. A `__post_init__` is a function from the given fields to the object or the raise.
-- What its type checks reject (a float for a `Decimal`, a `datetime` for a date) the types of the
-- model do not hold. A date is its ordinal.
use spy_market_agent.Prelude.{
  ℕ, String, Bool, false, not, ◌||◌, List, [], ◌∷◌, ◌==◌, str_eq, any, if◌then◌else◌, Result, ok,
  err, risk_input, raise_if, ◌>>◌,
}
use spy_market_agent.Prelude.Int.{ℤ, pos, ltb_ℤ, leb_ℤ}
use spy_market_agent.Decimal
use spy_market_agent.Decimal.{Decimal, from_int, zero_decimal, one_decimal}

abbrev pub supported_symbol : String
supported_symbol = "SPY"

abbrev pub buy_side : String
buy_side = "buy"

abbrev pub sell_side : String
sell_side = "sell"

-- KNOWN_REASON_CODES
pub data ReasonCode : Type 0 where
  approved_reason unsupported_symbol short_selling_forbidden leverage_forbidden : ReasonCode
  fractional_quantity_forbidden insufficient_cash sell_quantity_exceeds_position : ReasonCode
  invalid_target_transition execution_not_after_signal maximum_position_exceeded : ReasonCode
  missing_required_information invalid_price invalid_portfolio_state : ReasonCode
  pyramiding_forbidden full_exit_required order_cost_estimate_mismatch : ReasonCode

-- The place of a code in `KNOWN_REASON_CODES`, by which two codes are compared.
unfoldable pub code_index : ReasonCode → ℕ
code_index approved_reason = 0
code_index unsupported_symbol = 1
code_index short_selling_forbidden = 2
code_index leverage_forbidden = 3
code_index fractional_quantity_forbidden = 4
code_index insufficient_cash = 5
code_index sell_quantity_exceeds_position = 6
code_index invalid_target_transition = 7
code_index execution_not_after_signal = 8
code_index maximum_position_exceeded = 9
code_index missing_required_information = 10
code_index invalid_price = 11
code_index invalid_portfolio_state = 12
code_index pyramiding_forbidden = 13
code_index full_exit_required = 14
code_index order_cost_estimate_mismatch = 15

unfoldable pub same_code : ReasonCode → ReasonCode → Bool
unfolding code_index
same_code a b = code_index a == code_index b

-- `code in reason_codes`
unfoldable pub has_code : ReasonCode → List ReasonCode → Bool
has_code c cs = any (same_code c) cs

-- `len(reason_codes) != len(set(reason_codes))`
unfoldable pub has_duplicates : List ReasonCode → Bool
unfolding has_code
has_duplicates [] = false
has_duplicates (c ∷ cs) = has_code c cs || has_duplicates cs

-- require_decimal: the test of each of its three modes
abbrev pub is_negative : Decimal → Bool
is_negative d = Decimal.lt d zero_decimal

abbrev pub is_positive : Decimal → Bool
is_positive d = Decimal.lt zero_decimal d

unfoldable pub require_decimal : Decimal → String → Result Decimal
require_decimal d code = if is_negative d then err (risk_input code) else ok d

unfoldable pub require_positive_decimal : Decimal → String → Result Decimal
require_positive_decimal d code = if is_positive d then ok d else err (risk_input code)

unfoldable pub require_non_negative_int : ℤ → String → Result ℤ
require_non_negative_int n code = if ltb_ℤ n (pos 0) then err (risk_input code) else ok n

unfoldable pub require_positive_int : ℤ → String → Result ℤ
require_positive_int n code = if leb_ℤ n (pos 0) then err (risk_input code) else ok n

-- `maximum_position_weight` is a float in the source, which must be 1.0.
pub record RiskConfig : Type 0 where
  pub supported : String
  pub allow_short_selling : Bool
  pub allow_leverage : Bool
  pub allow_fractional_shares : Bool
  pub maximum_position_weight : Decimal

unfoldable pub make_risk_config : RiskConfig → Result RiskConfig
make_risk_config c = do
  raise_if (not (str_eq c.supported supported_symbol))
      (risk_input "unsupported_symbol_configuration")
  raise_if c.allow_short_selling (risk_input "invalid_allow_short_selling")
  raise_if c.allow_leverage (risk_input "invalid_allow_leverage")
  raise_if c.allow_fractional_shares (risk_input "invalid_allow_fractional_shares")
  raise_if (not (Decimal.eq c.maximum_position_weight one_decimal))
      (risk_input "invalid_maximum_position_weight")
  ok c

pub record PortfolioState : Type 0 where
  pub session : ℕ
  pub cash : Decimal
  pub shares : ℤ
  pub reference_price : Decimal
  pub market_value : Decimal
  pub equity : Decimal

unfoldable pub make_portfolio_state : PortfolioState → Result PortfolioState
unfolding require_decimal require_positive_decimal require_non_negative_int
make_portfolio_state s = do
  require_decimal s.cash "negative_cash"
  require_non_negative_int s.shares "invalid_shares"
  require_positive_decimal s.reference_price "non_positive_reference_price"
  require_decimal s.market_value "negative_market_value"
  require_decimal s.equity "negative_equity"
  raise_if (not (Decimal.eq s.market_value (Decimal.mul (from_int s.shares) s.reference_price)))
      (risk_input "portfolio_market_value_mismatch")
  raise_if (not (Decimal.eq s.equity (Decimal.add s.cash s.market_value)))
      (risk_input "portfolio_equity_mismatch")
  ok s
