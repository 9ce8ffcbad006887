-- ===== src/Backtest/Models.antt =====
-- backtesting/models.py: the checks, the configuration and the fill. A record's `__post_init__` is a
-- function from the given fields to the object or the raise; a date is its ordinal.
use spy_market_agent.Prelude.{
  ℕ, String, Bool, not, leb, str_eq, if◌then◌else◌, Error, Result, ok, raise_if, ◌>>◌, ◌>>=◌,
  backtest_input, backtest_accounting,
}
use spy_market_agent.Prelude.Int.{ℤ, pos, ◌+ℤ◌, ◌-ℤ◌, ltb_ℤ, eqb_ℤ}
use spy_market_agent.Decimal
use spy_market_agent.Decimal.{Decimal, from_int}
use spy_market_agent.Risk.Models.{buy_side, supported_symbol, is_negative, is_positive}
use spy_market_agent.Risk.Orders.{is_order_side}
use spy_market_agent.Risk.Rules.{CostAssumptions, quotient, basis_points_divisor}

-- `require_decimal` with neither flag, and with `strictly_positive`, for the class of the error
unfoldable pub require_non_negative_decimal :
    (String → Error) → Decimal → String → Result (Unit {0})
require_non_negative_decimal error_type d code = raise_if (is_negative d) (error_type code)

unfoldable pub require_strictly_positive_decimal :
    (String → Error) → Decimal → String → Result (Unit {0})
require_strictly_positive_decimal error_type d code =
    raise_if (not (is_positive d)) (error_type code)

unfoldable pub require_int : (String → Error) → ℤ → ℤ → String → Result (Unit {0})
require_int error_type minimum n code = raise_if (ltb_ℤ n minimum) (error_type code)

unfoldable pub make_cost_assumptions : CostAssumptions → Result CostAssumptions
unfolding require_non_negative_decimal
make_cost_assumptions c = do
  require_non_negative_decimal backtest_input c.commission_bps_per_side
      "negative_commission_bps_per_side"
  require_non_negative_decimal backtest_input c.slippage_bps_per_side
      "negative_slippage_bps_per_side"
  ok c

unfoldable pub commission_rate : CostAssumptions → Result Decimal
commission_rate c = quotient c.commission_bps_per_side basis_points_divisor

unfoldable pub slippage_rate : CostAssumptions → Result Decimal
slippage_rate c = quotient c.slippage_bps_per_side basis_points_divisor

abbrev pub initial_simulated_cash : Decimal
initial_simulated_cash = from_int (pos 10000)

pub record BacktestConfig : Type 0 where
  pub cost_assumptions : CostAssumptions
  pub initial_cash : Decimal

unfoldable pub make_backtest_config : BacktestConfig → Result BacktestConfig
unfolding require_strictly_positive_decimal
make_backtest_config c = do
  costs ← make_cost_assumptions c.cost_assumptions
  require_strictly_positive_decimal backtest_input c.initial_cash "non_positive_initial_cash"
  raise_if (not (Decimal.eq c.initial_cash initial_simulated_cash))
      (backtest_input "invalid_initial_cash")
  ok (record { cost_assumptions = costs; initial_cash = c.initial_cash })

pub record FillRecord : Type 0 where
  pub order_sequence_number : ℤ
  pub symbol : String
  pub side : String
  pub quantity : ℤ
  pub signal_session : ℕ
  pub execution_session : ℕ
  pub reference_open : Decimal
  pub execution_price : Decimal
  pub reference_notional : Decimal
  pub execution_notional : Decimal
  pub commission : Decimal
  pub slippage_cost : Decimal
  pub total_transaction_cost : Decimal
  pub cash_change : Decimal
  pub shares_before : ℤ
  pub shares_after : ℤ
  pub cash_before : Decimal
  pub cash_after : Decimal
  pub risk_approved : Bool

-- the checks of the figures by the side
unfoldable pub check_side : FillRecord → Result (Unit {0})
unfolding ◌+ℤ◌ ◌-ℤ◌
check_side f =
    if str_eq f.side buy_side
    then (do
      raise_if (not (eqb_ℤ f.shares_after (f.shares_before +ℤ f.quantity)))
          (backtest_accounting "buy_share_transition_mismatch")
      raise_if
          (not (
            Decimal.eq f.cash_change
              (Decimal.negate (Decimal.add f.execution_notional f.commission))))
          (backtest_accounting "buy_cash_change_mismatch"))
    else do
      raise_if (not (eqb_ℤ f.shares_after (f.shares_before -ℤ f.quantity)))
          (backtest_accounting "sell_share_transition_mismatch")
      raise_if (not (Decimal.eq f.cash_change (Decimal.sub f.execution_notional f.commission)))
          (backtest_accounting "sell_cash_change_mismatch")

unfoldable pub make_fill_record : FillRecord → Result FillRecord
unfolding require_non_negative_decimal require_strictly_positive_decimal require_int
make_fill_record f = do
  require_int backtest_accounting (pos 1) f.order_sequence_number "invalid_order_sequence_number"
  raise_if (not (str_eq f.symbol supported_symbol)) (backtest_accounting "invalid_fill_symbol")
  raise_if (not (is_order_side f.side)) (backtest_accounting "invalid_fill_side")
  require_int backtest_accounting (pos 1) f.quantity "invalid_quantity"
  raise_if (leb f.execution_session f.signal_session) (backtest_accounting "same_candle_fill")
  require_strictly_positive_decimal backtest_accounting f.reference_open
      "non_positive_reference_open"
  require_strictly_positive_decimal backtest_accounting f.execution_price
      "non_positive_execution_price"
  require_non_negative_decimal backtest_accounting f.reference_notional
      "negative_reference_notional"
  require_non_negative_decimal backtest_accounting f.execution_notional
      "negative_execution_notional"
  require_non_negative_decimal backtest_accounting f.commission "negative_commission"
  require_non_negative_decimal backtest_accounting f.slippage_cost "negative_slippage_cost"
  require_non_negative_decimal backtest_accounting f.total_transaction_cost
      "negative_total_transaction_cost"
  require_int backtest_accounting (pos 0) f.shares_before "invalid_shares_before"
  require_int backtest_accounting (pos 0) f.shares_after "invalid_shares_after"
  require_non_negative_decimal backtest_accounting f.cash_before "negative_cash_before"
  require_non_negative_decimal backtest_accounting f.cash_after "negative_cash_after"
  raise_if (not f.risk_approved) (backtest_accounting "fill_without_approved_risk_decision")
  raise_if
      (not (Decimal.eq f.reference_notional (Decimal.mul (from_int f.quantity) f.reference_open)))
      (backtest_accounting "fill_reference_notional_mismatch")
  raise_if
      (not (Decimal.eq f.execution_notional (Decimal.mul (from_int f.quantity) f.execution_price)))
      (backtest_accounting "fill_execution_notional_mismatch")
  raise_if
      (not (
        Decimal.eq f.slippage_cost (
          Decimal.mul (Decimal.absolute (Decimal.sub f.execution_price f.reference_open))
            (from_int f.quantity))))
      (backtest_accounting "fill_slippage_cost_mismatch")
  raise_if (not (Decimal.eq f.total_transaction_cost (Decimal.add f.commission f.slippage_cost)))
      (backtest_accounting "fill_total_cost_mismatch")
  check_side f
  raise_if (not (Decimal.eq f.cash_after (Decimal.add f.cash_before f.cash_change)))
      (backtest_accounting "fill_cash_after_mismatch")
  raise_if (is_negative f.cash_after) (backtest_accounting "negative_cash_after_fill")
  ok f
