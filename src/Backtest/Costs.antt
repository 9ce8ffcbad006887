-- ===== src/Backtest/Costs.antt =====
-- backtesting/costs.py.
use spy_market_agent.Prelude.{
  String, not, none, some, str_eq, if◌then◌else◌, Result, ok, err, raise_if, ◌>>◌, ◌>>=◌,
  backtest_input, backtest_accounting, division_error,
}
use spy_market_agent.Prelude.Int.{ℤ, pos}
use spy_market_agent.Decimal
use spy_market_agent.Decimal.{Decimal, from_int, zero_decimal, one_decimal}
use spy_market_agent.Risk.Models.{buy_side}
use spy_market_agent.Risk.Orders.{is_order_side}
use spy_market_agent.Risk.Rules.{CostAssumptions}
use spy_market_agent.Backtest.Models.{
  require_non_negative_decimal, require_strictly_positive_decimal, require_int,
  make_cost_assumptions, commission_rate, slippage_rate,
}

pub record OrderCostEstimate : Type 0 where
  pub side : String
  pub quantity : ℤ
  pub reference_open : Decimal
  pub execution_price : Decimal
  pub reference_notional : Decimal
  pub execution_notional : Decimal
  pub commission : Decimal
  pub slippage_cost : Decimal
  pub total_transaction_cost : Decimal
  pub cash_change : Decimal

-- the change of the cash by the side
abbrev pub cash_change_of : String → Decimal → Decimal → Decimal
cash_change_of side execution_notional commission =
    if str_eq side buy_side
    then Decimal.negate (Decimal.add execution_notional commission)
    else Decimal.sub execution_notional commission

unfoldable pub make_order_cost_estimate : OrderCostEstimate → Result OrderCostEstimate
unfolding require_non_negative_decimal require_strictly_positive_decimal require_int
make_order_cost_estimate e = do
  raise_if (not (is_order_side e.side)) (backtest_input "invalid_order_side")
  require_int backtest_input (pos 1) e.quantity "invalid_quantity"
  require_strictly_positive_decimal backtest_input e.reference_open "non_positive_reference_open"
  require_strictly_positive_decimal backtest_input e.execution_price "non_positive_execution_price"
  require_non_negative_decimal backtest_input e.reference_notional "negative_reference_notional"
  require_non_negative_decimal backtest_input e.execution_notional "negative_execution_notional"
  require_non_negative_decimal backtest_input e.commission "negative_commission"
  require_non_negative_decimal backtest_input e.slippage_cost "negative_slippage_cost"
  require_non_negative_decimal backtest_input e.total_transaction_cost
      "negative_total_transaction_cost"
  raise_if
      (not (Decimal.eq e.reference_notional (Decimal.mul (from_int e.quantity) e.reference_open)))
      (backtest_accounting "order_reference_notional_mismatch")
  raise_if
      (not (Decimal.eq e.execution_notional (Decimal.mul (from_int e.quantity) e.execution_price)))
      (backtest_accounting "order_execution_notional_mismatch")
  raise_if
      (not (
        Decimal.eq e.slippage_cost (
          Decimal.mul (Decimal.absolute (Decimal.sub e.execution_price e.reference_open))
            (from_int e.quantity))))
      (backtest_accounting "order_slippage_cost_mismatch")
  raise_if (not (Decimal.eq e.total_transaction_cost (Decimal.add e.commission e.slippage_cost)))
      (backtest_accounting "order_total_cost_mismatch")
  raise_if
      (not (Decimal.eq e.cash_change (cash_change_of e.side e.execution_notional e.commission)))
      (backtest_accounting "order_cash_change_mismatch")
  ok e

-- the execution price after slippage, which a sell may lose
unfoldable pub slipped_price : String → Decimal → Decimal → Result Decimal
slipped_price side reference rate =
    let sold = Decimal.mul reference (Decimal.sub one_decimal rate) in
    if str_eq side buy_side
    then ok (Decimal.mul reference (Decimal.add one_decimal rate))
    else if Decimal.le sold zero_decimal
    then err (backtest_accounting "non_positive_sell_execution_price")
    else ok sold

-- the figures that follow from the execution price
abbrev pub order_figures : String → ℤ → Decimal → Decimal → Decimal → OrderCostEstimate
order_figures side quantity reference execution_price rate =
    let execution_notional = Decimal.mul (from_int quantity) execution_price in
    let commission = Decimal.mul execution_notional rate in
    let slippage_cost =
      Decimal.mul (Decimal.absolute (Decimal.sub execution_price reference)) (from_int quantity) in
    record {
      side = side;
      quantity = quantity;
      reference_open = reference;
      execution_price = execution_price;
      reference_notional = Decimal.mul (from_int quantity) reference;
      execution_notional = execution_notional;
      commission = commission;
      slippage_cost = slippage_cost;
      total_transaction_cost = Decimal.add commission slippage_cost;
      cash_change = cash_change_of side execution_notional commission;
    }

unfoldable pub estimate_order_cost :
    String → ℤ → Decimal → CostAssumptions → Result OrderCostEstimate
unfolding require_strictly_positive_decimal require_int
estimate_order_cost side quantity reference_open cost_assumptions = do
  raise_if (not (is_order_side side)) (backtest_input "invalid_order_side")
  require_int backtest_input (pos 1) quantity "invalid_quantity"
  require_strictly_positive_decimal backtest_input reference_open "non_positive_reference_open"
  costs ← make_cost_assumptions cost_assumptions
  slipped ← slippage_rate costs
  execution_price ← slipped_price side reference_open slipped
  rate ← commission_rate costs
  make_order_cost_estimate (order_figures side quantity reference_open execution_price rate)

-- `int(cash // per_share_cash_required)`
unfoldable pub whole_shares : Decimal → Decimal → Result ℤ
whole_shares cash per_share_cash_required =
    if Decimal.le per_share_cash_required zero_decimal
    then err (backtest_accounting "invalid_per_share_cash_required")
    else elim (Decimal.floor_divide cash per_share_cash_required) [
      | none ↦ err division_error
      | some shares ↦ ok shares
    ]

-- what one share takes out of the cash
abbrev pub per_share_cash : Decimal → Decimal → Decimal → Decimal
per_share_cash reference slipped rate =
    Decimal.mul (Decimal.mul reference (Decimal.add one_decimal slipped))
      (Decimal.add one_decimal rate)

unfoldable pub maximum_affordable_buy_quantity : Decimal → Decimal → CostAssumptions → Result ℤ
unfolding require_non_negative_decimal require_strictly_positive_decimal
maximum_affordable_buy_quantity available_cash reference_open cost_assumptions = do
  require_non_negative_decimal backtest_input available_cash "negative_available_cash"
  require_strictly_positive_decimal backtest_input reference_open "non_positive_reference_open"
  costs ← make_cost_assumptions cost_assumptions
  slipped ← slippage_rate costs
  rate ← commission_rate costs
  whole_shares available_cash (per_share_cash reference_open slipped rate)
