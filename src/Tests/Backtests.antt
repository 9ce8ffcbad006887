-- ===== src/Tests/Backtests.antt =====
-- backtesting: a run that buys and sells again, at 10 and 20 basis points of costs.
use spy_market_agent.Prelude.{◌≡◌, refl, arith, ok, err, false, Result, List, [], ◌∷◌, map}
use spy_market_agent.Prelude.Int.{ℤ, pos}
use spy_market_agent.Decimal
use spy_market_agent.Decimal.{Decimal, from_int}
use spy_market_agent.Tests.RiskRules.{
  config, costs, evaluated, flat_portfolio, buy_ten, after_buy, evaluation-after_buy,
}
use spy_market_agent.Risk.Orders.{make_proposed_order}
use spy_market_agent.Risk.Rules
use spy_market_agent.Risk.Models.{sell_side, is_negative}
use spy_market_agent.Backtest.Models.{
  BacktestConfig, make_cost_assumptions, commission_rate, slippage_rate, check_side,
  make_fill_record, FillRecord,
}
use spy_market_agent.Backtest.Costs.{
  estimate_order_cost, make_order_cost_estimate, slipped_price, whole_shares,
  maximum_affordable_buy_quantity, per_share_cash,
}
use spy_market_agent.Backtest.Engine.{
  Signal, ExecutionPrice, EngineState, price_at, portfolio_state, ordered, propose_buy,
  propose_order, fill_from_approved_order, fill_if_approved, decide_order, value_position,
  run_signal, run_signals, initial_state, run_validated_signal_backtest,
}
use spy_market_agent.Backtest.Account.{flat, Refines, run_validated_signal_backtest-Refines}
use spy_market_agent.Backtest.Records.{IsRecorded, run_validated_signal_backtest-IsRecorded}
use spy_market_agent.Backtest.Agreement.{IsFilledAs, fill_from_approved_order-agrees}
use spy_market_agent.Backtest.Affordable.{IsGreatest, maximum_affordable_buy_quantity-IsGreatest}
use spy_market_agent.Backtest.Entrance.{IsEntrance}
use spy_market_agent.Backtest.Liveness.{EntranceOutcome, decide_long-Returns}
use spy_market_agent.Backtest.Estimates.{IsAsked, EstimateOutcome, estimate_order_cost-Returns}

unfoldable backtested : Unit {0}
unfolding evaluated make_cost_assumptions commission_rate slippage_rate check_side make_fill_record
    estimate_order_cost make_order_cost_estimate slipped_price whole_shares
    maximum_affordable_buy_quantity price_at portfolio_state ordered propose_buy propose_order
    fill_from_approved_order fill_if_approved decide_order value_position run_signal run_signals
    run_validated_signal_backtest make_proposed_order Decimal.floor_divide Decimal.absolute
    Rules.sell_projection Rules.sell_reasons
backtested = tt

abbrev backtest_config : BacktestConfig
backtest_config = record { cost_assumptions = costs; initial_cash = from_int (pos 10000) }

abbrev prices : List ExecutionPrice
prices =
    record {
      execution_session = 738001;
      reference_open = from_int (pos 100);
      close_price = from_int (pos 101);
    }
    ∷ record {
      execution_session = 738002;
      reference_open = from_int (pos 102);
      close_price = from_int (pos 103);
    }
    ∷ []

abbrev signals : List Signal
signals =
    record { signal_session = 738000; execution_session = 738001; target_position = pos 1 }
    ∷ record { signal_session = 738001; execution_session = 738002; target_position = pos 0 }
    ∷ []

abbrev outcome : Result EngineState
outcome = run_validated_signal_backtest backtest_config config prices signals

abbrev quantities : Result EngineState → List ℤ
quantities (ok st) = map (λ (f : FillRecord). f.quantity) st.fill_records
quantities _ = []

traded : quantities outcome ≡ pos 99 ∷ pos 99 ∷ []
unfolding backtested
traded = refl

abbrev final : EngineState
final = elim outcome [ ok st ↦ st | err _ ↦ initial_state backtest_config ]

outcome-final : outcome ≡ ok final
unfolding backtested
outcome-final = refl

run_validated_signal_backtest-Refines_example :
    Refines backtest_config config (flat (from_int (pos 10000))) final
run_validated_signal_backtest-Refines_example =
    run_validated_signal_backtest-Refines backtest_config config prices signals outcome-final

cash_nonneg : is_negative backtest_config.initial_cash ≡ false
unfolding backtested
cash_nonneg = refl

run_validated_signal_backtest-IsRecorded_example : IsRecorded signals final
run_validated_signal_backtest-IsRecorded_example =
    run_validated_signal_backtest-IsRecorded backtest_config config prices signals cash_nonneg
      outcome-final

fill_from_approved_order-agrees_example :
    IsFilledAs (buy_ten (pos 10000)) (flat_portfolio (pos 10000)) backtest_config after_buy
fill_from_approved_order-agrees_example =
    fill_from_approved_order-agrees (buy_ten (pos 10000)) (flat_portfolio (pos 10000)) config
      backtest_config evaluation-after_buy refl

affordable_99 :
    maximum_affordable_buy_quantity (from_int (pos 10000)) (from_int (pos 100)) costs ≡ ok (pos 99)
unfolding backtested
affordable_99 = refl

maximum_affordable_buy_quantity-IsGreatest_example :
    (slipped : Decimal) × (rate : Decimal) × (slippage_rate costs ≡ ok slipped)
    × (commission_rate costs ≡ ok rate)
    × IsGreatest (from_int (pos 10000)) (per_share_cash (from_int (pos 100)) slipped rate) (pos 99)
maximum_affordable_buy_quantity-IsGreatest_example =
    maximum_affordable_buy_quantity-IsGreatest (from_int (pos 10000)) (from_int (pos 100)) costs
      affordable_99

asked : IsAsked sell_side (pos 10) (from_int (pos 100)) costs
unfolding backtested
asked = record {
  side_known = refl;
  quantity_positive = omega arith;
  reference_positive = refl;
  commission = refl;
  slippage = refl;
}

estimate_order_cost-Returns_example : EstimateOutcome sell_side (pos 10) (from_int (pos 100)) costs
estimate_order_cost-Returns_example =
    estimate_order_cost-Returns sell_side (pos 10) (from_int (pos 100)) costs asked

abbrev to_long : Signal
to_long = record { signal_session = 738000; execution_session = 738001; target_position = pos 1 }

entrance :
    IsEntrance backtest_config config (initial_state backtest_config) to_long (from_int (pos 100))
unfolding backtested initial_state
entrance = record {
  commission = refl;
  slippage = refl;
  rules = refl;
  cash = refl;
  in_cash = refl;
  sequence = omega arith;
  price_positive = refl;
  later = omega arith;
  wanted = refl;
}

decide_long-Returns_example :
    EntranceOutcome backtest_config config
      (initial_state backtest_config)
      to_long
      (from_int (pos 100))
decide_long-Returns_example =
    decide_long-Returns backtest_config config (initial_state backtest_config) to_long
      (from_int (pos 100)) entrance
