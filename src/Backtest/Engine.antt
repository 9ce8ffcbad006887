-- ===== src/Backtest/Engine.antt =====
-- backtesting/engine.py: the proposal of an order, its fill, and the loop over the signals. The
-- records are kept as they are built: `decimal_to_float`, the data frames and the metrics made of
-- them are left out. A price is `Decimal(str(x))` of the float in the price set.
use spy_market_agent.Prelude.{
  ℕ, suc, String, ◌==◌, true, Option, none, some, List, [], ◌∷◌, ◌++◌, str_eq, if◌then◌else◌,
  Result, ok, err, other_exception, ◌>>=◌,
}
use spy_market_agent.Prelude.Int.{ℤ, pos, ◌+ℤ◌, ◌-ℤ◌, ltb_ℤ, leb_ℤ, eqb_ℤ}
use spy_market_agent.Decimal
use spy_market_agent.Decimal.{Decimal, from_int, one_decimal}
use spy_market_agent.Risk.Models.{
  buy_side, sell_side, supported_symbol, RiskConfig, PortfolioState, make_portfolio_state,
}
use spy_market_agent.Risk.Orders.{ProposedOrder, make_proposed_order, RiskDecision}
use spy_market_agent.Risk.Rules.{evaluate_order_risk, quotient}
use spy_market_agent.Backtest.Models.{BacktestConfig, FillRecord, make_fill_record}
use spy_market_agent.Backtest.Costs.{
  OrderCostEstimate, estimate_order_cost, maximum_affordable_buy_quantity,
}

-- a row of the strategy's signals
pub record Signal : Type 0 where
  pub signal_session : ℕ
  pub execution_session : ℕ
  pub target_position : ℤ

-- a row of the execution prices
pub record ExecutionPrice : Type 0 where
  pub execution_session : ℕ
  pub reference_open : Decimal
  pub close_price : Decimal

-- a row of the portfolio
pub record PortfolioRow : Type 0 where
  pub session : ℕ
  pub signal_session : ℕ
  pub target_position : ℤ
  pub cash : Decimal
  pub shares : ℤ
  pub close_price : Decimal
  pub market_value : Decimal
  pub equity : Decimal
  pub daily_return : Decimal
  pub drawdown : Decimal

-- `price_by_session.loc[execution_session]`; a missing session is a KeyError
unfoldable pub price_at : ℕ → List ExecutionPrice → Result ExecutionPrice
price_at session [] = err other_exception
price_at session (row ∷ rows) =
    let rest = price_at session rows in if row.execution_session == session then ok row else rest

unfoldable pub portfolio_state : ℕ → Decimal → ℤ → Decimal → Result PortfolioState
portfolio_state session cash shares reference_price =
    let market_value = Decimal.mul (from_int shares) reference_price in
    make_portfolio_state (record {
      session = session;
      cash = cash;
      shares = shares;
      reference_price = reference_price;
      market_value = market_value;
      equity = Decimal.add cash market_value;
    })

-- the order of both branches, from its estimate
abbrev pub order_of :
    ℕ → Signal → String → ℤ → Decimal → Decimal → ℤ → OrderCostEstimate → ProposedOrder
order_of sequence_number signal side quantity reference_open cash shares estimate = record {
  sequence_number = pos sequence_number;
  symbol = supported_symbol;
  side = side;
  quantity = quantity;
  signal_session = signal.signal_session;
  execution_session = signal.execution_session;
  target_position = signal.target_position;
  reference_open = reference_open;
  estimated_execution_price = estimate.execution_price;
  estimated_commission = estimate.commission;
  estimated_cash_change = estimate.cash_change;
  current_cash = cash;
  current_shares = shares;
}

unfoldable pub ordered :
    ℕ → Signal → String → ℤ → Decimal → Decimal → ℤ → BacktestConfig → Result (Option ProposedOrder)
ordered sequence_number signal side quantity reference_open cash shares config = do
  estimate ← estimate_order_cost side quantity reference_open config.cost_assumptions
  order ←
      make_proposed_order
        (order_of sequence_number signal side quantity reference_open cash shares estimate)
  ok (some order)

-- `if quantity <= 0: quantity = 1`
abbrev pub at_least_one : ℤ → ℤ
at_least_one quantity = if leb_ℤ quantity (pos 0) then pos 1 else quantity

unfoldable pub propose_buy :
    ℕ → Signal → Decimal → Decimal → ℤ → BacktestConfig → Result (Option ProposedOrder)
propose_buy sequence_number signal reference_open cash shares config = do
  quantity ← maximum_affordable_buy_quantity cash reference_open config.cost_assumptions
  ordered sequence_number signal buy_side (at_least_one quantity) reference_open cash shares config

unfoldable pub propose_order :
    ℕ → Signal → Decimal → Decimal → ℤ → BacktestConfig → Result (Option ProposedOrder)
propose_order sequence_number signal reference_open cash shares config =
    if eqb_ℤ signal.target_position (pos 1)
    then if ltb_ℤ (pos 0) shares
      then ok none
      else propose_buy sequence_number signal reference_open cash shares config
    else if eqb_ℤ shares (pos 0)
    then ok none
    else ordered sequence_number signal sell_side shares reference_open cash shares config

abbrev pub shares_after_order : ProposedOrder → ℤ → ℤ
shares_after_order order shares =
    if str_eq order.side buy_side then shares +ℤ order.quantity else shares -ℤ order.quantity

-- the fill of an order at its estimated costs
abbrev pub fill_of : ProposedOrder → Decimal → ℤ → OrderCostEstimate → FillRecord
fill_of order cash_before shares_before estimate = record {
  order_sequence_number = order.sequence_number;
  symbol = order.symbol;
  side = order.side;
  quantity = order.quantity;
  signal_session = order.signal_session;
  execution_session = order.execution_session;
  reference_open = order.reference_open;
  execution_price = estimate.execution_price;
  reference_notional = estimate.reference_notional;
  execution_notional = estimate.execution_notional;
  commission = estimate.commission;
  slippage_cost = estimate.slippage_cost;
  total_transaction_cost = estimate.total_transaction_cost;
  cash_change = estimate.cash_change;
  shares_before = shares_before;
  shares_after = shares_after_order order shares_before;
  cash_before = cash_before;
  cash_after = Decimal.add cash_before estimate.cash_change;
  risk_approved = true;
}

unfoldable pub fill_from_approved_order :
    ProposedOrder → Decimal → ℤ → BacktestConfig → Result FillRecord
fill_from_approved_order order cash_before shares_before config = do
  estimate ←
      estimate_order_cost order.side order.quantity order.reference_open config.cost_assumptions
  make_fill_record (fill_of order cash_before shares_before estimate)

-- the variables of the loop
pub record EngineState : Type 0 where
  pub cash : Decimal
  pub shares : ℤ
  pub previous_equity : Decimal
  pub running_peak : Decimal
  pub next_order_sequence : ℕ
  pub proposed_records : List ProposedOrder
  pub decision_records : List RiskDecision
  pub fill_records : List FillRecord
  pub portfolio_records : List PortfolioRow

unfoldable pub initial_state : BacktestConfig → EngineState
initial_state config = record {
  cash = config.initial_cash;
  shares = pos 0;
  previous_equity = config.initial_cash;
  running_peak = config.initial_cash;
  next_order_sequence = 1;
  proposed_records = [];
  decision_records = [];
  fill_records = [];
  portfolio_records = [];
}

-- the state with an order and the decision on it
abbrev pub with_decision : EngineState → ProposedOrder → RiskDecision → EngineState
with_decision st order decision = record st {
  next_order_sequence = suc st.next_order_sequence;
  proposed_records = st.proposed_records ++ (order ∷ []);
  decision_records = st.decision_records ++ (decision ∷ []);
}

abbrev pub with_fill : EngineState → FillRecord → EngineState
with_fill st fill = record st {
  cash = fill.cash_after;
  shares = fill.shares_after;
  fill_records = st.fill_records ++ (fill ∷ []);
}

-- `if decision.approved:`
unfoldable pub fill_if_approved :
    BacktestConfig → EngineState → ProposedOrder → RiskDecision → Result EngineState
fill_if_approved config st order decision =
    let decided = with_decision st order decision in
    if decision.approved
    then (do
      fill ← fill_from_approved_order order st.cash st.shares config
      ok (with_fill decided fill))
    else ok decided

-- `if order is not None:`
unfoldable pub decide_order :
    BacktestConfig
    → RiskConfig
    → EngineState
    → Signal
    → Decimal
    → Option ProposedOrder
    → Result EngineState
decide_order config risk st signal reference_open none = ok st
decide_order config risk st signal reference_open (some order) = do
  open_state ← portfolio_state signal.execution_session st.cash st.shares reference_open
  decision ← evaluate_order_risk order open_state risk config.cost_assumptions
  fill_if_approved config st order decision

-- the equity that the daily return is measured on
abbrev pub return_base : BacktestConfig → EngineState → Decimal
return_base config st = elim st.portfolio_records [
  | [] ↦ config.initial_cash
  | _ ∷ _ ↦ st.previous_equity
]

-- `max(running_peak, equity)`
abbrev pub max_decimal : Decimal → Decimal → Decimal
max_decimal a b = if Decimal.lt a b then b else a

-- the row of a signal, from the two quotients
abbrev pub valued_row : EngineState → Signal → Decimal → Decimal → Decimal → PortfolioRow
valued_row st signal close_price growth from_peak =
    let market_value = Decimal.mul (from_int st.shares) close_price in
    record {
      session = signal.execution_session;
      signal_session = signal.signal_session;
      target_position = signal.target_position;
      cash = st.cash;
      shares = st.shares;
      close_price = close_price;
      market_value = market_value;
      equity = Decimal.add st.cash market_value;
      daily_return = Decimal.sub growth one_decimal;
      drawdown = Decimal.sub from_peak one_decimal;
    }

abbrev pub with_row : EngineState → Decimal → PortfolioRow → EngineState
with_row st running_peak row = record st {
  previous_equity = row.equity;
  running_peak = running_peak;
  portfolio_records = st.portfolio_records ++ (row ∷ []);
}

-- the valuation at the close
unfoldable pub value_position : BacktestConfig → Signal → Decimal → EngineState → Result EngineState
value_position config signal close_price st =
    let market_value = Decimal.mul (from_int st.shares) close_price in
    let equity = Decimal.add st.cash market_value in
    let running_peak = max_decimal st.running_peak equity in
    do
      first_return ← quotient equity config.initial_cash
      growth ← quotient equity (return_base config st)
      from_peak ← quotient equity running_peak
      ok (with_row st running_peak (valued_row st signal close_price growth from_peak))

-- the body of the loop
unfoldable pub run_signal :
    BacktestConfig → RiskConfig → List ExecutionPrice → EngineState → Signal → Result EngineState
run_signal config risk prices st signal = do
  price ← price_at signal.execution_session prices
  order ← propose_order st.next_order_sequence signal price.reference_open st.cash st.shares config
  traded ← decide_order config risk st signal price.reference_open order
  value_position config signal price.close_price traded

unfoldable pub run_signals :
    BacktestConfig
    → RiskConfig
    → List ExecutionPrice
    → EngineState
    → List Signal
    → Result EngineState
run_signals config risk prices st [] = ok st
run_signals config risk prices st (signal ∷ signals) = do
  next ← run_signal config risk prices st signal
  run_signals config risk prices next signals

unfoldable pub run_validated_signal_backtest :
    BacktestConfig → RiskConfig → List ExecutionPrice → List Signal → Result EngineState
unfolding initial_state
run_validated_signal_backtest config risk prices signals =
    run_signals config risk prices (initial_state config) signals
