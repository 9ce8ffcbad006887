-- ===== src/Risk/Rules.antt =====
-- risk/rules.py: `evaluate_order_risk`.
use spy_market_agent.Prelude.{
  ℕ, String, Bool, true, false, not, ◌&&◌, ◌||◌, List, [], ◌∷◌, none, some, leb, str_eq,
  if◌then◌else◌, Result, ok, err, risk_input, division_error, ◌>>=◌, ◌>>◌,
}
use spy_market_agent.Prelude.Int.{ℤ, pos, pos_part, ◌+ℤ◌, ◌-ℤ◌, ltb_ℤ, leb_ℤ, eqb_ℤ}
use spy_market_agent.Decimal
use spy_market_agent.Decimal.{Decimal, from_int, zero_decimal, one_decimal}
use spy_market_agent.Risk.Models.{
  ReasonCode, approved_reason, unsupported_symbol, short_selling_forbidden, leverage_forbidden,
  fractional_quantity_forbidden, insufficient_cash, sell_quantity_exceeds_position,
  invalid_target_transition, execution_not_after_signal, maximum_position_exceeded,
  missing_required_information, invalid_price, invalid_portfolio_state, pyramiding_forbidden,
  full_exit_required, order_cost_estimate_mismatch, same_code, supported_symbol, buy_side,
  is_negative, is_positive, require_decimal, require_positive_int, RiskConfig, make_risk_config,
  PortfolioState, make_portfolio_state,
}
use spy_market_agent.Risk.Orders.{
  ProposedOrder, RiskDecision, make_risk_decision, is_order_side, is_target_position,
}

-- the fields that `BacktestCostAssumptions` and `evaluate_order_risk` read
pub record CostAssumptions : Type 0 where
  pub commission_bps_per_side : Decimal
  pub slippage_bps_per_side : Decimal

abbrev pub basis_points_divisor : Decimal
basis_points_divisor = from_int (pos 10000)

-- What `divide` returns, or the exception of the division.
unfoldable pub quotient : Decimal → Decimal → Result Decimal
quotient a b = elim (Decimal.divide a b) [ none ↦ err division_error | some q ↦ ok q ]

unfoldable pub cost_rate_from_assumptions : Decimal → String → Result Decimal
cost_rate_from_assumptions bps code = do
  value ← require_decimal bps code
  quotient value basis_points_divisor

-- `if b: reason_codes.append(c)`, before what is appended after it
abbrev pub flag : Bool → ReasonCode → List ReasonCode → List ReasonCode
flag b c rest = if b then c ∷ rest else rest

-- `tuple(dict.fromkeys(reason_codes))`: each code at its first place
unfoldable pub remove_code : ReasonCode → List ReasonCode → List ReasonCode
remove_code c [] = []
remove_code c (d ∷ cs) = let rest = remove_code c cs in if same_code c d then rest else d ∷ rest

unfoldable pub from_keys : List ReasonCode → List ReasonCode
unfolding remove_code
from_keys [] = []
from_keys (c ∷ cs) = c ∷ remove_code c (from_keys cs)

unfoldable pub unchanged_projection : ℤ → ℕ → PortfolioState → List ReasonCode → Result RiskDecision
unchanged_projection sequence_number evaluated_session state reason_codes =
    make_risk_decision (record {
      order_sequence_number = sequence_number;
      approved = false;
      reason_codes = from_keys reason_codes;
      evaluated_session = evaluated_session;
      projected_cash = state.cash;
      projected_shares = state.shares;
      projected_market_value = state.market_value;
      projected_equity = state.equity;
    })

-- What an order costs or brings, as the rules compute it from a quantity and an open price.
pub record Costing : Type 0 where
  pub execution_price : Decimal
  pub execution_notional : Decimal
  pub commission : Decimal

unfoldable pub execution_price_of : Bool → Decimal → Decimal → Decimal
execution_price_of buying reference_open slippage_rate =
    if buying
    then Decimal.mul reference_open (Decimal.add one_decimal slippage_rate)
    else Decimal.mul reference_open (Decimal.sub one_decimal slippage_rate)

unfoldable pub costing : Bool → ℤ → Decimal → Decimal → Decimal → Costing
unfolding execution_price_of
costing buying quantity reference_open commission_rate slippage_rate =
    let price = execution_price_of buying reference_open slippage_rate in
    let notional = Decimal.mul (from_int quantity) price in
    record {
      execution_price = price;
      execution_notional = notional;
      commission = Decimal.mul notional commission_rate;
    }

unfoldable pub expected_cash_change : Bool → Costing → Decimal
expected_cash_change buying c =
    if buying
    then Decimal.negate (Decimal.add c.execution_notional c.commission)
    else Decimal.sub c.execution_notional c.commission

-- `_cost_values_match` after `_decimal_order_value`, which yields None for a negative value
abbrev pub cost_value_matches : Decimal → Decimal → Bool
cost_value_matches left right = not (is_negative left) && Decimal.eq left right

unfoldable pub estimates_match : ProposedOrder → Bool → Costing → Bool
unfolding expected_cash_change
estimates_match o buying c =
    cost_value_matches o.estimated_execution_price c.execution_price
    && (cost_value_matches o.estimated_commission c.commission
        && Decimal.eq o.estimated_cash_change (expected_cash_change buying c))

-- `quantity` and `reference_open` after their checks
abbrev pub checked_quantity : ProposedOrder → ℤ
checked_quantity o = if leb_ℤ o.quantity (pos 0) then pos 0 else o.quantity

abbrev pub checked_open : ProposedOrder → PortfolioState → Decimal
checked_open o state =
    if is_positive o.reference_open then o.reference_open else state.reference_price

-- the reason codes that are collected before any projection
unfoldable pub preliminary_reasons :
    ProposedOrder → PortfolioState → RiskConfig → Decimal → Decimal → List ReasonCode
preliminary_reasons o state config commission_rate slippage_rate =
    let buying = str_eq o.side buy_side in
    let quantity = checked_quantity o in
    let cost = costing buying quantity (checked_open o state) commission_rate slippage_rate in
    flag (not (str_eq o.symbol config.supported) || not (str_eq o.symbol supported_symbol))
      unsupported_symbol
      (flag (not (is_order_side o.side)) missing_required_information (
        flag (leb_ℤ o.quantity (pos 0)) fractional_quantity_forbidden (
          flag (leb o.execution_session o.signal_session) execution_not_after_signal (
            flag (not (is_target_position o.target_position)) invalid_target_transition (
              flag (not (is_positive o.reference_open)) invalid_price (
                flag
                  (not (Decimal.eq o.current_cash state.cash)
                    || not (eqb_ℤ o.current_shares state.shares))
                  invalid_portfolio_state
                  (flag
                    (is_order_side o.side
                      && (ltb_ℤ (pos 0) quantity && not (estimates_match o buying cost)))
                    order_cost_estimate_mismatch [])))))))

-- the four projected figures
pub record Projection : Type 0 where
  pub cash : Decimal
  pub shares : ℤ
  pub market_value : Decimal
  pub equity : Decimal

unfoldable pub buy_projection : PortfolioState → ℤ → Decimal → Costing → Projection
unfolding ◌+ℤ◌
buy_projection state quantity reference_open c =
    let cash = Decimal.sub state.cash (Decimal.add c.execution_notional c.commission) in
    let shares = state.shares +ℤ quantity in
    let market_value = Decimal.mul (from_int shares) reference_open in
    record {
      cash = cash;
      shares = shares;
      market_value = market_value;
      equity = Decimal.add cash market_value;
    }

unfoldable pub sell_projection : PortfolioState → ℤ → Decimal → Costing → Projection
unfolding ◌-ℤ◌
sell_projection state quantity reference_open c =
    let cash = Decimal.add state.cash (Decimal.sub c.execution_notional c.commission) in
    let shares = state.shares -ℤ quantity in
    let market_value = Decimal.mul (from_int (pos (pos_part shares))) reference_open in
    record {
      cash = cash;
      shares = shares;
      market_value = market_value;
      equity = Decimal.add cash market_value;
    }

-- the test of the position's weight, which divides by the projected equity only if that is positive
unfoldable pub weight_reasons : RiskConfig → Projection → Result (List ReasonCode)
weight_reasons config p =
    if Decimal.le p.equity zero_decimal then ok (leverage_forbidden ∷ []) else do
      weight ← quotient p.market_value p.equity
      ok (flag (Decimal.lt config.maximum_position_weight weight) maximum_position_exceeded [])

-- the codes of a buy, before those of its weight
abbrev pub buy_codes :
    ProposedOrder → PortfolioState → Costing → Projection → List ReasonCode → List ReasonCode
buy_codes o state c p weight =
    flag (not (eqb_ℤ o.target_position (pos 1))) invalid_target_transition (
      flag (ltb_ℤ (pos 0) state.shares) pyramiding_forbidden (
        flag (Decimal.lt state.cash (Decimal.add c.execution_notional c.commission))
          insufficient_cash (flag (is_negative p.cash) leverage_forbidden weight)))

unfoldable pub buy_reasons :
    ProposedOrder → PortfolioState → RiskConfig → Costing → Projection → Result (List ReasonCode)
buy_reasons o state config c p = do
  weight ← weight_reasons config p
  ok (buy_codes o state c p weight)

unfoldable pub sell_reasons :
    ProposedOrder → PortfolioState → Costing → Projection → List ReasonCode
sell_reasons o state c p = flag (not (eqb_ℤ o.target_position (pos 0))) invalid_target_transition (
    flag (not (eqb_ℤ o.quantity state.shares)) full_exit_required (
      flag (Decimal.le c.execution_price zero_decimal) invalid_price (
        flag (ltb_ℤ state.shares o.quantity) sell_quantity_exceeds_position (
          flag (ltb_ℤ state.shares o.quantity) short_selling_forbidden
            (flag (ltb_ℤ p.shares (pos 0)) short_selling_forbidden [])))))

-- the end of both branches: a rejection if any code was collected, else the approval
unfoldable pub conclude :
    ProposedOrder → PortfolioState → Projection → List ReasonCode → Result RiskDecision
conclude o state p (c ∷ cs) =
    unchanged_projection o.sequence_number o.execution_session state (c ∷ cs)
conclude o state p [] = make_risk_decision (record {
  order_sequence_number = o.sequence_number;
  approved = true;
  reason_codes = approved_reason ∷ [];
  evaluated_session = o.execution_session;
  projected_cash = p.cash;
  projected_shares = p.shares;
  projected_market_value = p.market_value;
  projected_equity = p.equity;
})

-- the projections of the order that passed the preliminary checks
unfoldable pub evaluate_projection :
    ProposedOrder → PortfolioState → RiskConfig → Decimal → Decimal → Result RiskDecision
evaluate_projection o state config commission_rate slippage_rate =
    let buying = str_eq o.side buy_side in
    let c = costing buying o.quantity o.reference_open commission_rate slippage_rate in
    let bought = buy_projection state o.quantity o.reference_open c in
    let sold = sell_projection state o.quantity o.reference_open c in
    if buying
    then (do reasons ← buy_reasons o state config c bought; conclude o state bought reasons)
    else conclude o state sold (sell_reasons o state c sold)

-- the `try` around the revalidation of the portfolio
unfoldable pub revalidated : Result PortfolioState → Result PortfolioState
revalidated (ok state) = ok state
revalidated (err _) = err (risk_input "invalid_portfolio_state")

-- `if reason_codes: return _unchanged_projection(...)`, before the projections
unfoldable pub decide_preliminary :
    ProposedOrder
    → PortfolioState
    → RiskConfig
    → Decimal
    → Decimal
    → List ReasonCode
    → Result RiskDecision
decide_preliminary o state config commission_rate slippage_rate (c ∷ cs) =
    unchanged_projection o.sequence_number o.execution_session state (c ∷ cs)
decide_preliminary o state config commission_rate slippage_rate [] =
    evaluate_projection o state config commission_rate slippage_rate

unfoldable pub evaluate_order_risk :
    ProposedOrder → PortfolioState → RiskConfig → CostAssumptions → Result RiskDecision
evaluate_order_risk o portfolio_state risk_config costs = do
  state ← revalidated (make_portfolio_state portfolio_state)
  config ← make_risk_config risk_config
  commission_rate ←
      cost_rate_from_assumptions costs.commission_bps_per_side "negative_commission_bps_per_side"
  slippage_rate ←
      cost_rate_from_assumptions costs.slippage_bps_per_side "negative_slippage_bps_per_side"
  require_positive_int o.sequence_number "invalid_sequence_number"
  decide_preliminary o state config commission_rate slippage_rate
      (preliminary_reasons o state config commission_rate slippage_rate)
