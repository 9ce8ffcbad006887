-- ===== src/Risk/Inversion.antt =====
-- `evaluate_order_risk` taken apart: what each stage has established when a decision comes back.
use spy_market_agent.Prelude.{
  ◌<◌, str_eq, ◌≡◌, inl, inr, Result-cases, true, false, [], arith, ok, eq_iff,
}
use spy_market_agent.Prelude.Int.{pos, ◌≤ℤ◌, ◌<ℤ◌}
use spy_market_agent.Decimal
use spy_market_agent.Decimal.{Decimal, from_int, zero_decimal, one_decimal}
use spy_market_agent.Risk.Models.{
  is_negative, is_positive, RiskConfig, make_risk_config, PortfolioState, make_portfolio_state,
  require_positive_int, supported_symbol, buy_side,
}
use spy_market_agent.Risk.Orders.{ProposedOrder, RiskDecision, is_order_side}
use spy_market_agent.Risk.Rules.{
  CostAssumptions, costing, cost_rate_from_assumptions, preliminary_reasons, decide_preliminary,
  revalidated, estimates_match, evaluate_order_risk,
}

-- what the checks before the projections have established
pub record IsAdmitted (s : PortfolioState) (config : RiskConfig) : Type 0 where
  pub cash : is_negative s.cash ≡ false
  pub shares : pos 0 ≤ℤ s.shares
  pub price : is_positive s.reference_price ≡ true
  pub market_value : is_negative s.market_value ≡ false
  pub equity : is_negative s.equity ≡ false
  pub balance : Decimal.eq s.equity (Decimal.add s.cash s.market_value) ≡ true
  pub symbol : config.supported ≡ supported_symbol

pub admitted_lem :
    (s : PortfolioState) (config : RiskConfig) {t : PortfolioState} {c : RiskConfig}
    → make_portfolio_state s ≡ ok t
    → make_risk_config config ≡ ok c
    → IsAdmitted s config
unfolding make_portfolio_state make_risk_config
admitted_lem s config h k = ground (arith, eq_iff config.supported supported_symbol)

pub make_portfolio_state-eq-ok :
    (s : PortfolioState) {t : PortfolioState} → make_portfolio_state s ≡ ok t → s ≡ t
unfolding make_portfolio_state
make_portfolio_state-eq-ok s h = ground arith

pub make_risk_config-eq-ok : (c : RiskConfig) {t : RiskConfig} → make_risk_config c ≡ ok t → c ≡ t
unfolding make_risk_config
make_risk_config-eq-ok c h = ground arith

pub evaluate-eq-ok :
    (o : ProposedOrder) (s : PortfolioState) (config : RiskConfig) (costs : CostAssumptions)
    {d : RiskDecision}
    → evaluate_order_risk o s config costs ≡ ok d
    → (t : PortfolioState) × (c : RiskConfig) × (cr : Decimal) × (sr : Decimal)
      × (make_portfolio_state s ≡ ok t)
      × (make_risk_config config ≡ ok c)
      × (cost_rate_from_assumptions costs.commission_bps_per_side "negative_commission_bps_per_side"
          ≡ ok cr)
      × (cost_rate_from_assumptions costs.slippage_bps_per_side "negative_slippage_bps_per_side"
          ≡ ok sr)
      × (decide_preliminary o t c cr sr (preliminary_reasons o t c cr sr) ≡ ok d)
unfolding evaluate_order_risk revalidated require_positive_int
evaluate-eq-ok o s config costs h = elim (Result-cases (make_portfolio_state s)) [
  | inl (t, et) ↦ elim (Result-cases (make_risk_config config)) [
    | inl (c, ec) ↦
        elim (Result-cases (
          cost_rate_from_assumptions costs.commission_bps_per_side
            "negative_commission_bps_per_side")) [
              | inl (cr, er) ↦
                  elim (Result-cases (
                    cost_rate_from_assumptions costs.slippage_bps_per_side
                      "negative_slippage_bps_per_side")) [
                        | inl (sr, es) ↦ (t, c, cr, sr, et, ec, er, es, ground arith)
                        | inr (e, es) ↦ ground arith
                      ]
              | inr (e, er) ↦ ground arith
            ]
    | inr (e, ec) ↦ ground arith
  ]
  | inr (e, et) ↦ ground arith
]

-- what no preliminary reason code says of the order
pub record IsWellFormed (o : ProposedOrder) (s : PortfolioState) (cr sr : Decimal) : Type 0 where
  pub symbol : o.symbol ≡ supported_symbol
  pub side : is_order_side o.side ≡ true
  pub quantity : pos 0 <ℤ o.quantity
  pub later : o.signal_session < o.execution_session
  pub open_price : is_positive o.reference_open ≡ true
  pub estimates :
      estimates_match o
        (str_eq o.side buy_side)
        (costing (str_eq o.side buy_side) o.quantity o.reference_open cr sr)
      ≡ true

pub preliminary_reasons-nil :
    (o : ProposedOrder) (s : PortfolioState) (c : RiskConfig) (cr sr : Decimal)
    → preliminary_reasons o s c cr sr ≡ []
    → IsWellFormed o s cr sr
unfolding preliminary_reasons
preliminary_reasons-nil o s c cr sr h = ground (arith, eq_iff o.symbol supported_symbol)
