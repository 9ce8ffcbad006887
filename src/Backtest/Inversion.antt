-- ===== src/Backtest/Inversion.antt =====
-- What the checks of backtesting have found when they return.
use spy_market_agent.Prelude.{
  ℕ, String, ◌≡◌, sym, subst, inl, inr, true, false, some, Option, arith, ok, leb, Result-cases,
}
use spy_market_agent.Prelude.Int.{ℤ, pos, ◌≤ℤ◌}
use spy_market_agent.Decimal.{Decimal}
use spy_market_agent.Risk.Models.{is_negative, is_positive, PortfolioState, make_portfolio_state}
use spy_market_agent.Risk.Orders.{ProposedOrder, make_proposed_order}
use spy_market_agent.Risk.Rules.{CostAssumptions}
use spy_market_agent.Backtest.Models.{
  make_cost_assumptions, commission_rate, slippage_rate, FillRecord, make_fill_record,
  BacktestConfig,
}
use spy_market_agent.Backtest.Costs.{
  OrderCostEstimate, make_order_cost_estimate, slipped_price, order_figures, estimate_order_cost,
}
use spy_market_agent.Backtest.Engine.{
  order_of, ordered, Signal, fill_of, fill_from_approved_order, portfolio_state,
}

pub make_cost_assumptions-eq-ok :
    (c : CostAssumptions) {d : CostAssumptions} → make_cost_assumptions c ≡ ok d → c ≡ d
unfolding make_cost_assumptions
make_cost_assumptions-eq-ok c h = ground arith

pub make_order_cost_estimate-eq-ok :
    (e : OrderCostEstimate) {r : OrderCostEstimate}
    → make_order_cost_estimate e ≡ ok r
    → (e ≡ r) × (pos 1 ≤ℤ e.quantity)
unfolding make_order_cost_estimate
make_order_cost_estimate-eq-ok e h = ground arith

-- the rates and the price that an estimate rests on
pub record IsEstimate (side : String) (quantity : ℤ) (reference : Decimal) (costs : CostAssumptions)
    (e : OrderCostEstimate) : Type 0 where
  pub slipped : Decimal
  pub price : Decimal
  pub rate : Decimal
  pub slipped_from : slippage_rate costs ≡ ok slipped
  pub price_from : slipped_price side reference slipped ≡ ok price
  pub rate_from : commission_rate costs ≡ ok rate
  pub figures : e ≡ order_figures side quantity reference price rate
  pub quantity_positive : pos 1 ≤ℤ quantity
  pub checked : make_order_cost_estimate e ≡ ok e

pub estimate_order_cost-eq-ok :
    (side : String) (quantity : ℤ) (reference : Decimal) (costs : CostAssumptions)
    {e : OrderCostEstimate}
    → estimate_order_cost side quantity reference costs ≡ ok e
    → IsEstimate side quantity reference costs e
unfolding estimate_order_cost
estimate_order_cost-eq-ok side quantity reference costs {e} h =
    elim (Result-cases (make_cost_assumptions costs)) [
      | inr (x, k) ↦ ground arith
      | inl (c, k) ↦
          let same = make_cost_assumptions-eq-ok costs k in
          elim (Result-cases (slippage_rate costs)) [
            | inr (x, ks) ↦ ground arith
            | inl (s, ks) ↦ elim (Result-cases (slipped_price side reference s)) [
              | inr (x, kp) ↦ ground arith
              | inl (p, kp) ↦ elim (Result-cases (commission_rate costs)) [
                | inr (x, kr) ↦ ground arith
                | inl (r, kr) ↦
                    let figures = order_figures side quantity reference p r in
                    let made : make_order_cost_estimate figures ≡ ok e = ground arith in
                    let checked = make_order_cost_estimate-eq-ok figures made in
                    record {
                      slipped = s;
                      price = p;
                      rate = r;
                      slipped_from = ground arith;
                      price_from = kp;
                      rate_from = ground arith;
                      figures = sym checked.0;
                      quantity_positive = checked.1;
                      checked =
                          subst (λ (x : OrderCostEstimate). make_order_cost_estimate x ≡ ok e)
                            checked.0 made;
                    }
              ]
            ]
          ]
    ]

-- the checks of a proposed order that hold of it
pub record IsProposed (o : ProposedOrder) : Type 0 where
  pub sequence_number : pos 1 ≤ℤ o.sequence_number
  pub after_signal : leb o.execution_session o.signal_session ≡ false
  pub open_positive : is_positive o.reference_open ≡ true

pub make_proposed_order-eq-ok :
    (o : ProposedOrder) {p : ProposedOrder} → make_proposed_order o ≡ ok p → (o ≡ p) × IsProposed o
unfolding make_proposed_order
make_proposed_order-eq-ok o h = (
  ground arith,
  record {
    sequence_number = ground arith;
    after_signal = ground arith;
    open_positive = ground arith;
  },
)

pub make_fill_record-eq-ok :
    (f : FillRecord) {g : FillRecord}
    → make_fill_record f ≡ ok g
    → (f ≡ g) × (is_negative f.cash_after ≡ false) × (pos 0 ≤ℤ f.shares_after)
unfolding make_fill_record
make_fill_record-eq-ok f h = (ground arith, ground arith, ground arith)

pub portfolio_state-eq-ok :
    (session : ℕ) (cash : Decimal) (shares : ℤ) (price : Decimal) {s : PortfolioState}
    → portfolio_state session cash shares price ≡ ok s
    → (s.session ≡ session) × (s.cash ≡ cash) × (s.shares ≡ shares)
unfolding portfolio_state make_portfolio_state
portfolio_state-eq-ok session cash shares price h = (ground arith, ground arith, ground arith)

pub fill_from_approved_order-eq-ok :
    (o : ProposedOrder) (cash : Decimal) (shares : ℤ) (config : BacktestConfig) {f : FillRecord}
    → fill_from_approved_order o cash shares config ≡ ok f
    → (e : OrderCostEstimate) × IsEstimate o.side o.quantity o.reference_open
        config.cost_assumptions e
      × (f ≡ fill_of o cash shares e)
      × (is_negative f.cash_after ≡ false)
unfolding fill_from_approved_order
fill_from_approved_order-eq-ok o cash shares config {f} h =
    elim (Result-cases
      (estimate_order_cost o.side o.quantity o.reference_open config.cost_assumptions)) [
        | inr (x, k) ↦ ground arith
        | inl (e, k) ↦
            let made : make_fill_record (fill_of o cash shares e) ≡ ok f = ground arith in
            let checked = make_fill_record-eq-ok (fill_of o cash shares e) made in
            (
              e,
              estimate_order_cost-eq-ok o.side o.quantity o.reference_open config.cost_assumptions
                  k,
              sym checked.0,
              subst (λ (g : FillRecord). is_negative g.cash_after ≡ false) checked.0 checked.1,
            )
      ]

pub ordered-eq-ok :
    (n : ℕ) (signal : Signal) (side : String) (q : ℤ) (price cash : Decimal) (shares : ℤ)
    (config : BacktestConfig) {result : Option ProposedOrder}
    → ordered n signal side q price cash shares config ≡ ok result
    → (e : OrderCostEstimate) × IsEstimate side q price config.cost_assumptions e
      × (result ≡ some (order_of n signal side q price cash shares e))
      × IsProposed (order_of n signal side q price cash shares e)
unfolding ordered
ordered-eq-ok n signal side q price cash shares config {result} h =
    elim (Result-cases (estimate_order_cost side q price config.cost_assumptions)) [
      | inr (x, k) ↦ ground arith
      | inl (e, k) ↦
          let o = order_of n signal side q price cash shares e in
          elim (Result-cases (make_proposed_order o)) [
            | inr (x, m) ↦ ground arith
            | inl (p, m) ↦
                let checked = make_proposed_order-eq-ok o m in
                (
                  e,
                  estimate_order_cost-eq-ok side q price config.cost_assumptions k,
                  ground (arith, checked.0),
                  checked.1,
                )
          ]
    ]
