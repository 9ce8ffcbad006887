-- ===== src/Backtest/Steps.antt =====
-- One signal of backtesting/engine.py as a step: no order, an order refused, or an order filled.
use spy_market_agent.Prelude.{
  String, ◌≡◌, refl, ◌∙◌, sym, ap, subst, ◌⊎◌, inl, inr, true, false, some, none, Option, arith, ok,
  List, ◌++◌, [], ◌∷◌, Result-cases, Bool-cases,
}
use spy_market_agent.Prelude.Int.{ℤ, pos, ◌≤ℤ◌, ltb_ℤ, eqb_ℤ, eqb_ℤ→eq}
use spy_market_agent.Decimal
use spy_market_agent.Decimal.{Decimal, from_int}
use spy_market_agent.Risk.Models.{buy_side, sell_side, is_negative, PortfolioState, RiskConfig}
use spy_market_agent.Risk.Orders.{ProposedOrder, RiskDecision}
use spy_market_agent.Risk.Rules.{evaluate_order_risk, quotient}
use spy_market_agent.Backtest.Models.{FillRecord, BacktestConfig}
use spy_market_agent.Backtest.Costs.{OrderCostEstimate, maximum_affordable_buy_quantity}
use spy_market_agent.Backtest.Engine.{
  Signal, ExecutionPrice, EngineState, PortfolioRow, order_of, propose_buy, propose_order,
  at_least_one, ordered, fill_of, fill_from_approved_order, fill_if_approved, decide_order,
  portfolio_state, with_decision, with_fill, value_position, run_signal, price_at, max_decimal,
  return_base, valued_row, with_row,
}
use spy_market_agent.Backtest.Inversion.{
  IsEstimate, IsProposed, ordered-eq-ok, fill_from_approved_order-eq-ok,
}

-- When an order is proposed: a buy from no position for a target of one, or a sale of the whole
-- position for another target.
abbrev pub IsExit : ℤ → Signal → String → ℤ → Type 0
IsExit shares signal side quantity =
    (side ≡ sell_side) × (quantity ≡ shares) × (eqb_ℤ signal.target_position (pos 1) ≡ false)

abbrev pub IsEntry : ℤ → Signal → String → Type 0
IsEntry shares signal side =
    (side ≡ buy_side) × (shares ≤ℤ pos 0) × (signal.target_position ≡ pos 1)

-- an order that the engine proposes in a state, at an open price
pub record IsOrderAt (config : BacktestConfig) (st : EngineState) (signal : Signal)
    (price : Decimal) (o : ProposedOrder) : Type 0 where
  pub side : String
  pub quantity : ℤ
  pub estimate : OrderCostEstimate
  pub estimated : IsEstimate side quantity price config.cost_assumptions estimate
  pub fields :
      o ≡ order_of st.next_order_sequence signal side quantity price st.cash st.shares estimate
  pub checked : IsProposed o
  pub wanted : IsEntry st.shares signal side ⊎ IsExit st.shares signal side quantity

module _ (config : BacktestConfig) (st : EngineState) (signal : Signal) (price : Decimal) where
  proposed_from_ordered :
      (side : String) (q : ℤ) {o : ProposedOrder}
      → ordered st.next_order_sequence signal side q price st.cash st.shares config ≡ ok (some o)
      → IsEntry st.shares signal side ⊎ IsExit st.shares signal side q
      → IsOrderAt config st signal price o
  proposed_from_ordered side q {o} h wanted =
      let (e, est, same, checked) =
        ordered-eq-ok st.next_order_sequence signal side q price st.cash st.shares config h in
      let fields : o ≡ order_of st.next_order_sequence signal side q price st.cash st.shares e =
        ground (arith, same) in
      record {
        side = side;
        quantity = q;
        estimate = e;
        estimated = est;
        fields = fields;
        checked = subst IsProposed (sym fields) checked;
        wanted = wanted;
      }

  pub propose_order-eq-ok :
      {o : ProposedOrder}
      → propose_order st.next_order_sequence signal price st.cash st.shares config ≡ ok (some o)
      → IsOrderAt config st signal price o
  propose_order-eq-ok {o} h = elim (Bool-cases (eqb_ℤ signal.target_position (pos 1))) [
    | inl entering ↦ entry entering
    | inr leaving ↦
        proposed_from_ordered sell_side st.shares (unfold propose_order in ground arith)
          (inr (refl, refl, leaving))
  ]
    where
      entry : eqb_ℤ signal.target_position (pos 1) ≡ true → IsOrderAt config st signal price o
      entry entering =
          let buying : (ltb_ℤ (pos 0) st.shares ≡ false)
              × (propose_buy st.next_order_sequence signal price st.cash st.shares config
                  ≡ ok (some o)) =
            unfold propose_order in ground arith in
          elim (Result-cases
            (maximum_affordable_buy_quantity st.cash price config.cost_assumptions)) [
              | inr (x, k) ↦ unfold propose_buy in ground arith
              | inl (q, k) ↦
                  proposed_from_ordered buy_side (at_least_one q)
                    (unfold propose_buy in ground arith)
                    (inl (refl, ground arith, eqb_ℤ→eq signal.target_position (pos 1) entering))
            ]

-- an order with the decision of the risk rules on it, in the state of its session
pub record IsDecision (config : BacktestConfig) (risk : RiskConfig) (st : EngineState)
    (signal : Signal) (price : Decimal) (o : ProposedOrder) (d : RiskDecision) : Type 0 where
  pub order : IsOrderAt config st signal price o
  pub portfolio : PortfolioState
  pub opened : portfolio_state signal.execution_session st.cash st.shares price ≡ ok portfolio
  pub evaluated : evaluate_order_risk o portfolio risk config.cost_assumptions ≡ ok d

pub data Step (config : BacktestConfig) (risk : RiskConfig) (st : EngineState) (signal : Signal)
    : EngineState → Type 0 where
  unchanged : Step config risk st signal st
  refused :
      (price : Decimal) (o : ProposedOrder) (d : RiskDecision)
      → IsDecision config risk st signal price o d
      → d.approved ≡ false
      → Step config risk st signal (with_decision st o d)
  filled :
      (price : Decimal) (o : ProposedOrder) (d : RiskDecision) (e : OrderCostEstimate)
      → IsDecision config risk st signal price o d
      → d.approved ≡ true
      → IsEstimate o.side o.quantity o.reference_open config.cost_assumptions e
      → is_negative (fill_of o st.cash st.shares e).cash_after ≡ false
      → Step config risk st signal
          (with_fill (with_decision st o d) (fill_of o st.cash st.shares e))

module _ (config : BacktestConfig) (risk : RiskConfig) (st : EngineState) (signal : Signal)
    (price : Decimal) where
  fill_if_approved-Step :
      (o : ProposedOrder) (d : RiskDecision) {next : EngineState}
      → IsDecision config risk st signal price o d
      → fill_if_approved config st o d ≡ ok next
      → Step config risk st signal next
  fill_if_approved-Step o d {next} decided h = elim (Bool-cases d.approved) [
    | inr turned_down ↦
        let same : with_decision st o d ≡ next = unfold fill_if_approved in ground arith in
        subst (Step config risk st signal) same (refused price o d decided turned_down)
    | inl agreed ↦ elim (Result-cases (fill_from_approved_order o st.cash st.shares config)) [
      | inr (x, k) ↦ unfold fill_if_approved in ground arith
      | inl (f, k) ↦
          let (e, est, same, solvent) =
            fill_from_approved_order-eq-ok o st.cash st.shares config k in
          let done : with_fill (with_decision st o d) f ≡ next =
            unfold fill_if_approved in ground arith in
          let moved : with_fill (with_decision st o d) (fill_of o st.cash st.shares e) ≡ next =
            ap (with_fill (with_decision st o d)) (sym same) ∙ done in
          subst (Step config risk st signal) moved (
            filled price o d e decided agreed est
              (subst (λ (g : FillRecord). is_negative g.cash_after ≡ false) same solvent))
    ]
  ]

  pub decide_order-Step :
      (order : Option ProposedOrder) {next : EngineState}
      → propose_order st.next_order_sequence signal price st.cash st.shares config ≡ ok order
      → decide_order config risk st signal price order ≡ ok next
      → Step config risk st signal next
  unfolding decide_order
  decide_order-Step none {next} p h =
      let same : st ≡ next = ground arith in subst (Step config risk st signal) same unchanged
  decide_order-Step (some o) {next} p h =
      elim (Result-cases (portfolio_state signal.execution_session st.cash st.shares price)) [
        | inr (x, k) ↦ ground arith
        | inl (s, k) ↦ elim (Result-cases (evaluate_order_risk o s risk config.cost_assumptions)) [
          | inr (x, m) ↦ ground arith
          | inl (d, m) ↦
              fill_if_approved-Step o d
                (record {
                  order = propose_order-eq-ok config st signal price p;
                  portfolio = s;
                  opened = k;
                  evaluated = m;
                })
                (ground arith)
        ]
      ]

-- what the valuation leaves as it is, and the row it adds
pub record IsValued (config : BacktestConfig) (signal : Signal) (st next : EngineState)
    : Type 0 where
  pub row : PortfolioRow
  pub cash : next.cash ≡ st.cash
  pub shares : next.shares ≡ st.shares
  pub sequence : next.next_order_sequence ≡ st.next_order_sequence
  pub proposed : next.proposed_records ≡ st.proposed_records
  pub decisions : next.decision_records ≡ st.decision_records
  pub fills : next.fill_records ≡ st.fill_records
  pub rows : next.portfolio_records ≡ st.portfolio_records ++ (row ∷ [])
  pub row_cash : row.cash ≡ st.cash
  pub row_shares : row.shares ≡ st.shares
  pub row_sessions :
      (row.session ≡ signal.execution_session) × (row.signal_session ≡ signal.signal_session)
  pub row_equity :
      (row.equity ≡ next.previous_equity)
      × (row.equity ≡ Decimal.add row.cash (Decimal.mul (from_int row.shares) row.close_price))

pub value_position-eq-ok :
    (config : BacktestConfig) (signal : Signal) (close_price : Decimal) (st : EngineState)
    {next : EngineState}
    → value_position config signal close_price st ≡ ok next
    → IsValued config signal st next
value_position-eq-ok config signal close st {next} h =
    let equity = Decimal.add st.cash (Decimal.mul (from_int st.shares) close) in
    let peak = max_decimal st.running_peak equity in
    elim (Result-cases (quotient equity config.initial_cash)) [
      | inr (x, k) ↦ unfold value_position in ground arith
      | inl (a, k) ↦ elim (Result-cases (quotient equity (return_base config st))) [
        | inr (x, l) ↦ unfold value_position in ground arith
        | inl (b, l) ↦ elim (Result-cases (quotient equity peak)) [
          | inr (x, m) ↦ unfold value_position in ground arith
          | inl (c, m) ↦
              let row = valued_row st signal close b c in
              let same : with_row st peak row ≡ next = unfold value_position in ground arith in
              subst (IsValued config signal st) same (record {
                row = row;
                cash = refl;
                shares = refl;
                sequence = refl;
                proposed = refl;
                decisions = refl;
                fills = refl;
                rows = refl;
                row_cash = refl;
                row_shares = refl;
                row_sessions = (refl, refl);
                row_equity = (refl, refl);
              })
        ]
      ]
    ]

-- the body of the loop: a step, and the valuation of what it leaves
pub run_signal-eq-ok :
    (config : BacktestConfig) (risk : RiskConfig) (prices : List ExecutionPrice) (st : EngineState)
    (signal : Signal) {next : EngineState}
    → run_signal config risk prices st signal ≡ ok next
    → (mid : EngineState) × Step config risk st signal mid × IsValued config signal mid next
run_signal-eq-ok config risk prices st signal {next} h =
    elim (Result-cases (price_at signal.execution_session prices)) [
      | inr (x, k) ↦ unfold run_signal in ground arith
      | inl (p, k) ↦
          elim (Result-cases (
            propose_order st.next_order_sequence signal p.reference_open st.cash st.shares
              config)) [
                | inr (x, l) ↦ unfold run_signal in ground arith
                | inl (order, l) ↦
                    elim (Result-cases
                      (decide_order config risk st signal p.reference_open order)) [
                        | inr (x, m) ↦ unfold run_signal in ground arith
                        | inl (mid, m) ↦ (
                          mid,
                          decide_order-Step config risk st signal p.reference_open order l m,
                          value_position-eq-ok config signal p.close_price mid
                              (unfold run_signal in ground arith),
                        )
                      ]
              ]
    ]
