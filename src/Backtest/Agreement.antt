-- ===== src/Backtest/Agreement.antt =====
-- An order that the risk rules approve is filled by the engine as the rules projected it.
use spy_market_agent.Prelude.{
  String, ◌≡◌, refl, sym, ap, subst, ◌∙◌, inl, inr, true, false, arith, ok, Result, leb, str_eq,
  eq_iff,
}
use spy_market_agent.Prelude.Int.{
  ℤ, pos, ◌≤ℤ◌, ◌+ℤ◌, ◌-ℤ◌, eqb_ℤ_refl, int_laws, eq_of_parts, pos_part, neg_part,
}
use spy_market_agent.Decimal
use spy_market_agent.Decimal.{Decimal, zero_decimal, one_decimal, le}
use spy_market_agent.Decimal.Order.{eq_refl_lem}
use spy_market_agent.Decimal.Idempotent.{add-negate-add}
use spy_market_agent.Risk.Models.{
  buy_side, sell_side, supported_symbol, is_negative, PortfolioState, RiskConfig, require_decimal,
}
use spy_market_agent.Risk.Orders.{ProposedOrder, RiskDecision}
use spy_market_agent.Risk.Rules.{
  quotient, basis_points_divisor, cost_rate_from_assumptions, costing, execution_price_of,
  evaluate_order_risk,
}
use spy_market_agent.Risk.Inversion.{IsAdmitted, admitted_lem, evaluate-eq-ok}
use spy_market_agent.Risk.Approval.{IsApproved, evaluate_order_risk_sound}
use spy_market_agent.Backtest.Models.{
  make_fill_record, check_side, FillRecord, BacktestConfig, slippage_rate, commission_rate,
}
use spy_market_agent.Backtest.Costs.{
  OrderCostEstimate, make_order_cost_estimate, order_figures, slipped_price, estimate_order_cost,
}
use spy_market_agent.Backtest.Engine.{fill_of, fill_from_approved_order, shares_after_order}
use spy_market_agent.Backtest.Inversion.{estimate_order_cost-eq-ok}
use spy_market_agent.Backtest.Estimates.{IsAsked, estimate_order_cost-Returns}
use spy_market_agent.Backtest.Records.{evaluate-sequence}

cost_rate-eq-ok :
    (bps : Decimal) (code : String) {r : Decimal}
    → cost_rate_from_assumptions bps code ≡ ok r
    → (is_negative bps ≡ false) × (quotient bps basis_points_divisor ≡ ok r)
unfolding cost_rate_from_assumptions require_decimal
cost_rate-eq-ok bps code h = ground arith

ok-injective : (r : Result Decimal) {a b : Decimal} → r ≡ ok a → r ≡ ok b → a ≡ b
ok-injective r h k = ground arith

-- The checks of a fill repeat those of the estimate it is made of.
fill_of-IsMade :
    (o : ProposedOrder) (cash : Decimal) (shares : ℤ) (e : OrderCostEstimate)
    → make_order_cost_estimate e ≡ ok e
    → (e.side ≡ o.side) × (e.quantity ≡ o.quantity) × (e.reference_open ≡ o.reference_open)
    → pos 1 ≤ℤ o.sequence_number
    → o.symbol ≡ supported_symbol
    → leb o.execution_session o.signal_session ≡ false
    → is_negative cash ≡ false
    → pos 0 ≤ℤ shares
    → pos 0 ≤ℤ shares_after_order o shares
    → is_negative (Decimal.add cash e.cash_change) ≡ false
    → make_fill_record (fill_of o cash shares e) ≡ ok (fill_of o cash shares e)
unfolding make_order_cost_estimate make_fill_record check_side
fill_of-IsMade o cash shares e made same n symbol later c s after solvent = ground (
  arith,
  eq_iff o.symbol supported_symbol,
  eq_refl_lem (Decimal.add cash e.cash_change),
  eqb_ℤ_refl (shares +ℤ o.quantity),
  eqb_ℤ_refl (shares -ℤ o.quantity),
)

-- the fill of an order, and where it leaves the account
abbrev pub IsFilledAs : ProposedOrder → PortfolioState → BacktestConfig → RiskDecision → Type 0
IsFilledAs o s config d =
    (f : FillRecord) × (fill_from_approved_order o s.cash s.shares config ≡ ok f)
    × (f.cash_after ≡ d.projected_cash)
    × (f.shares_after ≡ d.projected_shares)

module _ (o : ProposedOrder) (s : PortfolioState) (risk : RiskConfig) (config : BacktestConfig)
    (cr sr : Decimal) {d : RiskDecision} (approved : IsApproved o s risk cr sr d)
    (admitted : IsAdmitted s risk) (sequence : pos 1 ≤ℤ o.sequence_number) where
  -- where the estimate leaves the account
  change_agrees :
      (p : Decimal)
      → slipped_price o.side o.reference_open sr ≡ ok p
      → let e = order_figures o.side o.quantity o.reference_open p cr in
        (Decimal.add s.cash e.cash_change ≡ d.projected_cash)
        × (shares_after_order o s.shares ≡ d.projected_shares)
  unfolding slipped_price costing execution_price_of
  change_agrees p h = elim approved.by_side [
    | inl b ↦
        let buying : str_eq o.side buy_side ≡ true = (eq_iff o.side buy_side).1 b.side in
        let priced : p ≡ Decimal.mul o.reference_open (Decimal.add one_decimal sr) = ground arith in
        let n = Decimal.mul (Decimal.from_int o.quantity) p in
        (
          rw buying (
              add-negate-add s.cash n (Decimal.mul n cr)
              ∙ ap
                  (λ (x : Decimal). Decimal.sub s.cash (
                    Decimal.add (Decimal.mul (Decimal.from_int o.quantity) x)
                      (Decimal.mul (Decimal.mul (Decimal.from_int o.quantity) x) cr)))
                  priced
              ∙ sym b.affordable.1),
          rw buying (
              eq_of_parts (s.shares +ℤ o.quantity) o.quantity
                (omega (int_laws, ap pos_part b.flat, ap neg_part b.flat))
              ∙ sym b.shares),
        )
    | inr b ↦
        let selling : str_eq o.side buy_side ≡ false =
          ap (λ (x : String). str_eq x buy_side) b.side in
        let priced : p ≡ Decimal.mul o.reference_open (Decimal.sub one_decimal sr) = ground arith in
        (
          rw selling (
              ap
                (λ (x : Decimal). Decimal.add s.cash (
                  Decimal.sub (Decimal.mul (Decimal.from_int o.quantity) x)
                    (Decimal.mul (Decimal.mul (Decimal.from_int o.quantity) x) cr)))
                priced
              ∙ sym b.cash),
          rw selling (
              eq_of_parts (s.shares -ℤ o.quantity) (pos 0)
                (omega (int_laws, ap pos_part b.full_exit, ap neg_part b.full_exit))
              ∙ sym b.shares),
        )
  ]

  filled_as :
      (p : Decimal)
      → slipped_price o.side o.reference_open sr ≡ ok p
      → let e = order_figures o.side o.quantity o.reference_open p cr in
        estimate_order_cost o.side o.quantity o.reference_open config.cost_assumptions ≡ ok e
        → make_order_cost_estimate e ≡ ok e
        → IsFilledAs o s config d
  filled_as p slipped estimated made =
      let e = order_figures o.side o.quantity o.reference_open p cr in
      let (cash, shares) = change_agrees p slipped in
      let w = approved.well_formed in
      let fine =
        fill_of-IsMade o s.cash s.shares e made (refl, refl, refl) sequence w.symbol
          (ground (arith, w.later)) admitted.cash admitted.shares
          (subst (λ (n : ℤ). pos 0 ≤ℤ n) (sym shares) approved.figures.shares)
          (subst (λ (c : Decimal). is_negative c ≡ false) (sym cash) approved.figures.cash) in
      (fill_of o s.cash s.shares e, unfold fill_from_approved_order in ground arith, cash, shares)

  -- slippage does not take the price of an approved sale
  price_kept :
      o.side ≡ sell_side
      → le (Decimal.mul o.reference_open (Decimal.sub one_decimal sr)) zero_decimal ≡ true
      → ⊥
  unfolding costing execution_price_of
  price_kept selling lost = elim approved.by_side [
    | inl b ↦ cc (ap (λ (x : String). str_eq x buy_side) (sym selling ∙ b.side))
    | inr b ↦ ground (arith, b.price)
  ]

-- An order that the risk rules approve on a portfolio is always filled by the engine from that
-- portfolio's cash and shares, and the fill leaves the very cash and shares that the decision
-- projected: no check of the estimate or of the fill refuses it, and rounding makes no difference
-- between the two computations.
pub fill_from_approved_order-agrees :
    (o : ProposedOrder) (s : PortfolioState) (risk : RiskConfig) (config : BacktestConfig)
    {d : RiskDecision}
    → evaluate_order_risk o s risk config.cost_assumptions ≡ ok d
    → d.approved ≡ true
    → IsFilledAs o s config d
fill_from_approved_order-agrees o s risk config {d} h agreed =
    let costs = config.cost_assumptions in
    let (t, c, _, _, et, ec, _, _, _) = evaluate-eq-ok o s risk costs h in
    let (cr, sr, er, es, approved) = evaluate_order_risk_sound o s risk costs h agreed in
    let (commission, from_commission) =
      cost_rate-eq-ok costs.commission_bps_per_side "negative_commission_bps_per_side" er in
    let (slippage, from_slippage) =
      cost_rate-eq-ok costs.slippage_bps_per_side "negative_slippage_bps_per_side" es in
    let w = approved.well_formed in
    let sequence =
      subst (λ (n : ℤ). pos 1 ≤ℤ n) (evaluate-sequence o s risk costs h)
        approved.figures.sequence_number in
    let asked : IsAsked o.side o.quantity o.reference_open costs = record {
      side_known = w.side;
      quantity_positive = ground (arith, w.quantity);
      reference_positive = w.open_price;
      commission = commission;
      slippage = slippage;
    } in
    let (s', r', fs, fr, outcome) =
      estimate_order_cost-Returns o.side o.quantity o.reference_open costs asked in
    let gs : slippage_rate costs ≡ ok sr = unfold slippage_rate in from_slippage in
    let gr : commission_rate costs ≡ ok cr = unfold commission_rate in from_commission in
    let same_s = ok-injective (slippage_rate costs) fs gs in
    let same_r = ok-injective (commission_rate costs) fr gr in
    let admitted = admitted_lem s risk et ec in
    elim outcome [
      | inr (selling, lost, _) ↦ absurd (
          price_kept o s risk config cr sr approved admitted sequence selling (
            subst
              (λ (x : Decimal).
                le (Decimal.mul o.reference_open (Decimal.sub one_decimal x)) zero_decimal ≡ true)
              same_s lost))
      | inl (p, slipped, _, estimated) ↦
          let estimated' =
            subst
              (λ (x : Decimal).
                estimate_order_cost o.side o.quantity o.reference_open costs
                ≡ ok (order_figures o.side o.quantity o.reference_open p x))
              same_r estimated in
          filled_as o s risk config cr sr approved admitted sequence p
            (subst (λ (x : Decimal). slipped_price o.side o.reference_open x ≡ ok p) same_s slipped)
            estimated'
            (estimate_order_cost-eq-ok o.side o.quantity o.reference_open costs estimated').checked
    ]
