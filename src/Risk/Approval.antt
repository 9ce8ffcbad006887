-- ===== src/Risk/Approval.antt =====
-- What an approval of `evaluate_order_risk` means, on both sides, and what a rejection leaves.
use spy_market_agent.Prelude.{
  some, ◌≡◌, refl, ap, subst, ◌⊎◌, inl, inr, true, false, List, [], ◌∷◌, arith, ok, eq_iff, str_eq,
  Bool-cases, Option-cases, Result-cases, ◌∙◌,
}
use spy_market_agent.Prelude.Int.{pos, ◌≤ℤ◌, int_laws, pos_part, neg_part}
use spy_market_agent.Decimal
use spy_market_agent.Decimal.{Decimal, zero_decimal, one_decimal}
use spy_market_agent.Risk.Models.{
  ReasonCode, is_negative, RiskConfig, PortfolioState, buy_side, sell_side,
}
use spy_market_agent.Risk.Orders.{ProposedOrder, RiskDecision}
use spy_market_agent.Risk.Rules.{
  CostAssumptions, Costing, costing, cost_rate_from_assumptions, preliminary_reasons,
  decide_preliminary, buy_reasons, sell_reasons, weight_reasons, buy_projection, sell_projection,
  evaluate_projection, evaluate_order_risk, quotient, Projection,
}
use spy_market_agent.Risk.Decisions.{FiguresAreSound, conclude-approved, unchanged_projection-eq-ok}
use spy_market_agent.Risk.Inversion.{
  IsAdmitted, admitted_lem, evaluate-eq-ok, make_portfolio_state-eq-ok, make_risk_config-eq-ok,
  IsWellFormed, preliminary_reasons-nil,
}

-- An approved buy: from cash only, out of cash, at most the whole equity.
pub record IsApprovedBuy (o : ProposedOrder) (s : PortfolioState) (c : RiskConfig) (cr sr : Decimal)
    (d : RiskDecision) : Type 0 where
  pub side : o.side ≡ buy_side
  pub target : o.target_position ≡ pos 1
  pub flat : s.shares ≡ pos 0
  pub affordable :
      let k = costing true o.quantity o.reference_open cr sr in
      (Decimal.lt s.cash (Decimal.add k.execution_notional k.commission) ≡ false)
      × (d.projected_cash ≡ Decimal.sub s.cash (Decimal.add k.execution_notional k.commission))
  pub shares : d.projected_shares ≡ o.quantity
  pub solvent : Decimal.le d.projected_equity zero_decimal ≡ false
  pub weight :
      (w : Decimal) × (Decimal.divide d.projected_market_value d.projected_equity ≡ some w)
      × (Decimal.lt c.maximum_position_weight w ≡ false)

-- An approved sell: the whole position, at a positive price.
pub record IsApprovedSell (o : ProposedOrder) (s : PortfolioState) (cr sr : Decimal)
    (d : RiskDecision) : Type 0 where
  pub side : o.side ≡ sell_side
  pub target : o.target_position ≡ pos 0
  pub full_exit : o.quantity ≡ s.shares
  pub price :
      Decimal.le (costing false o.quantity o.reference_open cr sr).execution_price zero_decimal
      ≡ false
  pub shares : d.projected_shares ≡ pos 0
  pub cash :
      let k = costing false o.quantity o.reference_open cr sr in
      d.projected_cash ≡ Decimal.add s.cash (Decimal.sub k.execution_notional k.commission)

pub weight_reasons-nil :
    (c : RiskConfig) (p : Projection)
    → weight_reasons c p ≡ ok []
    → (Decimal.le p.equity zero_decimal ≡ false)
      × ((w : Decimal) × (Decimal.divide p.market_value p.equity ≡ some w)
          × (Decimal.lt c.maximum_position_weight w ≡ false))
unfolding weight_reasons quotient
weight_reasons-nil c p h = elim (Option-cases (Decimal.divide p.market_value p.equity)) [
  | inl e ↦ ground arith
  | inr (w, e) ↦ (ground arith, (w, e, ground arith))
]

pub buy_reasons-nil :
    (o : ProposedOrder) (s : PortfolioState) (c : RiskConfig) (k : Costing) (p : Projection)
    → buy_reasons o s c k p ≡ ok []
    → (weight_reasons c p ≡ ok [])
      × (o.target_position ≡ pos 1)
      × (s.shares ≤ℤ pos 0)
      × (Decimal.lt s.cash (Decimal.add k.execution_notional k.commission) ≡ false)
      × (is_negative p.cash ≡ false)
unfolding buy_reasons
buy_reasons-nil o s c k p h = ground arith

pub sell_reasons-nil :
    (o : ProposedOrder) (s : PortfolioState) (k : Costing) (p : Projection)
    → sell_reasons o s k p ≡ []
    → (o.target_position ≡ pos 0)
      × (o.quantity ≡ s.shares)
      × (Decimal.le k.execution_price zero_decimal ≡ false)
unfolding sell_reasons
sell_reasons-nil o s k p h = ground arith

-- what the shares and the cash would be after the order
abbrev pub bought : ProposedOrder → PortfolioState → Decimal → Decimal → Projection
bought o s cr sr =
    buy_projection s o.quantity o.reference_open (costing true o.quantity o.reference_open cr sr)

abbrev pub sold : ProposedOrder → PortfolioState → Decimal → Decimal → Projection
sold o s cr sr =
    sell_projection s o.quantity o.reference_open (costing false o.quantity o.reference_open cr sr)

module _ (o : ProposedOrder) (s : PortfolioState) (c : RiskConfig) (cr sr : Decimal)
    {d : RiskDecision} (admitted : IsAdmitted s c) (agreed : d.approved ≡ true) where
  buy_approved :
      str_eq o.side buy_side ≡ true
      → evaluate_projection o s c cr sr ≡ ok d
      → FiguresAreSound d × IsApprovedBuy o s c cr sr d
  unfolding evaluate_projection buy_projection
  buy_approved buying h =
      let k = costing true o.quantity o.reference_open cr sr in
      elim (Result-cases (buy_reasons o s c k (bought o s cr sr))) [
        | inl (codes, e) ↦
            let end =
              conclude-approved o s (bought o s cr sr) codes {d = d} (ground arith) agreed in
            let facts = buy_reasons-nil o s c k (bought o s cr sr) (e ∙ ap ok end.0) in
            let weighed = weight_reasons-nil c (bought o s cr sr) facts.0 in
            (
              subst FiguresAreSound end.1 end.2,
              subst (IsApprovedBuy o s c cr sr) end.1 (record {
                side = (eq_iff o.side buy_side).0 buying;
                target = facts.1;
                flat = omega int_laws;
                affordable = (facts.3, refl);
                shares = omega int_laws;
                solvent = weighed.0;
                weight = weighed.1;
              }),
            )
        | inr (x, e) ↦ ground arith
      ]

  sell_approved :
      str_eq o.side buy_side ≡ false
      → IsWellFormed o s cr sr
      → evaluate_projection o s c cr sr ≡ ok d
      → FiguresAreSound d × IsApprovedSell o s cr sr d
  unfolding evaluate_projection sell_projection
  sell_approved selling w h =
      let k = costing false o.quantity o.reference_open cr sr in
      let codes = sell_reasons o s k (sold o s cr sr) in
      let end = conclude-approved o s (sold o s cr sr) codes {d = d} (ground arith) agreed in
      let facts = sell_reasons-nil o s k (sold o s cr sr) end.0 in
      (
        subst FiguresAreSound end.1 end.2,
        subst (IsApprovedSell o s cr sr) end.1 (record {
          side = ground (arith, w.side, eq_iff o.side sell_side);
          target = facts.0;
          full_exit = facts.1;
          price = facts.2;
          shares = omega (int_laws, ap pos_part facts.1, ap neg_part facts.1);
          cash = refl;
        }),
      )

-- what holds of every order that is approved
pub record IsApproved (o : ProposedOrder) (s : PortfolioState) (c : RiskConfig) (cr sr : Decimal)
    (d : RiskDecision) : Type 0 where
  pub well_formed : IsWellFormed o s cr sr
  pub figures : FiguresAreSound d
  pub by_side : IsApprovedBuy o s c cr sr d ⊎ IsApprovedSell o s cr sr d

preliminary_passed :
    (o : ProposedOrder) (s : PortfolioState) (c : RiskConfig) (cr sr : Decimal)
    (codes : List ReasonCode) {d : RiskDecision}
    → decide_preliminary o s c cr sr codes ≡ ok d
    → d.approved ≡ true
    → (codes ≡ []) × (evaluate_projection o s c cr sr ≡ ok d)
unfolding decide_preliminary
preliminary_passed o s c cr sr [] h a = (refl, h)
preliminary_passed o s c cr sr (x ∷ xs) h a =
    cc (ap (λ (r : RiskDecision). r.approved) (unchanged_projection-eq-ok o s (x ∷ xs) h).0)

decided_approved :
    (o : ProposedOrder) (s : PortfolioState) (c : RiskConfig) (cr sr : Decimal) {d : RiskDecision}
    → IsAdmitted s c
    → decide_preliminary o s c cr sr (preliminary_reasons o s c cr sr) ≡ ok d
    → d.approved ≡ true
    → IsApproved o s c cr sr d
decided_approved o s c cr sr admitted h a =
    let passed = preliminary_passed o s c cr sr (preliminary_reasons o s c cr sr) h a in
    let w = preliminary_reasons-nil o s c cr sr passed.0 in
    elim (Bool-cases (str_eq o.side buy_side)) [
      | inl buying ↦
          let (f, b) = buy_approved o s c cr sr admitted a buying passed.1 in
          record { well_formed = w; figures = f; by_side = inl b }
      | inr selling ↦
          let (f, b) = sell_approved o s c cr sr admitted a selling w passed.1 in
          record { well_formed = w; figures = f; by_side = inr b }
    ]

-- An order that `evaluate_order_risk` approves is for SPY, in whole shares, fills after its signal,
-- and carries the very costs that the rules compute; a buy starts from no shares, is paid out of
-- cash, and weighs at most the configured share of the projected equity; a sell gives up exactly
-- the position held; and the figures projected are non-negative and add up.
pub evaluate_order_risk_sound :
    (o : ProposedOrder) (s : PortfolioState) (config : RiskConfig) (costs : CostAssumptions)
    {d : RiskDecision}
    → evaluate_order_risk o s config costs ≡ ok d
    → d.approved ≡ true
    → (cr : Decimal) × (sr : Decimal) × (cost_rate_from_assumptions costs.commission_bps_per_side
          "negative_commission_bps_per_side"
        ≡ ok cr)
      × (cost_rate_from_assumptions costs.slippage_bps_per_side "negative_slippage_bps_per_side"
          ≡ ok sr)
      × IsApproved o s config cr sr d
evaluate_order_risk_sound o s config costs {d} h a =
    let (t, c, cr, sr, et, ec, er, es, rest) = evaluate-eq-ok o s config costs h in
    let same_s = make_portfolio_state-eq-ok s et in
    let same_c = make_risk_config-eq-ok config ec in
    (
      cr,
      sr,
      er,
      es,
      decided_approved o s config cr sr (admitted_lem s config et ec) (rw (same_s, same_c) rest) a,
    )
