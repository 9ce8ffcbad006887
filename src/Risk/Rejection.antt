-- ===== src/Risk/Rejection.antt =====
-- What a rejection of `evaluate_order_risk` leaves, on every branch that rejects.
use spy_market_agent.Prelude.{
  ◌≡◌, ◌≢◌, refl, sym, ap, subst, inl, inr, true, false, List, [], ◌∷◌, arith, ok, str_eq,
  Bool-cases, Result-cases,
}
use spy_market_agent.Decimal.{Decimal}
use spy_market_agent.Risk.Models.{ReasonCode, has_duplicates, RiskConfig, PortfolioState, buy_side}
use spy_market_agent.Risk.Orders.{ProposedOrder, RiskDecision}
use spy_market_agent.Risk.Rules.{
  CostAssumptions, Projection, costing, from_keys, preliminary_reasons, decide_preliminary,
  buy_reasons, sell_reasons, conclude, unchanged_projection, evaluate_projection,
  evaluate_order_risk,
}
use spy_market_agent.Risk.Decisions.{approval, make_risk_decision-eq-ok, unchanged_projection-eq-ok}
use spy_market_agent.Risk.Inversion.{evaluate-eq-ok, make_portfolio_state-eq-ok}
use spy_market_agent.Risk.Approval.{bought, sold}

-- the portfolio as it stands, and at least one reason, none twice
pub record IsRejection (o : ProposedOrder) (s : PortfolioState) (d : RiskDecision) : Type 0 where
  pub cash : d.projected_cash ≡ s.cash
  pub shares : d.projected_shares ≡ s.shares
  pub market_value : d.projected_market_value ≡ s.market_value
  pub equity : d.projected_equity ≡ s.equity
  pub session : d.evaluated_session ≡ o.execution_session
  pub reasons : d.reason_codes ≢ []
  pub distinct : has_duplicates d.reason_codes ≡ false

unchanged_rejects :
    (o : ProposedOrder) (s : PortfolioState) (x : ReasonCode) (xs : List ReasonCode)
    {d : RiskDecision}
    → unchanged_projection o.sequence_number o.execution_session s (x ∷ xs) ≡ ok d
    → IsRejection o s d
unfolding from_keys
unchanged_rejects o s x xs h =
    let (e, sound) = unchanged_projection-eq-ok o s (x ∷ xs) h in
    subst (IsRejection o s) e (record {
      cash = refl;
      shares = refl;
      market_value = refl;
      equity = refl;
      session = refl;
      reasons = λ p. cc;
      distinct = sound.distinct;
    })

conclude_rejects :
    (o : ProposedOrder) (s : PortfolioState) (p : Projection) (codes : List ReasonCode)
    {d : RiskDecision}
    → conclude o s p codes ≡ ok d
    → d.approved ≡ false
    → IsRejection o s d
unfolding conclude
conclude_rejects o s p [] h n =
    cc (ap (λ (r : RiskDecision). r.approved) (make_risk_decision-eq-ok (approval o p) h).0)
conclude_rejects o s p (x ∷ xs) h n = unchanged_rejects o s x xs h

projection_rejects :
    (o : ProposedOrder) (s : PortfolioState) (c : RiskConfig) (cr sr : Decimal) {d : RiskDecision}
    → evaluate_projection o s c cr sr ≡ ok d
    → d.approved ≡ false
    → IsRejection o s d
projection_rejects o s c cr sr {d} h n =
    let k = costing true o.quantity o.reference_open cr sr in
    elim (Bool-cases (str_eq o.side buy_side)) [
      | inl buying ↦ elim (Result-cases (buy_reasons o s c k (bought o s cr sr))) [
        | inl (codes, e) ↦
            conclude_rejects o s (bought o s cr sr) codes
              (unfold evaluate_projection in ground arith) n
        | inr (x, e) ↦ unfold evaluate_projection in ground arith
      ]
      | inr selling ↦
          conclude_rejects o s (sold o s cr sr)
            (sell_reasons o s (costing false o.quantity o.reference_open cr sr) (sold o s cr sr))
            (unfold evaluate_projection in ground arith) n
    ]

decide_rejects :
    (o : ProposedOrder) (s : PortfolioState) (c : RiskConfig) (cr sr : Decimal)
    (codes : List ReasonCode) {d : RiskDecision}
    → decide_preliminary o s c cr sr codes ≡ ok d
    → d.approved ≡ false
    → IsRejection o s d
unfolding decide_preliminary
decide_rejects o s c cr sr [] h n = projection_rejects o s c cr sr h n
decide_rejects o s c cr sr (x ∷ xs) h n = unchanged_rejects o s x xs h

-- Whatever rejects an order, the decision projects the given cash, shares, value and equity
-- unchanged for the execution session, and names at least one reason code, none of them twice.
pub evaluate_order_risk_rejects :
    (o : ProposedOrder) (s : PortfolioState) (config : RiskConfig) (costs : CostAssumptions)
    {d : RiskDecision}
    → evaluate_order_risk o s config costs ≡ ok d
    → d.approved ≡ false
    → IsRejection o s d
evaluate_order_risk_rejects o s config costs {d} h n =
    let (t, c, cr, sr, et, ec, er, es, rest) = evaluate-eq-ok o s config costs h in
    subst (λ (v : PortfolioState). IsRejection o v d) (sym (make_portfolio_state-eq-ok s et))
      (decide_rejects o t c cr sr (preliminary_reasons o t c cr sr) rest n)
