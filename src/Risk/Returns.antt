-- ===== src/Risk/Returns.antt =====
-- `evaluate_order_risk` returns a decision for every order against a consistent portfolio.
use spy_market_agent.Prelude.{
  String, ◌≡◌, refl, ap, ◌∙◌, inl, inr, true, false, List, [], ◌∷◌, arith, ok, Result, str_eq,
  Bool-cases,
}
use spy_market_agent.Prelude.Int.{ℤ, pos, ◌≤ℤ◌, ◌<ℤ◌, ◌+ℤ◌, ◌-ℤ◌, int_laws, pos_part, neg_part}
use spy_market_agent.Decimal
use spy_market_agent.Decimal.{Decimal, from_int, zero_decimal}
use spy_market_agent.Decimal.Order.{eq_refl_lem}
use spy_market_agent.Decimal.Sign.{
  IsNonNeg, IsNonNeg-lt_zero, lt_zero-IsNonNeg, positive-IsNonNeg, mul-IsNonNeg, add-IsNonNeg,
  divide-some,
}
use spy_market_agent.Risk.Models.{
  ReasonCode, approved_reason, leverage_forbidden, maximum_position_exceeded, require_decimal,
  same_code, has_code, is_negative, is_positive, RiskConfig, make_risk_config, PortfolioState,
  make_portfolio_state, buy_side, require_positive_int,
}
use spy_market_agent.Risk.Orders.{ProposedOrder, make_risk_decision}
use spy_market_agent.Risk.Rules.{
  CostAssumptions, Costing, costing, cost_rate_from_assumptions, quotient, flag, from_keys,
  preliminary_reasons, decide_preliminary, buy_reasons, buy_codes, sell_reasons, weight_reasons,
  buy_projection, sell_projection, Projection, conclude, unchanged_projection, evaluate_projection,
  evaluate_order_risk, revalidated, basis_points_divisor,
}
use spy_market_agent.Risk.Decisions.{approval, rejection, from_keys-distinct, from_keys-lacks}
use spy_market_agent.Risk.Inversion.{
  IsAdmitted, admitted_lem, IsWellFormed, preliminary_reasons-nil,
}
use spy_market_agent.Risk.Approval.{bought, sold, sell_reasons-nil, buy_reasons-nil}

-- no code of an approval among the reasons
abbrev Lacks : List ReasonCode → Type 0
Lacks cs = has_code approved_reason cs ≡ false

preliminary-Lacks :
    (o : ProposedOrder) (s : PortfolioState) (c : RiskConfig) (cr sr : Decimal)
    → Lacks (preliminary_reasons o s c cr sr)
unfolding preliminary_reasons same_code has_code
preliminary-Lacks o s c cr sr = ground arith

sell-Lacks :
    (o : ProposedOrder) (s : PortfolioState) (k : Costing) (p : Projection)
    → Lacks (sell_reasons o s k p)
unfolding sell_reasons same_code has_code
sell-Lacks o s k p = ground arith

buy-Lacks :
    (o : ProposedOrder) (s : PortfolioState) (c : RiskConfig) (k : Costing) (p : Projection)
    {codes : List ReasonCode}
    → buy_reasons o s c k p ≡ ok codes
    → Lacks codes
unfolding buy_reasons weight_reasons quotient same_code has_code
buy-Lacks o s c k p h = ground arith

-- a decision comes back
abbrev pub Returns : {A : Type 0} → Result A → Type 0
Returns {A} r = (a : A) × (r ≡ ok a)

rejection-Returns :
    (o : ProposedOrder) (s : PortfolioState) (c : RiskConfig) (x : ReasonCode)
    (xs : List ReasonCode)
    → IsAdmitted s c
    → pos 0 <ℤ o.sequence_number
    → Lacks (x ∷ xs)
    → unchanged_projection o.sequence_number o.execution_session s (x ∷ xs)
      ≡ ok (rejection o s (x ∷ xs))
unfolding unchanged_projection make_risk_decision from_keys
rejection-Returns o s c x xs a n h =
    ground (arith, from_keys-distinct (x ∷ xs), from_keys-lacks approved_reason (x ∷ xs) h)

approval-Returns :
    (o : ProposedOrder) (p : Projection)
    → pos 0 <ℤ o.sequence_number
    → is_negative p.cash ≡ false
    → pos 0 ≤ℤ p.shares
    → is_negative p.market_value ≡ false
    → is_negative p.equity ≡ false
    → Decimal.eq p.equity (Decimal.add p.cash p.market_value) ≡ true
    → make_risk_decision (approval o p) ≡ ok (approval o p)
unfolding make_risk_decision has_code
approval-Returns o p n a b c d e = ground arith

cost_rate-Returns :
    (bps : Decimal) (code : String)
    → is_negative bps ≡ false
    → Returns (cost_rate_from_assumptions bps code)
unfolding cost_rate_from_assumptions require_decimal quotient Decimal.le Decimal.lt
cost_rate-Returns bps code h =
    let (q, e) = divide-some bps basis_points_divisor refl in (q, ground arith)

conclude-Returns :
    (o : ProposedOrder) (s : PortfolioState) (c : RiskConfig) (p : Projection)
    (codes : List ReasonCode)
    → IsAdmitted s c
    → pos 0 <ℤ o.sequence_number
    → Lacks codes
    → (codes ≡ [] → make_risk_decision (approval o p) ≡ ok (approval o p))
    → Returns (conclude o s p codes)
unfolding conclude
conclude-Returns o s c p [] a n h k = (approval o p, k refl)
conclude-Returns o s c p (x ∷ xs) a n h k =
    (rejection o s (x ∷ xs), rejection-Returns o s c x xs a n h)

weight_reasons-Returns : (c : RiskConfig) (p : Projection) → Returns (weight_reasons c p)
weight_reasons-Returns c p = elim (Bool-cases (Decimal.le p.equity zero_decimal)) [
  | inl broke ↦ (leverage_forbidden ∷ [], unfold weight_reasons in rw broke)
  | inr solvent ↦
      let (q, e) = divide-some p.market_value p.equity solvent in
      (
        flag (Decimal.lt c.maximum_position_weight q) maximum_position_exceeded [],
        unfold weight_reasons quotient in ground arith,
      )
]

buy_reasons-Returns :
    (o : ProposedOrder) (s : PortfolioState) (c : RiskConfig) (k : Costing) (p : Projection)
    → Returns (buy_reasons o s c k p)
buy_reasons-Returns o s c k p =
    let (w, e) = weight_reasons-Returns c p in
    (buy_codes o s k p w, unfold buy_reasons in ground arith)

-- the position that the shares are worth is not negative
pub holding_nonneg :
    (n : ℤ) (price : Decimal)
    → pos 0 ≤ℤ n
    → is_positive price ≡ true
    → IsNonNeg (Decimal.mul (from_int n) price)
holding_nonneg n price h p =
    mul-IsNonNeg (from_int n) price (ground arith) (positive-IsNonNeg price p)

-- the figures of a projection with non-negative cash and shares pass the decision's checks
projection-Returns :
    (o : ProposedOrder) (cash : Decimal) (shares held : ℤ) (price : Decimal)
    → pos 0 <ℤ o.sequence_number
    → is_negative cash ≡ false
    → pos 0 ≤ℤ shares
    → pos 0 ≤ℤ held
    → is_positive price ≡ true
    → let value = Decimal.mul (from_int held) price in
      let p : Projection = record {
        cash = cash;
        shares = shares;
        market_value = value;
        equity = Decimal.add cash value;
      } in
      make_risk_decision (approval o p) ≡ ok (approval o p)
projection-Returns o cash shares held price n c h k p =
    let value = Decimal.mul (from_int held) price in
    let worth = holding_nonneg held price k p in
    approval-Returns o
      (record {
        cash = cash;
        shares = shares;
        market_value = value;
        equity = Decimal.add cash value;
      })
      n c h (IsNonNeg-lt_zero value worth)
      (IsNonNeg-lt_zero (Decimal.add cash value)
        (add-IsNonNeg cash value (lt_zero-IsNonNeg cash c) worth))
      (eq_refl_lem (Decimal.add cash value))

module _ (o : ProposedOrder) (s : PortfolioState) (c : RiskConfig) (cr sr : Decimal)
    (a : IsAdmitted s c) (n : pos 0 <ℤ o.sequence_number) (w : IsWellFormed o s cr sr) where
  buy_made :
      buy_reasons o s c (costing true o.quantity o.reference_open cr sr) (bought o s cr sr) ≡ ok []
      → make_risk_decision (approval o (bought o s cr sr)) ≡ ok (approval o (bought o s cr sr))
  unfolding buy_projection
  buy_made h =
      let k = costing true o.quantity o.reference_open cr sr in
      let facts = buy_reasons-nil o s c k (bought o s cr sr) h in
      let shares = s.shares +ℤ o.quantity in
      let held : pos 0 ≤ℤ shares = omega (int_laws, a.shares, w.quantity) in
      projection-Returns o (bought o s cr sr).cash shares shares o.reference_open n facts.4 held
        held w.open_price

  sell_made :
      sell_reasons o s (costing false o.quantity o.reference_open cr sr) (sold o s cr sr) ≡ []
      → is_negative (sold o s cr sr).cash ≡ false
      → make_risk_decision (approval o (sold o s cr sr)) ≡ ok (approval o (sold o s cr sr))
  unfolding sell_projection
  sell_made h covered =
      let k = costing false o.quantity o.reference_open cr sr in
      let facts = sell_reasons-nil o s k (sold o s cr sr) h in
      let shares = s.shares -ℤ o.quantity in
      let left : pos 0 ≤ℤ shares = omega (int_laws, ap pos_part facts.1, ap neg_part facts.1) in
      projection-Returns o (sold o s cr sr).cash shares (pos (pos_part shares)) o.reference_open n
        covered left (omega arith) w.open_price

  buy-Returns : str_eq o.side buy_side ≡ true → Returns (evaluate_projection o s c cr sr)
  buy-Returns buying =
      let k = costing true o.quantity o.reference_open cr sr in
      let p = bought o s cr sr in
      let (codes, e) = buy_reasons-Returns o s c k p in
      let (d, end) =
        conclude-Returns o s c p codes a n (buy-Lacks o s c k p e)
          (λ nil. buy_made (e ∙ ap ok nil)) in
      (d, unfold evaluate_projection in ground arith)

  sell-Returns :
      str_eq o.side buy_side ≡ false
      → is_negative (sold o s cr sr).cash ≡ false
      → Returns (evaluate_projection o s c cr sr)
  sell-Returns selling covered =
      let k = costing false o.quantity o.reference_open cr sr in
      let p = sold o s cr sr in
      let (d, end) =
        conclude-Returns o s c p (sell_reasons o s k p) a n (sell-Lacks o s k p)
          (λ nil. sell_made nil covered) in
      (d, unfold evaluate_projection in ground arith)

decide-Returns :
    (o : ProposedOrder) (s : PortfolioState) (c : RiskConfig) (cr sr : Decimal)
    (codes : List ReasonCode)
    → IsAdmitted s c
    → pos 0 <ℤ o.sequence_number
    → Lacks codes
    → (codes ≡ [] → Returns (evaluate_projection o s c cr sr))
    → Returns (decide_preliminary o s c cr sr codes)
unfolding decide_preliminary
decide-Returns o s c cr sr [] a n h k = k refl
decide-Returns o s c cr sr (x ∷ xs) a n h k =
    (rejection o s (x ∷ xs), rejection-Returns o s c x xs a n h)

-- the cash after a sell, at the rates that the assumptions give
pub record CoversExit (o : ProposedOrder) (s : PortfolioState) (costs : CostAssumptions)
    : Type 0 where
  pub at :
      (cr sr : Decimal)
      → cost_rate_from_assumptions costs.commission_bps_per_side "negative_commission_bps_per_side"
        ≡ ok cr
      → cost_rate_from_assumptions costs.slippage_bps_per_side "negative_slippage_bps_per_side"
        ≡ ok sr
      → str_eq o.side buy_side ≡ false
      → is_negative (sold o s cr sr).cash ≡ false

-- Against a portfolio and a configuration that pass their own validation, with cost assumptions
-- that are not negative and a positive sequence number, `evaluate_order_risk` never raises: it
-- returns a decision for every order, however malformed, provided that a sell does not owe more
-- commission than the cash and the proceeds together.
pub evaluate_order_risk-Returns :
    (o : ProposedOrder) (s : PortfolioState) (config : RiskConfig) (costs : CostAssumptions)
    → make_portfolio_state s ≡ ok s
    → make_risk_config config ≡ ok config
    → is_negative costs.commission_bps_per_side ≡ false
    → is_negative costs.slippage_bps_per_side ≡ false
    → pos 0 <ℤ o.sequence_number
    → CoversExit o s costs
    → Returns (evaluate_order_risk o s config costs)
evaluate_order_risk-Returns o s config costs es ec hc hs n exit =
    let a = admitted_lem s config es ec in
    let (cr, er) =
      cost_rate-Returns costs.commission_bps_per_side "negative_commission_bps_per_side" hc in
    let (sr, et) =
      cost_rate-Returns costs.slippage_bps_per_side "negative_slippage_bps_per_side" hs in
    let codes = preliminary_reasons o s config cr sr in
    let (d, e) =
      decide-Returns o s config cr sr codes a n (preliminary-Lacks o s config cr sr)
        (λ nil. projected cr sr er et a (preliminary_reasons-nil o s config cr sr nil)) in
    (d, unfold evaluate_order_risk revalidated require_positive_int in ground arith)
  where
    projected :
        (cr sr : Decimal)
        → cost_rate_from_assumptions costs.commission_bps_per_side
            "negative_commission_bps_per_side"
          ≡ ok cr
        → cost_rate_from_assumptions costs.slippage_bps_per_side "negative_slippage_bps_per_side"
          ≡ ok sr
        → IsAdmitted s config
        → IsWellFormed o s cr sr
        → Returns (evaluate_projection o s config cr sr)
    projected cr sr er et a w = elim (Bool-cases (str_eq o.side buy_side)) [
      | inl buying ↦ buy-Returns o s config cr sr a n w buying
      | inr selling ↦ sell-Returns o s config cr sr a n w selling (exit.at cr sr er et selling)
    ]
