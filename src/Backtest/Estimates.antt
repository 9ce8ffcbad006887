-- ===== src/Backtest/Estimates.antt =====
-- `estimate_order_cost` of backtesting/costs.py always passes the checks of its own record.
use spy_market_agent.Prelude.{
  ◌⊎◌, eq_iff, String, ◌≡◌, refl, inl, inr, true, false, arith, ok, err, str_eq, Bool-cases,
  backtest_accounting,
}
use spy_market_agent.Prelude.Int.{ℤ, pos, ◌≤ℤ◌}
use spy_market_agent.Decimal
use spy_market_agent.Decimal.{Decimal, from_int, zero_decimal, one_decimal, lt, le}
use spy_market_agent.Decimal.Order.{eq_refl_lem}
use spy_market_agent.Decimal.Sign.{
  IsNonNeg, IsNonNeg-lt_zero, lt_zero-IsNonNeg, positive-IsNonNeg, mul-IsNonNeg, add-IsNonNeg,
  divide-some,
}
use spy_market_agent.Decimal.Positive.{
  positive-IsPos, IsPos-positive, mul-IsPos, add-IsPos, absolute-IsNonNeg, divide-IsNonNeg,
}
use spy_market_agent.Risk.Models.{buy_side, sell_side, is_negative, is_positive}
use spy_market_agent.Risk.Orders.{is_order_side}
use spy_market_agent.Risk.Rules.{CostAssumptions, quotient, basis_points_divisor}
use spy_market_agent.Backtest.Models.{make_cost_assumptions, commission_rate, slippage_rate}
use spy_market_agent.Backtest.Costs.{
  make_order_cost_estimate, slipped_price, order_figures, estimate_order_cost,
}

pub rate-Returns :
    (bps : Decimal)
    → is_negative bps ≡ false
    → (r : Decimal) × (quotient bps basis_points_divisor ≡ ok r) × IsNonNeg r
rate-Returns bps h =
    let (r, e) = divide-some bps basis_points_divisor (unfold le lt in refl) in
    (
      r,
      (unfold quotient in ground arith),
      divide-IsNonNeg bps basis_points_divisor (lt_zero-IsNonNeg bps h) refl e,
    )

-- costs that are not negative, and what the estimate is asked for
pub record IsAsked (side : String) (quantity : ℤ) (reference : Decimal) (costs : CostAssumptions)
    : Type 0 where
  pub side_known : is_order_side side ≡ true
  pub quantity_positive : pos 1 ≤ℤ quantity
  pub reference_positive : is_positive reference ≡ true
  pub commission : is_negative costs.commission_bps_per_side ≡ false
  pub slippage : is_negative costs.slippage_bps_per_side ≡ false

whole-IsNonNeg : (q : ℤ) → pos 1 ≤ℤ q → IsNonNeg (from_int q)
whole-IsNonNeg q h = ground arith

figures-IsMade :
    (side : String) (q : ℤ) (reference price rate : Decimal) (costs : CostAssumptions)
    → IsAsked side q reference costs
    → is_positive price ≡ true
    → let e = order_figures side q reference price rate in
      is_negative e.reference_notional ≡ false
      → is_negative e.execution_notional ≡ false
      → is_negative e.commission ≡ false
      → is_negative e.slippage_cost ≡ false
      → is_negative e.total_transaction_cost ≡ false
      → make_order_cost_estimate e ≡ ok e
unfolding make_order_cost_estimate
figures-IsMade side q reference price rate costs a p n m c s t =
    let e = order_figures side q reference price rate in
    ground (
      arith,
      eq_refl_lem e.reference_notional,
      eq_refl_lem e.execution_notional,
      eq_refl_lem e.slippage_cost,
      eq_refl_lem e.total_transaction_cost,
      eq_refl_lem e.cash_change,
    )

-- the figures that follow from a positive price are in order
pub order_figures-IsMade :
    (side : String) (q : ℤ) (reference price rate : Decimal) (costs : CostAssumptions)
    → IsAsked side q reference costs
    → is_positive price ≡ true
    → IsNonNeg rate
    → let e = order_figures side q reference price rate in make_order_cost_estimate e ≡ ok e
order_figures-IsMade side q reference price rate costs a p r =
    let e = order_figures side q reference price rate in
    let held = whole-IsNonNeg q a.quantity_positive in
    let notional = mul-IsNonNeg (from_int q) price held (positive-IsNonNeg price p) in
    let commission = mul-IsNonNeg e.execution_notional rate notional r in
    let gap = Decimal.sub price reference in
    let slippage = mul-IsNonNeg (Decimal.absolute gap) (from_int q) (absolute-IsNonNeg gap) held in
    figures-IsMade side q reference price rate costs a p
      (IsNonNeg-lt_zero e.reference_notional (
        mul-IsNonNeg (from_int q) reference held
          (positive-IsNonNeg reference a.reference_positive)))
      (IsNonNeg-lt_zero e.execution_notional notional) (IsNonNeg-lt_zero e.commission commission)
      (IsNonNeg-lt_zero e.slippage_cost slippage)
      (IsNonNeg-lt_zero e.total_transaction_cost
        (add-IsNonNeg e.commission e.slippage_cost commission slippage))

price_positive : (p : Decimal) → le p zero_decimal ≡ false → is_positive p ≡ true
unfolding le
price_positive p h = ground arith

-- the price after slippage is positive, or the sale has lost it
slipped_price-cases :
    (side : String) (reference s : Decimal)
    → is_order_side side ≡ true
    → is_positive reference ≡ true
    → IsNonNeg s
    → ((p : Decimal) × (slipped_price side reference s ≡ ok p) × (is_positive p ≡ true))
      ⊎ ((side ≡ sell_side)
          × (le (Decimal.mul reference (Decimal.sub one_decimal s)) zero_decimal ≡ true)
          × (slipped_price side reference s
              ≡ err (backtest_accounting "non_positive_sell_execution_price")))
unfolding slipped_price
slipped_price-cases side reference s known h n = elim (Bool-cases (str_eq side buy_side)) [
  | inl buying ↦
      let p = Decimal.mul reference (Decimal.add one_decimal s) in
      let above =
        mul-IsPos reference (Decimal.add one_decimal s) (positive-IsPos reference h)
          (add-IsPos one_decimal s (omega arith) n) in
      inl (p, ground arith, IsPos-positive p above)
  | inr selling ↦
      let p = Decimal.mul reference (Decimal.sub one_decimal s) in
      elim (Bool-cases (le p zero_decimal)) [
        | inl lost ↦ inr (ground (arith, eq_iff side sell_side), lost, ground arith)
        | inr kept ↦ inl (p, ground arith, price_positive p kept)
      ]
]

-- an estimate at a positive price, or the loss of a sale's price
abbrev pub EstimateOutcome : String → ℤ → Decimal → CostAssumptions → Type 0
EstimateOutcome side q reference costs =
    (s : Decimal) × (r : Decimal) × (slippage_rate costs ≡ ok s)
    × (commission_rate costs ≡ ok r)
    × (((p : Decimal) × (slipped_price side reference s ≡ ok p)
          × (is_positive p ≡ true)
          × (estimate_order_cost side q reference costs ≡ ok (order_figures side q reference p r)))
        ⊎ ((side ≡ sell_side)
            × (le (Decimal.mul reference (Decimal.sub one_decimal s)) zero_decimal ≡ true)
            × (estimate_order_cost side q reference costs
                ≡ err (backtest_accounting "non_positive_sell_execution_price"))))

-- For a side that is known, a positive whole quantity, a positive reference price and costs that
-- are not negative, `estimate_order_cost` raises in one case only: a sale whose price slippage takes
-- to zero or below. Otherwise it returns the figures of the order at the slipped price, which is
-- positive, and the checks of its own record never refuse them.
pub estimate_order_cost-Returns :
    (side : String) (q : ℤ) (reference : Decimal) (costs : CostAssumptions)
    → IsAsked side q reference costs
    → EstimateOutcome side q reference costs
estimate_order_cost-Returns side q reference costs a =
    let (s, es, ns) = rate-Returns costs.slippage_bps_per_side a.slippage in
    let (r, er, nr) = rate-Returns costs.commission_bps_per_side a.commission in
    let made : make_cost_assumptions costs ≡ ok costs =
      unfold make_cost_assumptions in ground arith in
    let fs : slippage_rate costs ≡ ok s = unfold slippage_rate in es in
    let fr : commission_rate costs ≡ ok r = unfold commission_rate in er in
    (
      s,
      r,
      fs,
      fr,
      elim (slipped_price-cases side reference s a.side_known a.reference_positive ns) [
        | inl (p, slipped, above) ↦
            let fine = order_figures-IsMade side q reference p r costs a above nr in
            inl (p, slipped, above, unfold estimate_order_cost in ground arith)
        | inr (selling, lost, slipped) ↦
            inr (selling, lost, unfold estimate_order_cost in ground arith)
      ],
    )
