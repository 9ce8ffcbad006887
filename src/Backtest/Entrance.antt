-- ===== src/Backtest/Entrance.antt =====
-- A signal to be long that finds the account in cash: the order that `_propose_order` of
-- backtesting/engine.py makes of it.
use spy_market_agent.Prelude.{
  ℕ, zero, suc, ◌<◌, ◌≤◌, ◌≡◌, refl, sym, subst, true, false, some, none, Option, arith, ok, err,
  Result, division_error,
}
use spy_market_agent.Prelude.Int.{ℤ, pos, negsuc, ◌≤ℤ◌, pos_part}
use spy_market_agent.Decimal
use spy_market_agent.Decimal.{Decimal, zero_decimal, one_decimal, from_int, exact_neg, lt, le}
use spy_market_agent.Decimal.Idempotent.{negate-add}
use spy_market_agent.Decimal.Sign.{IsNonNeg, lt_zero-IsNonNeg}
use spy_market_agent.Decimal.Positive.{IsPos, positive-IsPos, IsPos-positive, mul-IsPos, add-IsPos}
use spy_market_agent.Risk.Models.{buy_side, is_negative, is_positive, RiskConfig, make_risk_config}
use spy_market_agent.Risk.Orders.{make_proposed_order}
use spy_market_agent.Backtest.Models.{
  BacktestConfig, make_cost_assumptions, slippage_rate, commission_rate,
}
use spy_market_agent.Backtest.Costs.{
  OrderCostEstimate, make_order_cost_estimate, order_figures, estimate_order_cost,
  maximum_affordable_buy_quantity, per_share_cash, whole_shares,
}
use spy_market_agent.Backtest.Engine.{
  Signal, EngineState, order_of, ordered, propose_buy, propose_order, at_least_one,
}
use spy_market_agent.Backtest.Estimates.{IsAsked}

below_zero :
    (c : ℤ) (s : ℕ)
    → 0 < pos_part c
    → lt (exact_neg (record { coefficient = c; scale = s })) zero_decimal ≡ true
unfolding lt exact_neg
below_zero (pos zero) s h = absurd (omega arith)
below_zero (pos (suc n)) s h = ground arith
below_zero (negsuc n) s h = absurd (omega arith)

-- a buy takes cash
spent :
    (n c : Decimal)
    → IsPos n
    → IsNonNeg c
    → le zero_decimal (Decimal.negate (Decimal.add n c)) ≡ false
spent n c h k =
    let d = Decimal.add n c in
    let below : lt (Decimal.negate d) zero_decimal ≡ true =
      subst (λ (x : Decimal). lt x zero_decimal ≡ true) (sym (negate-add n c))
        (below_zero d.coefficient d.scale (add-IsPos n c h k)) in
    unfold le in rw below refl

pub commission_kept :
    (e : OrderCostEstimate) → make_order_cost_estimate e ≡ ok e → is_negative e.commission ≡ false
unfolding make_order_cost_estimate
commission_kept e h = ground arith

one_at_least : (q : ℤ) → pos 1 ≤ℤ at_least_one q
one_at_least q = ground arith

whole-IsPos : (q : ℤ) → pos 1 ≤ℤ q → IsPos (from_int q)
whole-IsPos q h = ground arith

-- a sound state of the engine, in cash, at a signal to be long
pub record IsEntrance (config : BacktestConfig) (risk : RiskConfig) (st : EngineState)
    (signal : Signal) (price : Decimal) : Type 0 where
  pub commission : is_negative config.cost_assumptions.commission_bps_per_side ≡ false
  pub slippage : is_negative config.cost_assumptions.slippage_bps_per_side ≡ false
  pub rules : make_risk_config risk ≡ ok risk
  pub cash : is_negative st.cash ≡ false
  pub in_cash : st.shares ≡ pos 0
  pub sequence : 1 ≤ st.next_order_sequence
  pub price_positive : is_positive price ≡ true
  pub later : signal.signal_session < signal.execution_session
  pub wanted : signal.target_position ≡ pos 1

-- the shares of a quotient, or its error
abbrev pub whole_quotient : Option ℤ → Result ℤ
whole_quotient none = err division_error
whole_quotient (some q) = ok q

above_zero : (d : Decimal) → lt zero_decimal d ≡ true → le d zero_decimal ≡ false
unfolding le
above_zero d h = ground arith

per_share-positive :
    (price s r : Decimal)
    → is_positive price ≡ true
    → IsNonNeg s
    → IsNonNeg r
    → le (per_share_cash price s r) zero_decimal ≡ false
per_share-positive price s r h ns nr =
    let dear = Decimal.mul price (Decimal.add one_decimal s) in
    let one : IsPos one_decimal = omega arith in
    above_zero (per_share_cash price s r) (
      IsPos-positive (per_share_cash price s r) (
        mul-IsPos dear (Decimal.add one_decimal r)
          (mul-IsPos price (Decimal.add one_decimal s) (positive-IsPos price h)
            (add-IsPos one_decimal s one ns))
          (add-IsPos one_decimal r one nr)))

module _ (config : BacktestConfig) (risk : RiskConfig) (st : EngineState) (signal : Signal)
    (price : Decimal) (entrance : IsEntrance config risk st signal price) where
  order_made :
      (q : ℤ) (e : OrderCostEstimate)
      → pos 1 ≤ℤ q
      → is_positive e.execution_price ≡ true
      → is_negative e.commission ≡ false
      → le zero_decimal e.cash_change ≡ false
      → let o = order_of st.next_order_sequence signal buy_side q price st.cash st.shares e in
        make_proposed_order o ≡ ok o
  unfolding make_proposed_order
  order_made q e h p c change = ground (
    arith, entrance.sequence, entrance.later, entrance.price_positive, entrance.cash,
    entrance.in_cash, entrance.wanted,
  )

  pub asked : (q : ℤ) → IsAsked buy_side (at_least_one q) price config.cost_assumptions
  asked q = record {
    side_known = refl;
    quantity_positive = one_at_least q;
    reference_positive = entrance.price_positive;
    commission = entrance.commission;
    slippage = entrance.slippage;
  }

  -- the order at an estimate that has come back
  pub proposed_at :
      (q : ℤ) (p r : Decimal)
      → maximum_affordable_buy_quantity st.cash price config.cost_assumptions ≡ ok q
      → is_positive p ≡ true
      → let e = order_figures buy_side (at_least_one q) price p r in
        estimate_order_cost buy_side (at_least_one q) price config.cost_assumptions ≡ ok e
        → is_negative e.commission ≡ false
        → let o =
            order_of st.next_order_sequence signal buy_side
              (at_least_one q)
              price
              st.cash
              st.shares
              e in
          propose_order st.next_order_sequence signal price st.cash st.shares config ≡ ok (some o)
  proposed_at q p r affordable positive estimated commission =
      let e = order_figures buy_side (at_least_one q) price p r in
      let n = Decimal.mul (from_int (at_least_one q)) p in
      let sized = one_at_least q in
      let change : le zero_decimal e.cash_change ≡ false =
        spent n (Decimal.mul n r)
          (mul-IsPos (from_int (at_least_one q)) p (whole-IsPos (at_least_one q) sized)
            (positive-IsPos p positive))
          (lt_zero-IsNonNeg (Decimal.mul n r) commission) in
      let made = order_made (at_least_one q) e sized positive commission change in
      let wanted = entrance.wanted in
      let held = entrance.in_cash in unfold propose_order propose_buy ordered in ground arith

  -- what one share takes is positive, so that only the quotient can be refused
  pub counted :
      (s r : Decimal)
      → slippage_rate config.cost_assumptions ≡ ok s
      → commission_rate config.cost_assumptions ≡ ok r
      → IsNonNeg s
      → IsNonNeg r
      → maximum_affordable_buy_quantity st.cash price config.cost_assumptions
        ≡ whole_quotient (Decimal.floor_divide st.cash (per_share_cash price s r))
  counted s r es er ns nr =
      let dear = per_share-positive price s r entrance.price_positive ns nr in
      unfold maximum_affordable_buy_quantity make_cost_assumptions whole_shares in
      ground (arith, entrance.price_positive, entrance.cash, entrance.commission, entrance.slippage)

  pub refused_at :
      maximum_affordable_buy_quantity st.cash price config.cost_assumptions ≡ err division_error
      → propose_order st.next_order_sequence signal price st.cash st.shares config
        ≡ err division_error
  refused_at h =
      let wanted = entrance.wanted in
      let held = entrance.in_cash in unfold propose_order propose_buy in ground arith
