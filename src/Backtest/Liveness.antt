-- ===== src/Backtest/Liveness.antt =====
-- A signal to be long that finds the account in cash: the decision and the fill of its order in
-- backtesting/engine.py.
use spy_market_agent.Prelude.{
  String, ◌≡◌, refl, sym, ap, subst, inl, inr, false, some, none, Option-cases, arith, ok, err,
  division_error, ◌⊎◌, ◌∙◌, str_eq, Bool-cases,
}
use spy_market_agent.Prelude.Int.{ℤ, pos, ◌≤ℤ◌, ◌<ℤ◌}
use spy_market_agent.Decimal
use spy_market_agent.Decimal.{Decimal, zero_decimal, one_decimal, from_int, exact_neg, lt, le}
use spy_market_agent.Decimal.Order.{eq_refl_lem}
use spy_market_agent.Decimal.Sign.{lt_zero-IsNonNeg, IsNonNeg-lt_zero, add-IsNonNeg}
use spy_market_agent.Risk.Models.{
  buy_side, is_negative, PortfolioState, make_portfolio_state, RiskConfig,
}
use spy_market_agent.Risk.Orders.{ProposedOrder}
use spy_market_agent.Risk.Returns.{holding_nonneg, CoversExit, evaluate_order_risk-Returns}
use spy_market_agent.Backtest.Models.{BacktestConfig, slippage_rate, commission_rate}
use spy_market_agent.Backtest.Costs.{order_figures, maximum_affordable_buy_quantity, per_share_cash}
use spy_market_agent.Backtest.Engine.{
  Signal, EngineState, order_of, propose_order, at_least_one, portfolio_state, fill_if_approved,
  decide_order, with_decision, with_fill,
}
use spy_market_agent.Backtest.Inversion.{estimate_order_cost-eq-ok}
use spy_market_agent.Backtest.Estimates.{estimate_order_cost-Returns, rate-Returns}
use spy_market_agent.Backtest.Agreement.{fill_from_approved_order-agrees}
use spy_market_agent.Backtest.Entrance.{
  IsEntrance, commission_kept, whole_quotient, asked, proposed_at, counted, refused_at,
}

-- the order to buy, the decision on it and the state it leaves
abbrev pub Entry : BacktestConfig → RiskConfig → EngineState → Signal → Decimal → ℤ → Type 0
Entry config risk st signal price q =
    (o : ProposedOrder) × (next : EngineState) × (o.side ≡ buy_side)
    × (o.quantity ≡ at_least_one q)
    × (propose_order st.next_order_sequence signal price st.cash st.shares config ≡ ok (some o))
    × (decide_order config risk st signal price (some o) ≡ ok next)

-- a quotient that is refused, or an order to buy
abbrev pub EntranceOutcome : BacktestConfig → RiskConfig → EngineState → Signal → Decimal → Type 0
EntranceOutcome config risk st signal price =
    ((s : Decimal) × (r : Decimal) × (slippage_rate config.cost_assumptions ≡ ok s)
      × (commission_rate config.cost_assumptions ≡ ok r)
      × (Decimal.floor_divide st.cash (per_share_cash price s r) ≡ none)
      × (propose_order st.next_order_sequence signal price st.cash st.shares config
          ≡ err division_error))
    ⊎ ((q : ℤ) × (maximum_affordable_buy_quantity st.cash price config.cost_assumptions ≡ ok q)
        × Entry config risk st signal price q)

module _ (config : BacktestConfig) (risk : RiskConfig) (st : EngineState) (signal : Signal)
    (price : Decimal) (entrance : IsEntrance config risk st signal price) where
  -- the portfolio before the order
  abbrev held : PortfolioState
  held =
      let market_value = Decimal.mul (from_int st.shares) price in
      record {
        session = signal.execution_session;
        cash = st.cash;
        shares = st.shares;
        reference_price = price;
        market_value = market_value;
        equity = Decimal.add st.cash market_value;
      }

  flat : pos 0 ≤ℤ st.shares
  flat = subst (λ (n : ℤ). pos 0 ≤ℤ n) (sym entrance.in_cash) (ground arith)

  held_checked :
      is_negative held.market_value ≡ false
      → is_negative held.equity ≡ false
      → make_portfolio_state held ≡ ok held
  unfolding make_portfolio_state
  held_checked v e = ground (
    arith,
    flat,
    entrance.cash,
    entrance.price_positive,
    eq_refl_lem held.market_value,
    eq_refl_lem held.equity,
  )

  held_made : make_portfolio_state held ≡ ok held
  held_made =
      let worth = holding_nonneg st.shares price flat entrance.price_positive in
      let cash = lt_zero-IsNonNeg st.cash entrance.cash in
      held_checked (IsNonNeg-lt_zero held.market_value worth)
        (IsNonNeg-lt_zero held.equity (add-IsNonNeg st.cash held.market_value cash worth))

  -- the decision on an order to buy, and the state it leaves
  decided :
      (o : ProposedOrder)
      → o.side ≡ buy_side
      → pos 0 <ℤ o.sequence_number
      → (next : EngineState) × (decide_order config risk st signal price (some o) ≡ ok next)
  decided o buying numbered =
      let exit : CoversExit o held config.cost_assumptions = record {
        at = λ cr sr er et selling. cc (buying, selling);
      } in
      let (d, e) =
        evaluate_order_risk-Returns o held risk config.cost_assumptions held_made entrance.rules
          entrance.commission entrance.slippage numbered exit in
      let opened : portfolio_state signal.execution_session st.cash st.shares price ≡ ok held =
        unfold portfolio_state in held_made in
      elim (Bool-cases d.approved) [
        | inl agreed ↦
            let (f, filled, _, _) = fill_from_approved_order-agrees o held risk config e agreed in
            (
              with_fill (with_decision st o d) f,
              unfold decide_order fill_if_approved in ground arith,
            )
        | inr refused ↦ (with_decision st o d, unfold decide_order fill_if_approved in ground arith)
      ]

  -- what follows once the quantity is known
  decided_at :
      (q : ℤ)
      → maximum_affordable_buy_quantity st.cash price config.cost_assumptions ≡ ok q
      → Entry config risk st signal price q
  decided_at q affordable =
      let size = at_least_one q in
      let (s, r, _, _, outcome) =
        estimate_order_cost-Returns buy_side size price config.cost_assumptions
          (asked config risk st signal price entrance q) in
      elim outcome [
        | inr (selling, _, _) ↦ absurd (cc (ap (λ (x : String). str_eq x buy_side) selling))
        | inl (p, _, positive, estimated) ↦
            let e = order_figures buy_side size price p r in
            let figures =
              estimate_order_cost-eq-ok buy_side size price config.cost_assumptions estimated in
            let o =
              order_of st.next_order_sequence signal buy_side size price st.cash st.shares e in
            let (next, decision) = decided o refl (ground (arith, entrance.sequence)) in
            (
              o,
              next,
              refl,
              refl,
              proposed_at config risk st signal price entrance q p r affordable positive estimated
                  (commission_kept e figures.checked),
              decision,
            )
      ]

  -- For costs that are not negative, a risk configuration that passes its validation, a cash that
  -- is not negative, no shares, a next sequence number of at least one, a positive price and an
  -- execution session after the signal's, and for a signal that asks for a long position: either the
  -- decimal context refuses the whole quotient of the cash by what one share takes, and
  -- `_propose_order` raises the division's error; or `_propose_order` returns an order to buy
  -- the affordable quantity, or one share when that is none, and deciding on it, and filling it if
  -- it is approved, returns a next state. No other check on the way raises.
  pub decide_long-Returns : EntranceOutcome config risk st signal price
  decide_long-Returns =
      let costs = config.cost_assumptions in
      let (s, fs, ns) = rate-Returns costs.slippage_bps_per_side entrance.slippage in
      let (r, fr, nr) = rate-Returns costs.commission_bps_per_side entrance.commission in
      let es : slippage_rate costs ≡ ok s = unfold slippage_rate in fs in
      let er : commission_rate costs ≡ ok r = unfold commission_rate in fr in
      let sized = counted config risk st signal price entrance s r es er ns nr in
      elim (Option-cases (Decimal.floor_divide st.cash (per_share_cash price s r))) [
        | inl long ↦ inl (
          s,
          r,
          es,
          er,
          long,
          refused_at config risk st signal price entrance (sized ∙ ap whole_quotient long),
        )
        | inr (q, short) ↦
            let affordable = sized ∙ ap whole_quotient short in
            inr (q, affordable, decided_at q affordable)
      ]
