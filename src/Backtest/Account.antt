-- ===== src/Backtest/Account.antt =====
-- A long-or-cash account, which is what backtesting/engine.py keeps: all in cash, or a position with
-- what cash is left. The engine's fills are its trades.
use spy_market_agent.Prelude.{
  String, ◌≡◌, refl, sym, ◌∙◌, ap, subst, inl, inr, true, false, arith, ok, List, ◌++◌, [], ◌∷◌,
  leb, str_eq, eq_iff, Result-cases,
}
use spy_market_agent.Prelude.Int.{
  ℤ, pos, ◌≤ℤ◌, ◌+ℤ◌, ◌-ℤ◌, int_laws, eq_of_parts, pos_part, neg_part,
}
use spy_market_agent.Decimal
use spy_market_agent.Decimal.{Decimal}
use spy_market_agent.Risk.Models.{buy_side, sell_side, is_negative, PortfolioState, RiskConfig}
use spy_market_agent.Risk.Orders.{ProposedOrder, RiskDecision}
use spy_market_agent.Risk.Rules.{evaluate_order_risk}
use spy_market_agent.Backtest.Models.{FillRecord, BacktestConfig}
use spy_market_agent.Backtest.Costs.{OrderCostEstimate, cash_change_of}
use spy_market_agent.Backtest.Engine.{
  Signal, ExecutionPrice, EngineState, fill_of, run_signals, initial_state,
  run_validated_signal_backtest, with_fill, with_decision, shares_after_order, run_signal,
}
use spy_market_agent.Backtest.Inversion.{IsEstimate, portfolio_state-eq-ok}
use spy_market_agent.Backtest.Steps.{Step, unchanged, refused, filled, IsDecision, run_signal-eq-ok}

pub data Account : Type 0 where
  flat : Decimal → Account
  long : ℤ → Decimal → Account

-- what holds of every fill
pub record IsFill (config : BacktestConfig) (risk : RiskConfig) (f : FillRecord) : Type 0 where
  pub order : ProposedOrder
  pub portfolio : PortfolioState
  pub decision : RiskDecision
  pub evaluated : evaluate_order_risk order portfolio risk config.cost_assumptions ≡ ok decision
  pub approved : decision.approved ≡ true
  pub portfolio_before :
      (portfolio.session ≡ f.execution_session)
      × (portfolio.cash ≡ f.cash_before)
      × (portfolio.shares ≡ f.shares_before)
  pub sequence_number : order.sequence_number ≡ f.order_sequence_number
  pub quantity : (order.quantity ≡ f.quantity) × (pos 1 ≤ℤ f.quantity)
  pub after_signal : leb f.execution_session f.signal_session ≡ false
  pub cash_change : f.cash_change ≡ cash_change_of f.side f.execution_notional f.commission
  pub cash_after : f.cash_after ≡ Decimal.add f.cash_before f.cash_change
  pub solvent : is_negative f.cash_after ≡ false

-- Buys and sales take turns: a buy is from cash, a sale is of the whole position.
pub data Trades (config : BacktestConfig) (risk : RiskConfig) (start : Account)
    : List FillRecord → Account → Type 0 where
  idle : Trades config risk start [] start
  buys :
      (fs : List FillRecord) (cash : Decimal) (f : FillRecord)
      → Trades config risk start fs (flat cash)
      → IsFill config risk f
      → f.side ≡ buy_side
      → f.cash_before ≡ cash
      → f.shares_before ≡ pos 0
      → f.shares_after ≡ f.quantity
      → Trades config risk start (fs ++ (f ∷ [])) (long f.quantity f.cash_after)
  sells :
      (fs : List FillRecord) (n : ℤ) (cash : Decimal) (f : FillRecord)
      → Trades config risk start fs (long n cash)
      → IsFill config risk f
      → f.side ≡ sell_side
      → f.cash_before ≡ cash
      → (f.shares_before ≡ n) × (f.quantity ≡ n)
      → f.shares_after ≡ pos 0
      → Trades config risk start (fs ++ (f ∷ [])) (flat f.cash_after)

-- the account that the loop's variables stand for
abbrev pub Holds : EngineState → Account → Type 0
Holds st (flat cash) = (st.cash ≡ cash) × (st.shares ≡ pos 0)
Holds st (long n cash) = (st.cash ≡ cash) × (st.shares ≡ n) × (pos 1 ≤ℤ n)

-- a state whose fills are trades that lead to its account
abbrev pub Refines : BacktestConfig → RiskConfig → Account → EngineState → Type 0
Refines config risk start st =
    (a : Account) × Holds st a × Trades config risk start st.fill_records a

shares-entered :
    (o : ProposedOrder) (n : ℤ)
    → o.side ≡ buy_side
    → n ≡ pos 0
    → shares_after_order o n ≡ o.quantity
shares-entered o n side none_held =
    let buying : str_eq o.side buy_side ≡ true = (eq_iff o.side buy_side).1 side in
    rw (buying, none_held) (eq_of_parts (pos 0 +ℤ o.quantity) o.quantity (omega int_laws))

shares-exited :
    (o : ProposedOrder) (n : ℤ)
    → o.side ≡ sell_side
    → o.quantity ≡ n
    → shares_after_order o n ≡ pos 0
shares-exited o n side all_sold =
    let selling : str_eq o.side buy_side ≡ false = ap (λ (x : String). str_eq x buy_side) side in
    rw (selling, all_sold) (eq_of_parts (n -ℤ n) (pos 0) (omega int_laws))

held-apart : (m n : ℤ) → m ≡ n → pos 1 ≤ℤ n → m ≤ℤ pos 0 → ⊥
held-apart m n e h k = omega (arith, ap pos_part e, ap neg_part e)

Holds-kept :
    (st next : EngineState) (a : Account)
    → next.cash ≡ st.cash
    → next.shares ≡ st.shares
    → Holds st a
    → Holds next a
Holds-kept st next (flat cash) c n h = (c ∙ h.0, n ∙ h.1)
Holds-kept st next (long m cash) c n h = (c ∙ h.0, n ∙ h.1, h.2)

pub Refines-kept :
    (config : BacktestConfig) (risk : RiskConfig) (start : Account) (st next : EngineState)
    → next.cash ≡ st.cash
    → next.shares ≡ st.shares
    → next.fill_records ≡ st.fill_records
    → Refines config risk start st
    → Refines config risk start next
Refines-kept config risk start st next c n fs (a, held, trades) = (
  a,
  Holds-kept st next a c n held,
  subst (λ (gs : List FillRecord). Trades config risk start gs a) (sym fs) trades,
)

module _ (config : BacktestConfig) (risk : RiskConfig) (start : Account) where
  filled-IsFill :
      (st : EngineState) (signal : Signal) (price : Decimal) (o : ProposedOrder) (d : RiskDecision)
      (e : OrderCostEstimate)
      → IsDecision config risk st signal price o d
      → d.approved ≡ true
      → IsEstimate o.side o.quantity o.reference_open config.cost_assumptions e
      → is_negative (fill_of o st.cash st.shares e).cash_after ≡ false
      → IsFill config risk (fill_of o st.cash st.shares e)
  filled-IsFill st signal price o d e decided agreed est solvent =
      let (s, c, n) =
        portfolio_state-eq-ok signal.execution_session st.cash st.shares price decided.opened in
      record {
        order = o;
        portfolio = decided.portfolio;
        decision = d;
        evaluated = decided.evaluated;
        approved = agreed;
        portfolio_before =
            (s ∙ sym (ap (λ (x : ProposedOrder). x.execution_session) decided.order.fields), c, n);
        sequence_number = refl;
        quantity = (refl, est.quantity_positive);
        after_signal = decided.order.checked.after_signal;
        cash_change =
            subst
              (λ (x : OrderCostEstimate).
                x.cash_change ≡ cash_change_of o.side x.execution_notional x.commission)
              (sym est.figures) refl;
        cash_after = refl;
        solvent = solvent;
      }

  -- a filled order takes the account from cash to a position
  bought-Refines :
      (st : EngineState) (o : ProposedOrder) (d : RiskDecision) (e : OrderCostEstimate)
      → IsFill config risk (fill_of o st.cash st.shares e)
      → o.side ≡ buy_side
      → st.shares ≤ℤ pos 0
      → Refines config risk start st
      → Refines config risk start (with_fill (with_decision st o d) (fill_of o st.cash st.shares e))
  bought-Refines st o d e fill side none_held (flat cash, held, trades) =
      let f = fill_of o st.cash st.shares e in
      let after = shares-entered o st.shares side held.1 in
      (
        long f.quantity f.cash_after,
        (refl, after, fill.quantity.1),
        buys st.fill_records cash f trades fill side held.0 held.1 after,
      )
  bought-Refines st o d e fill side none_held (long n cash, held, trades) =
      absurd (held-apart st.shares n held.1 held.2 none_held)

  -- and back to cash
  sold-Refines :
      (st : EngineState) (o : ProposedOrder) (d : RiskDecision) (e : OrderCostEstimate)
      → IsFill config risk (fill_of o st.cash st.shares e)
      → o.side ≡ sell_side
      → o.quantity ≡ st.shares
      → Refines config risk start st
      → Refines config risk start (with_fill (with_decision st o d) (fill_of o st.cash st.shares e))
  sold-Refines st o d e fill side all_sold (long n cash, held, trades) =
      let f = fill_of o st.cash st.shares e in
      let after = shares-exited o st.shares side all_sold in
      (
        flat f.cash_after,
        (refl, after),
        sells st.fill_records n cash f trades fill side held.0 (held.1, all_sold ∙ held.1) after,
      )
  sold-Refines st o d e fill side all_sold (flat cash, held, trades) =
      absurd (held-apart (pos 0) o.quantity (sym (all_sold ∙ held.1)) fill.quantity.1 (omega arith))

  pub step-Refines :
      (st : EngineState) (signal : Signal) {next : EngineState}
      → Step config risk st signal next
      → Refines config risk start st
      → Refines config risk start next
  step-Refines st signal unchanged before = before
  step-Refines st signal (refused price o d decided turned_down) before =
      Refines-kept config risk start st (with_decision st o d) refl refl refl before
  step-Refines st signal (filled price o d e decided agreed est solvent) before =
      let fill = filled-IsFill st signal price o d e decided agreed est solvent in
      let order = decided.order in
      let side = ap (λ (x : ProposedOrder). x.side) order.fields in
      elim order.wanted [
        | inl (buying, none_held, _) ↦ bought-Refines st o d e fill (side ∙ buying) none_held before
        | inr (selling, whole, _) ↦
            sold-Refines st o d e fill (side ∙ selling)
              (ap (λ (x : ProposedOrder). x.quantity) order.fields ∙ whole) before
      ]

  run_signals-Refines :
      (prices : List ExecutionPrice) (st : EngineState) (signals : List Signal) {end : EngineState}
      → run_signals config risk prices st signals ≡ ok end
      → Refines config risk start st
      → Refines config risk start end
  unfolding run_signals
  run_signals-Refines prices st [] {end} h before =
      let same : st ≡ end = ground arith in subst (Refines config risk start) same before
  run_signals-Refines prices st (signal ∷ signals) {end} h before =
      elim (Result-cases (run_signal config risk prices st signal)) [
        | inr (x, k) ↦ ground arith
        | inl (next, k) ↦
            let (mid, step, valued) = run_signal-eq-ok config risk prices st signal k in
            run_signals-Refines prices next signals {end = end} (ground arith) (
              Refines-kept config risk start mid next valued.cash valued.shares valued.fills
                (step-Refines st signal step before))
      ]

-- The fills of a run of the backtest, in their order, are the trades of a long-or-cash account that
-- starts with the configured cash, and the run ends with the cash and the shares of that account.
-- Buys and sales take turns; a buy is made from no shares, and a sale is of the whole position; each
-- fill starts from the cash that the one before it left, changes it by the notional and the
-- commission of its side, and never leaves it negative; and behind each fill is an order that the
-- risk rules approved, on the portfolio of that cash and those shares in the session of the
-- execution, which is after that of the signal.
pub run_validated_signal_backtest-Refines :
    (config : BacktestConfig) (risk : RiskConfig) (prices : List ExecutionPrice)
    (signals : List Signal) {end : EngineState}
    → run_validated_signal_backtest config risk prices signals ≡ ok end
    → Refines config risk (flat config.initial_cash) end
unfolding run_validated_signal_backtest
run_validated_signal_backtest-Refines config risk prices signals h =
    run_signals-Refines config risk (flat config.initial_cash) prices (initial_state config) signals
      h (flat config.initial_cash, (refl, refl), idle)
