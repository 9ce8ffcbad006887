-- ===== src/Backtest/Records.antt =====
-- What backtesting/engine.py keeps of a run: the numbered orders, a decision on each, and a row of
-- the portfolio for each signal.
use spy_market_agent.Prelude.{
  ℕ, suc, ◌+◌, ◌≡◌, refl, sym, ◌∙◌, ap, subst, inl, inr, true, false, arith, ok, List, ◌++◌, [],
  ◌∷◌, All, length, length-append, Result-cases, Bool-cases, str_eq, append_assoc, append-nil,
}
use spy_market_agent.Prelude.Int.{pos, ◌≤ℤ◌}
use spy_market_agent.Decimal
use spy_market_agent.Decimal.{Decimal, from_int}
use spy_market_agent.Risk.Models.{is_negative, buy_side, RiskConfig, ReasonCode, PortfolioState}
use spy_market_agent.Risk.Orders.{ProposedOrder, RiskDecision}
use spy_market_agent.Risk.Rules.{
  evaluate_order_risk, decide_preliminary, preliminary_reasons, evaluate_projection, conclude,
  Projection, CostAssumptions, costing, sell_reasons, buy_reasons,
}
use spy_market_agent.Risk.Decisions.{approval, make_risk_decision-eq-ok, unchanged_projection-eq-ok}
use spy_market_agent.Risk.Inversion.{evaluate-eq-ok}
use spy_market_agent.Risk.Approval.{bought, sold}
use spy_market_agent.Backtest.Models.{FillRecord, BacktestConfig}
use spy_market_agent.Backtest.Engine.{
  Signal, ExecutionPrice, EngineState, PortfolioRow, run_signals, run_signal, initial_state,
  with_decision, run_validated_signal_backtest,
}
use spy_market_agent.Backtest.Steps.{Step, unchanged, refused, filled, IsValued, run_signal-eq-ok}
use spy_market_agent.Backtest.Account.{
  Account, flat, Holds, Trades, idle, buys, sells, Refines, Refines-kept, step-Refines,
}

-- the orders' numbers, from `n` on
abbrev pub Numbered : ℕ → List ProposedOrder → Type 0
Numbered n [] = Unit
Numbered n (o ∷ os) = (o.sequence_number ≡ pos n) × Numbered (suc n) os

Numbered-append :
    (n : ℕ) (os : List ProposedOrder) (o : ProposedOrder)
    → Numbered n os
    → o.sequence_number ≡ pos (n + length os)
    → Numbered n (os ++ (o ∷ []))
Numbered-append n [] o h e = (e ∙ ap pos (omega arith), tt)
Numbered-append n (p ∷ os) o h e =
    (h.0, Numbered-append (suc n) os o h.1 (e ∙ ap pos (omega arith)))

-- a decision on each order, in the same order
abbrev pub Answers : List ProposedOrder → List RiskDecision → Type 0
Answers [] [] = Unit
Answers (o ∷ os) (d ∷ ds) = (d.order_sequence_number ≡ o.sequence_number) × Answers os ds
Answers _ _ = ⊥

Answers-append :
    (os : List ProposedOrder) (ds : List RiskDecision) (o : ProposedOrder) (d : RiskDecision)
    → Answers os ds
    → d.order_sequence_number ≡ o.sequence_number
    → Answers (os ++ (o ∷ [])) (ds ++ (d ∷ []))
Answers-append [] [] o d h e = (e, tt)
Answers-append (p ∷ os) (c ∷ ds) o d h e = (h.0, Answers-append os ds o d h.1 e)
Answers-append [] (c ∷ ds) o d h e = absurd h
Answers-append (p ∷ os) [] o d h e = absurd h

-- a row of the portfolio for each signal
abbrev pub Follows : List Signal → List PortfolioRow → Type 0
Follows [] [] = Unit
Follows (s ∷ ss) (r ∷ rs) =
    (r.session ≡ s.execution_session) × (r.signal_session ≡ s.signal_session) × Follows ss rs
Follows _ _ = ⊥

Follows-append :
    (ss : List Signal) (rs : List PortfolioRow) (s : Signal) (r : PortfolioRow)
    → Follows ss rs
    → (r.session ≡ s.execution_session) × (r.signal_session ≡ s.signal_session)
    → Follows (ss ++ (s ∷ [])) (rs ++ (r ∷ []))
Follows-append [] [] s r h e = (e.0, e.1, tt)
Follows-append (t ∷ ss) (q ∷ rs) s r h e = (h.0, h.1, Follows-append ss rs s r h.2 e)
Follows-append [] (q ∷ rs) s r h e = absurd h
Follows-append (t ∷ ss) [] s r h e = absurd h

abbrev pub IsSolventRow : PortfolioRow → Type 0
IsSolventRow r =
    (is_negative r.cash ≡ false)
    × (pos 0 ≤ℤ r.shares)
    × (r.equity ≡ Decimal.add r.cash (Decimal.mul (from_int r.shares) r.close_price))

All-append :
    (P : PortfolioRow → Type 0) (rs : List PortfolioRow) (r : PortfolioRow)
    → All P rs
    → P r
    → All P (rs ++ (r ∷ []))
All-append P [] r h p = (p, tt)
All-append P (q ∷ rs) r h p = (h.0, All-append P rs r h.1 p)

conclude-sequence :
    (o : ProposedOrder) (s : PortfolioState) (p : Projection) (codes : List ReasonCode)
    {d : RiskDecision}
    → conclude o s p codes ≡ ok d
    → d.order_sequence_number ≡ o.sequence_number
unfolding conclude
conclude-sequence o s p [] h = sym (
    ap (λ (r : RiskDecision). r.order_sequence_number)
      (make_risk_decision-eq-ok (approval o p) h).0)
conclude-sequence o s p (c ∷ cs) h = sym (
    ap (λ (r : RiskDecision). r.order_sequence_number)
      (unchanged_projection-eq-ok o s (c ∷ cs) h).0)

decide-sequence :
    (o : ProposedOrder) (s : PortfolioState) (c : RiskConfig) (cr sr : Decimal)
    (codes : List ReasonCode) {d : RiskDecision}
    → decide_preliminary o s c cr sr codes ≡ ok d
    → d.order_sequence_number ≡ o.sequence_number
unfolding decide_preliminary
decide-sequence o s c cr sr (x ∷ xs) h = sym (
    ap (λ (r : RiskDecision). r.order_sequence_number)
      (unchanged_projection-eq-ok o s (x ∷ xs) h).0)
decide-sequence o s c cr sr [] {d} h = elim (Bool-cases (str_eq o.side buy_side)) [
  | inr selling ↦
      let k = costing false o.quantity o.reference_open cr sr in
      conclude-sequence o s (sold o s cr sr) (sell_reasons o s k (sold o s cr sr)) {d = d}
        (unfold evaluate_projection in ground arith)
  | inl buying ↦
      let k = costing true o.quantity o.reference_open cr sr in
      elim (Result-cases (buy_reasons o s c k (bought o s cr sr))) [
        | inr (x, m) ↦ unfold evaluate_projection in ground arith
        | inl (codes, m) ↦
            conclude-sequence o s (bought o s cr sr) codes {d = d}
              (unfold evaluate_projection in ground arith)
      ]
]

-- a decision has the number of its order
pub evaluate-sequence :
    (o : ProposedOrder) (s : PortfolioState) (risk : RiskConfig) (costs : CostAssumptions)
    {d : RiskDecision}
    → evaluate_order_risk o s risk costs ≡ ok d
    → d.order_sequence_number ≡ o.sequence_number
evaluate-sequence o s risk costs h =
    let (t, c, cr, sr, _, _, _, _, rest) = evaluate-eq-ok o s risk costs h in
    decide-sequence o t c cr sr (preliminary_reasons o t c cr sr) rest

-- what the account of trades is worth in cash and shares
Trades-solvent :
    (config : BacktestConfig) (risk : RiskConfig) (cash : Decimal) (fs : List FillRecord)
    (a : Account)
    → is_negative cash ≡ false
    → Trades config risk (flat cash) fs a
    → (st : EngineState) → Holds st a
    → (is_negative st.cash ≡ false) × (pos 0 ≤ℤ st.shares)
Trades-solvent config risk cash fs a h idle st held =
    (subst (λ (c : Decimal). is_negative c ≡ false) (sym held.0) h, ground (arith, held.1))
Trades-solvent config risk cash fs a h (buys gs c f trades fill side x y z) st held = (
  subst (λ (c : Decimal). is_negative c ≡ false) (sym held.0) fill.solvent,
  ground (arith, held.1, held.2),
)
Trades-solvent config risk cash fs a h (sells gs n c f trades fill side x y z) st held = (
  subst (λ (c : Decimal). is_negative c ≡ false) (sym held.0) fill.solvent,
  ground (arith, held.1),
)

-- the records of a run over the signals `done`
pub record IsRecorded (done : List Signal) (st : EngineState) : Type 0 where
  pub next : st.next_order_sequence ≡ suc (length st.proposed_records)
  pub numbered : Numbered 1 st.proposed_records
  pub answered : Answers st.proposed_records st.decision_records
  pub rows : Follows done st.portfolio_records
  pub solvent : All IsSolventRow st.portfolio_records

decided-IsRecorded :
    (done : List Signal) (st : EngineState) (o : ProposedOrder) (d : RiskDecision)
    → o.sequence_number ≡ pos st.next_order_sequence
    → d.order_sequence_number ≡ o.sequence_number
    → IsRecorded done st
    → IsRecorded done (with_decision st o d)
decided-IsRecorded done st o d number answer r = record {
  next = omega (arith, r.next, length-append st.proposed_records (o ∷ []));
  numbered =
      Numbered-append 1 st.proposed_records o r.numbered (number ∙ ap pos (r.next ∙ omega arith));
  answered = Answers-append st.proposed_records st.decision_records o d r.answered answer;
  rows = r.rows;
  solvent = r.solvent;
}

module _ (config : BacktestConfig) (risk : RiskConfig) (done : List Signal) where
  step-IsRecorded :
      (st : EngineState) (signal : Signal) {next : EngineState}
      → Step config risk st signal next
      → IsRecorded done st
      → IsRecorded done next
  step-IsRecorded st signal unchanged r = r
  step-IsRecorded st signal (refused price o d decided turned_down) r =
      decided-IsRecorded done st o d
        (ap (λ (x : ProposedOrder). x.sequence_number) decided.order.fields)
        (evaluate-sequence o decided.portfolio risk config.cost_assumptions decided.evaluated) r
  step-IsRecorded st signal (filled price o d e decided agreed est solvent) r =
      let before =
        decided-IsRecorded done st o d
          (ap (λ (x : ProposedOrder). x.sequence_number) decided.order.fields)
          (evaluate-sequence o decided.portfolio risk config.cost_assumptions decided.evaluated)
          r in
      record {
        next = before.next;
        numbered = before.numbered;
        answered = before.answered;
        rows = before.rows;
        solvent = before.solvent;
      }

  valued-IsRecorded :
      (signal : Signal) (mid next : EngineState)
      → IsValued config signal mid next
      → (is_negative mid.cash ≡ false) × (pos 0 ≤ℤ mid.shares)
      → IsRecorded done mid
      → IsRecorded (done ++ (signal ∷ [])) next
  valued-IsRecorded signal mid next v h r = record {
    next = v.sequence ∙ r.next ∙ ap (λ (os : List ProposedOrder). suc (length os)) (sym v.proposed);
    numbered = subst (Numbered 1) (sym v.proposed) r.numbered;
    answered = rw (v.proposed, v.decisions) r.answered;
    rows = rw v.rows (Follows-append done mid.portfolio_records signal v.row r.rows v.row_sessions);
    solvent = rw v.rows (
        All-append IsSolventRow mid.portfolio_records v.row r.solvent
          (rw v.row_cash h.0, rw v.row_shares h.1, v.row_equity.1));
  }

run_signals-IsRecorded :
    (config : BacktestConfig) (risk : RiskConfig) (prices : List ExecutionPrice) (cash : Decimal)
    → is_negative cash ≡ false
    → (done : List Signal) (st : EngineState) (signals : List Signal) {end : EngineState}
    → run_signals config risk prices st signals ≡ ok end
    → Refines config risk (flat cash) st
    → IsRecorded done st
    → IsRecorded (done ++ signals) end
unfolding run_signals
run_signals-IsRecorded config risk prices cash h done st [] {end} k refined r =
    let same : st ≡ end = ground arith in rw (append-nil done) (subst (IsRecorded done) same r)
run_signals-IsRecorded config risk prices cash h done st (signal ∷ signals) {end} k refined r =
    elim (Result-cases (run_signal config risk prices st signal)) [
      | inr (x, l) ↦ ground arith
      | inl (next, l) ↦
          let (mid, step, v) = run_signal-eq-ok config risk prices st signal l in
          let (a, held, trades) = step-Refines config risk (flat cash) st signal step refined in
          let solvent = Trades-solvent config risk cash mid.fill_records a h trades mid held in
          let after =
            Refines-kept config risk (flat cash) mid next v.cash v.shares v.fills
              (a, held, trades) in
          subst (λ (ss : List Signal). IsRecorded ss end) (append_assoc done (signal ∷ []) signals)
            (run_signals-IsRecorded config risk prices cash h (done ++ (signal ∷ [])) next signals
              {end = end} (ground arith) after
              (valued-IsRecorded config risk done signal mid next v solvent
                (step-IsRecorded config risk done st signal step r)))
    ]

-- A run of the backtest that returns has numbered its orders one, two and so on without a gap, has
-- exactly one risk decision on each, in the same order and under its number, and has exactly one
-- row of the portfolio for each signal, in the order of the signals and with their sessions. In
-- every row the cash and the shares are not negative, and the equity is the cash and the shares at
-- the closing price; provided that the initial cash is not negative.
pub run_validated_signal_backtest-IsRecorded :
    (config : BacktestConfig) (risk : RiskConfig) (prices : List ExecutionPrice)
    (signals : List Signal) {end : EngineState}
    → is_negative config.initial_cash ≡ false
    → run_validated_signal_backtest config risk prices signals ≡ ok end
    → IsRecorded signals end
unfolding run_validated_signal_backtest
run_validated_signal_backtest-IsRecorded config risk prices signals h k =
    run_signals-IsRecorded config risk prices config.initial_cash h [] (initial_state config)
      signals k (flat config.initial_cash, (refl, refl), idle)
      (record { next = refl; numbered = tt; answered = tt; rows = tt; solvent = tt })
