-- ===== src/Strategies/Causal.antt =====
-- The signals of strategies/signal_policy.py follow the predictions, and later market sessions do not
-- change them.
use spy_market_agent.Prelude.{
  ℕ, zero, suc, String, ◌≡◌, refl, sym, ap, subst, ◌∙◌, inl, inr, List, [], ◌∷◌, ◌++◌, map, Option,
  none, some, arith, ok, Result-cases, Option-cases,
}
use spy_market_agent.Prelude.Sessions.{first, last}
use spy_market_agent.Strategies.Models.{
  SignalRow, StrategySignalSet, make_strategy_signal_set, market_index, target_of,
  strategy_long_probability_threshold,
}
use spy_market_agent.Strategies.Policy.{
  Evaluation, MarketMetadata, Prediction, check_market, get_elem?, following_session, signal_of,
  signals_of, signal_set, set_of, build_long_cash_strategy_signals,
}
use spy_market_agent.Strategies.Signals.{
  IsSignalSet, make_strategy_signal_set-IsSignalSet, make_strategy_signal_set-kept,
}

-- a signal for each prediction, in order
abbrev pub Signals : List Prediction → List SignalRow → Type 0
Signals [] [] = Unit
Signals (p ∷ ps) (r ∷ rs) =
    (r.signal_session ≡ p.session)
    × (r.probability_positive ≡ p.probability_positive)
    × (r.target_position ≡ target_of strategy_long_probability_threshold p.probability_positive)
    × Signals ps rs
Signals _ _ = ⊥

market_index-append :
    (session : ℕ) (market later : List ℕ) {i : ℕ}
    → market_index session market ≡ some i
    → market_index session (market ++ later) ≡ some i
unfolding market_index
market_index-append session [] later h = ground arith
market_index-append session (s ∷ market) later {i} h =
    elim (Option-cases (market_index session market)) [
      | inl absent ↦ ground arith
      | inr (j, found) ↦ ground (arith, market_index-append session market later {i = j} found)
    ]

get_elem?-append :
    (market later : List ℕ) (i : ℕ) {s : ℕ}
    → get_elem? market i ≡ some s
    → get_elem? (market ++ later) i ≡ some s
unfolding get_elem?
get_elem?-append [] later i h = ground arith
get_elem?-append (x ∷ market) later zero h = h
get_elem?-append (x ∷ market) later (suc i) h = get_elem?-append market later i h

following_session-eq-ok :
    (market : List ℕ) (index : Option ℕ) {s : ℕ}
    → following_session market index ≡ ok s
    → (i : ℕ) × (index ≡ some i) × (get_elem? market (suc i) ≡ some s)
unfolding following_session
following_session-eq-ok market none h = ground arith
following_session-eq-ok market (some i) {s} h = elim (Option-cases (get_elem? market (suc i))) [
  | inl absent ↦ ground arith
  | inr (t, found) ↦ (i, refl, ground arith)
]

following_session-some :
    (market : List ℕ) (i : ℕ) {s : ℕ}
    → get_elem? market (suc i) ≡ some s
    → following_session market (some i) ≡ ok s
unfolding following_session
following_session-some market i h = ground arith

following_session-append :
    (session : ℕ) (market later : List ℕ) {s : ℕ}
    → following_session market (market_index session market) ≡ ok s
    → following_session (market ++ later) (market_index session (market ++ later)) ≡ ok s
following_session-append session market later {s} h =
    let (i, found, next) = following_session-eq-ok market (market_index session market) h in
    let place = market_index-append session market later found in
    let there = get_elem?-append market later (suc i) next in
    ap (following_session (market ++ later)) place
    ∙ following_session-some (market ++ later) i there

module _ (evaluation : Evaluation) (market later : List ℕ) where
  signal_of-append :
      (p : Prediction) {r : SignalRow}
      → signal_of evaluation market p ≡ ok r
      → signal_of evaluation (market ++ later) p ≡ ok r
  unfolding signal_of
  signal_of-append p {r} h =
      elim (Result-cases (following_session market (market_index p.session market))) [
        | inr (x, e) ↦ ground arith
        | inl (s, e) ↦ ground (arith, following_session-append p.session market later e)
      ]

  -- Signals do not look ahead: what the policy makes of predictions and market sessions, it makes
  -- of them again when later market sessions are known too.
  pub signals_of-append :
      (ps : List Prediction) {rs : List SignalRow}
      → signals_of evaluation market ps ≡ ok rs
      → signals_of evaluation (market ++ later) ps ≡ ok rs
  unfolding signals_of
  signals_of-append [] h = h
  signals_of-append (p ∷ ps) {rs} h = elim (Result-cases (signal_of evaluation market p)) [
    | inr (x, e) ↦ ground arith
    | inl (r, e) ↦ elim (Result-cases (signals_of evaluation market ps)) [
      | inr (x, k) ↦ ground arith
      | inl (tail, k) ↦ ground (arith, signal_of-append p e, signals_of-append ps k)
    ]
  ]

signal_of-eq-ok :
    (evaluation : Evaluation) (market : List ℕ) (p : Prediction) {r : SignalRow}
    → signal_of evaluation market p ≡ ok r
    → (r.signal_session ≡ p.session)
      × (r.probability_positive ≡ p.probability_positive)
      × (r.target_position ≡ target_of strategy_long_probability_threshold p.probability_positive)
unfolding signal_of
signal_of-eq-ok evaluation market p {r} h =
    elim (Result-cases (following_session market (market_index p.session market))) [
      | inr (x, e) ↦ ground arith
      | inl (s, e) ↦ (ground arith, ground arith, ground arith)
    ]

signals_of-Signals :
    (evaluation : Evaluation) (market : List ℕ) (ps : List Prediction) {rs : List SignalRow}
    → signals_of evaluation market ps ≡ ok rs
    → Signals ps rs
unfolding signals_of
signals_of-Signals evaluation market [] {rs} h =
    let same : [] ≡ rs = ground arith in subst (Signals []) same tt
signals_of-Signals evaluation market (p ∷ ps) {rs} h =
    elim (Result-cases (signal_of evaluation market p)) [
      | inr (x, e) ↦ ground arith
      | inl (r, e) ↦ elim (Result-cases (signals_of evaluation market ps)) [
        | inr (x, k) ↦ ground arith
        | inl (tail, k) ↦
            let (s, q, t) = signal_of-eq-ok evaluation market p e in
            let same : r ∷ tail ≡ rs = ground arith in
            subst (Signals (p ∷ ps)) same (s, q, t, signals_of-Signals evaluation market ps k)
      ]
    ]

-- what the policy builds of the predictions, and validates
abbrev pub IsBuilt : Evaluation → List ℕ → StrategySignalSet → Type 0
IsBuilt evaluation market set =
    (set.market_sessions ≡ market)
    × (set.split ≡ evaluation.split)
    × Signals evaluation.predictions set.rows
    × IsSignalSet set

module _ (version : String) (evaluation : Evaluation) (market : List ℕ) (rows : List SignalRow)
    (found : signals_of evaluation market evaluation.predictions ≡ ok rows) where
  set_of-IsBuilt :
      (s : StrategySignalSet) {set : StrategySignalSet}
      → s.rows ≡ rows
      → s.market_sessions ≡ market
      → s.split ≡ evaluation.split
      → make_strategy_signal_set version s ≡ ok set
      → IsBuilt evaluation market set
  set_of-IsBuilt s {set} same market_same split_same h =
      let is_set = make_strategy_signal_set-IsSignalSet version s h in
      let kept = make_strategy_signal_set-kept version s h in
      let rows_kept : set.rows ≡ rows = sym (ap (λ (x : StrategySignalSet). x.rows) kept) ∙ same in
      (
        sym (ap (λ (x : StrategySignalSet). x.market_sessions) kept) ∙ market_same,
        sym (ap (λ (x : StrategySignalSet). x.split) kept) ∙ split_same,
        subst (Signals evaluation.predictions) (sym rows_kept)
            (signals_of-Signals evaluation market evaluation.predictions found),
        is_set,
      )

-- some set of the rows passed its validation
signal_set-eq-ok :
    (version : String) (evaluation : Evaluation) (market : List ℕ) (rows : List SignalRow)
    {set : StrategySignalSet}
    → signal_set version evaluation market rows ≡ ok set
    → (a : ℕ) × (b : ℕ) × (c : ℕ) × (d : ℕ) × (make_strategy_signal_set version
          (set_of evaluation market rows a b c d)
        ≡ ok set)
unfolding signal_set
signal_set-eq-ok version evaluation market rows {set} h =
    let signals = map (λ (r : SignalRow). r.signal_session) rows in
    let executions = map (λ (r : SignalRow). r.execution_session) rows in
    elim (Option-cases (first signals)) [
      | inl e ↦ ground arith
      | inr (a, ea) ↦ elim (Option-cases (last signals)) [
        | inl e ↦ ground arith
        | inr (b, eb) ↦ elim (Option-cases (first executions)) [
          | inl e ↦ ground arith
          | inr (c, ec) ↦ elim (Option-cases (last executions)) [
            | inl e ↦ ground arith
            | inr (d, ed) ↦ (a, b, c, d, ground arith)
          ]
        ]
      ]
    ]

-- What `build_long_cash_strategy_signals` returns has one signal for each prediction, in the same
-- order, for its session and with its probability, long exactly when the probability reaches the
-- threshold; it keeps the market sessions and the split that it was built from; and it is a valid
-- set: each signal is executed in the market session that immediately follows its own, inside the
-- test split.
pub build_long_cash_strategy_signals-IsBuilt :
    (version : String) (evaluation : Evaluation) (metadata : MarketMetadata) (market : List ℕ)
    {set : StrategySignalSet}
    → build_long_cash_strategy_signals version evaluation metadata market ≡ ok set
    → IsBuilt evaluation market set
unfolding build_long_cash_strategy_signals
build_long_cash_strategy_signals-IsBuilt version evaluation metadata market {set} h =
    elim (Result-cases (check_market evaluation metadata market)) [
      | inr (x, e) ↦ ground arith
      | inl (u, e) ↦ elim (Result-cases (signals_of evaluation market evaluation.predictions)) [
        | inr (x, k) ↦ ground arith
        | inl (rows, k) ↦
            let (a, b, c, d, made) =
              signal_set-eq-ok version evaluation market rows {set = set} (ground arith) in
            set_of-IsBuilt version evaluation market rows k (set_of evaluation market rows a b c d)
              refl refl refl made
      ]
    ]
