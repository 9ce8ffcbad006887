-- ===== src/Strategies/Policy.antt =====
-- strategies/signal_policy.py: the signals of the final-test probabilities. The evaluation and the
-- market data come revalidated; the columns of the predictions are a list of rows.
use spy_market_agent.Prelude.{
  ℕ, zero, suc, String, not, ◌||◌, List, [], ◌∷◌, Option, none, some, ltb, str_eq, map, length,
  Result, ok, err, raise_if, ◌>>◌, ◌>>=◌, strategy_input, other_exception,
}
use spy_market_agent.Prelude.Int.{pos}
use spy_market_agent.Prelude.Sessions.{first, last, repeats, is_sorted}
use spy_market_agent.Decimal.{Decimal}
use spy_market_agent.Datasets.Spec.{ChronologicalSplitSpec}
use spy_market_agent.Strategies.Models.{
  SignalRow, StrategySignalSet, make_strategy_signal_set, market_index, target_of,
  strategy_schema_version, strategy_long_probability_threshold, market_data_schema_version,
  label_schema_version,
}

pub record MarketMetadata : Type 0 where
  pub symbol : String
  pub dataset_checksum : String
  pub schema_version : String

-- a row of the predictions
pub record Prediction : Type 0 where
  pub session : ℕ
  pub probability_positive : Decimal

-- the fields of `FinalTestEvaluation` that the policy reads
pub record Evaluation : Type 0 where
  pub selected_model_name : String
  pub source_checksum : String
  pub source_schema : String
  pub feature_schema : String
  pub label_schema : String
  pub model_schema : String
  pub columns : List String
  pub split : ChronologicalSplitSpec
  pub sklearn_version : String
  pub predictions : List Prediction

-- the lineage checks of `build_long_cash_strategy_signals`
unfoldable pub check_market : Evaluation → MarketMetadata → List ℕ → Result (Unit {0})
check_market evaluation metadata market_sessions = do
  raise_if (not (str_eq metadata.symbol "SPY")) (strategy_input "invalid_market_symbol")
  raise_if (not (str_eq metadata.dataset_checksum evaluation.source_checksum))
      (strategy_input "source_checksum_mismatch")
  raise_if
      (not (str_eq metadata.schema_version market_data_schema_version)
        || not (str_eq metadata.schema_version evaluation.source_schema))
      (strategy_input "source_schema_mismatch")
  raise_if (not (str_eq evaluation.label_schema label_schema_version))
      (strategy_input "label_schema_mismatch")
  raise_if (repeats market_sessions || not (is_sorted market_sessions))
      (strategy_input "invalid_market_sessions")

-- `market_sessions[index]`
unfoldable pub get_elem? : List ℕ → ℕ → Option ℕ
get_elem? [] i = none
get_elem? (s ∷ rest) zero = some s
get_elem? (s ∷ rest) (suc i) = get_elem? rest i

-- the session after the signal's, or the raise
unfoldable pub following_session : List ℕ → Option ℕ → Result ℕ
following_session market none = err (strategy_input "prediction_session_missing_from_market_data")
following_session market (some index) = elim (get_elem? market (suc index)) [
  | none ↦ err (strategy_input "missing_following_execution_session")
  | some session ↦ ok session
]

-- the body of the loop
unfoldable pub signal_of : Evaluation → List ℕ → Prediction → Result SignalRow
signal_of evaluation market row = do
  execution_session ← following_session market (market_index row.session market)
  raise_if (ltb evaluation.split.test_end_session execution_session)
      (strategy_input "execution_session_outside_test_split")
  raise_if (ltb row.session evaluation.split.test_start_session)
      (strategy_input "signal_session_outside_test_split")
  ok (record {
    signal_session = row.session;
    execution_session = execution_session;
    probability_positive = row.probability_positive;
    target_position = target_of strategy_long_probability_threshold row.probability_positive;
  })

unfoldable pub signals_of : Evaluation → List ℕ → List Prediction → Result (List SignalRow)
signals_of evaluation market [] = ok []
signals_of evaluation market (row ∷ rows) =
    let rest = signals_of evaluation market rows in
    do signal ← signal_of evaluation market row; signals ← rest; ok (signal ∷ signals)

-- `sessions.iloc[0]` and `sessions.iloc[-1]`
unfoldable pub located : Option ℕ → Result ℕ
located none = err other_exception
located (some session) = ok session

-- the set of the rows, with the ends of their sessions
abbrev pub set_of : Evaluation → List ℕ → List SignalRow → ℕ → ℕ → ℕ → ℕ → StrategySignalSet
set_of evaluation market_sessions rows first_signal last_signal first_execution last_execution =
    record {
      rows = rows;
      selected_model_name = evaluation.selected_model_name;
      strategy_threshold = strategy_long_probability_threshold;
      source_checksum = evaluation.source_checksum;
      source_schema = evaluation.source_schema;
      feature_schema = evaluation.feature_schema;
      label_schema = evaluation.label_schema;
      model_schema = evaluation.model_schema;
      strategy_schema = strategy_schema_version;
      columns = evaluation.columns;
      split = evaluation.split;
      market_sessions = market_sessions;
      first_signal_session = first_signal;
      last_signal_session = last_signal;
      first_execution_session = first_execution;
      last_execution_session = last_execution;
      row_count = pos (length rows);
      sklearn_version = evaluation.sklearn_version;
    }

-- the construction of the set, which reads the ends of the signals first
unfoldable pub signal_set : String → Evaluation → List ℕ → List SignalRow → Result StrategySignalSet
unfolding located
signal_set runtime_version evaluation market_sessions rows = do
  first_signal ← located (first (map (λ (r : SignalRow). r.signal_session) rows))
  last_signal ← located (last (map (λ (r : SignalRow). r.signal_session) rows))
  first_execution ← located (first (map (λ (r : SignalRow). r.execution_session) rows))
  last_execution ← located (last (map (λ (r : SignalRow). r.execution_session) rows))
  make_strategy_signal_set runtime_version (
      set_of evaluation market_sessions rows first_signal last_signal first_execution
        last_execution)

unfoldable pub build_long_cash_strategy_signals :
    String → Evaluation → MarketMetadata → List ℕ → Result StrategySignalSet
build_long_cash_strategy_signals runtime_version evaluation metadata market_sessions = do
  check_market evaluation metadata market_sessions
  rows ← signals_of evaluation market_sessions evaluation.predictions
  signal_set runtime_version evaluation market_sessions rows
