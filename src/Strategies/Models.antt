-- ===== src/Strategies/Models.antt =====
-- strategies/models.py: the set of signals, which its `__post_init__` validates. A probability is the
-- decimal value of its float. The type checks and the time of creation are left out; the version of
-- scikit-learn that runs is an argument.
use spy_market_agent.Prelude.{
  ℕ, suc, String, Bool, true, false, not, ◌&&◌, ◌||◌, List, [], ◌∷◌, map, Option, none, some, any,
  ltb, leb, ◌==◌, str_eq, length, if◌then◌else◌, Result, ok, err, raise_if, ◌>>◌, strategy_input,
}
use spy_market_agent.Prelude.Int.{ℤ, pos, leb_ℤ, eqb_ℤ}
use spy_market_agent.Prelude.Sessions.{first, last, is_same, repeats, is_sorted}
use spy_market_agent.Decimal
use spy_market_agent.Decimal.{Decimal, zero_decimal, one_decimal}
use spy_market_agent.Text.{is_sha256, has_text}
use spy_market_agent.Datasets.Spec.{ChronologicalSplitSpec}

abbrev pub strategy_schema_version : String
strategy_schema_version = "spy-long-cash-strategy-v1"

-- 0.5
abbrev pub strategy_long_probability_threshold : Decimal
strategy_long_probability_threshold = record { coefficient = pos 5; scale = 1 }

abbrev pub market_data_schema_version : String
market_data_schema_version = "spy-daily-ohlcv-v1"

abbrev pub feature_schema_version : String
feature_schema_version = "spy-daily-features-v1"

abbrev pub label_schema_version : String
label_schema_version = "spy-open-t1-to-open-t6-net-positive-v1"

abbrev pub model_schema_version : String
model_schema_version = "spy-binary-models-v1"

abbrev pub model_names : List String
model_names = "logistic_regression" ∷ "gradient_boosting" ∷ []

abbrev pub feature_columns : List String
feature_columns =
    "close_return_1d" ∷ "close_return_5d" ∷ "close_return_20d" ∷ "overnight_gap_1d"
    ∷ "intraday_return_1d" ∷ "range_pct_1d" ∷ "close_to_sma_5" ∷ "close_to_sma_20"
    ∷ "realized_volatility_5" ∷ "realized_volatility_20" ∷ "log_volume_change_1d"
    ∷ "log_volume_deviation_20" ∷ []

unfoldable pub same_names : List String → List String → Bool
same_names [] [] = true
same_names (a ∷ as') (b ∷ bs) = str_eq a b && same_names as' bs
same_names _ _ = false

-- a row of the signals
pub record SignalRow : Type 0 where
  pub signal_session : ℕ
  pub execution_session : ℕ
  pub probability_positive : Decimal
  pub target_position : ℤ

pub record StrategySignalSet : Type 0 where
  pub rows : List SignalRow
  pub selected_model_name : String
  pub strategy_threshold : Decimal
  pub source_checksum : String
  pub source_schema : String
  pub feature_schema : String
  pub label_schema : String
  pub model_schema : String
  pub strategy_schema : String
  pub columns : List String
  pub split : ChronologicalSplitSpec
  pub market_sessions : List ℕ
  pub first_signal_session : ℕ
  pub last_signal_session : ℕ
  pub first_execution_session : ℕ
  pub last_execution_session : ℕ
  pub row_count : ℤ
  pub sklearn_version : String

-- `market_index.get(session)`, for sessions without repetition
unfoldable pub market_index : ℕ → List ℕ → Option ℕ
market_index session [] = none
market_index session (s ∷ rest) =
    let later = market_index session rest in
    if s == session then some 0 else elim later [ none ↦ none | some i ↦ some (suc i) ]

unfoldable pub validate_strictly_increasing : List ℕ → String → String → Result (Unit {0})
validate_strictly_increasing values duplicate_code unordered_code = do
  raise_if (repeats values) (strategy_input duplicate_code)
  raise_if (not (is_sorted values)) (strategy_input unordered_code)

-- `market_index[execution_session] != market_index[signal_session] + 1`, after the test that both are
-- there
unfoldable pub check_adjacent : Option ℕ → Option ℕ → Result (Unit {0})
check_adjacent (some i) (some j) =
    raise_if (not (j == suc i)) (strategy_input "non_adjacent_execution_session")
check_adjacent _ _ = err (strategy_input "signal_session_missing_from_market_sessions")

unfoldable pub check_sessions : List ℕ → List SignalRow → Result (Unit {0})
check_sessions market [] = ok tt
check_sessions market (r ∷ rows) =
    let rest = check_sessions market rows in
    do
      raise_if (leb r.execution_session r.signal_session)
          (strategy_input "same_candle_or_backward_execution")
      check_adjacent (market_index r.signal_session market)
          (market_index r.execution_session market)
      rest

abbrev pub target_of : Decimal → Decimal → ℤ
target_of threshold probability = if Decimal.le threshold probability then pos 1 else pos 0

unfoldable pub check_targets : Decimal → List SignalRow → Result (Unit {0})
check_targets threshold [] = ok tt
check_targets threshold (r ∷ rows) =
    let rest = check_targets threshold rows in
    do
      raise_if
          (Decimal.lt r.probability_positive zero_decimal
            || Decimal.lt one_decimal r.probability_positive)
          (strategy_input "probability_out_of_bounds")
      raise_if (not (eqb_ℤ r.target_position (pos 0) || eqb_ℤ r.target_position (pos 1)))
          (strategy_input "invalid_target_position_value")
      raise_if (not (eqb_ℤ r.target_position (target_of threshold r.probability_positive)))
          (strategy_input "target_position_threshold_mismatch")
      rest

-- the constants that the set carries
unfoldable pub check_lineage : StrategySignalSet → Result (Unit {0})
check_lineage s = do
  raise_if (not (any (str_eq s.selected_model_name) model_names))
      (strategy_input "invalid_selected_model_name")
  raise_if (not (Decimal.eq s.strategy_threshold strategy_long_probability_threshold))
      (strategy_input "invalid_strategy_threshold")
  raise_if (not (is_sha256 s.source_checksum))
      (strategy_input "invalid_source_market_data_checksum")
  raise_if (not (str_eq s.source_schema market_data_schema_version))
      (strategy_input "invalid_source_schema_version")
  raise_if (not (str_eq s.feature_schema feature_schema_version))
      (strategy_input "invalid_feature_schema_version")
  raise_if (not (str_eq s.label_schema label_schema_version))
      (strategy_input "invalid_label_schema_version")
  raise_if (not (str_eq s.model_schema model_schema_version))
      (strategy_input "invalid_model_schema_version")
  raise_if (not (str_eq s.strategy_schema strategy_schema_version))
      (strategy_input "invalid_strategy_schema_version")
  raise_if (not (same_names s.columns feature_columns)) (strategy_input "invalid_feature_columns")

-- the market sessions, the counts and the ends of the signals
unfoldable pub check_bounds : StrategySignalSet → Result (Unit {0})
check_bounds s =
    let signals = map (λ (r : SignalRow). r.signal_session) s.rows in
    let executions = map (λ (r : SignalRow). r.execution_session) s.rows in
    do
      raise_if (not (eqb_ℤ (pos (length s.rows)) s.row_count))
          (strategy_input "signal_row_count_mismatch")
      validate_strictly_increasing signals "duplicate_signal_sessions" "unordered_signal_sessions"
      validate_strictly_increasing executions "duplicate_execution_sessions"
          "unordered_execution_sessions"
      raise_if
          (not (is_same (first signals) (some s.first_signal_session))
            || not (is_same (last signals) (some s.last_signal_session)))
          (strategy_input "signal_session_bounds_mismatch")
      raise_if
          (not (is_same (first executions) (some s.first_execution_session))
            || not (is_same (last executions) (some s.last_execution_session)))
          (strategy_input "execution_session_bounds_mismatch")

-- the test split around the signals and the executions
unfoldable pub check_split : StrategySignalSet → Result (Unit {0})
check_split s =
    raise_if
      (ltb s.first_signal_session s.split.test_start_session
        || ltb s.split.test_end_session s.last_signal_session
        || ltb s.first_execution_session s.split.test_start_session
        || ltb s.split.test_end_session s.last_execution_session)
      (strategy_input "signal_split_bounds_mismatch")

unfoldable pub make_strategy_signal_set : String → StrategySignalSet → Result StrategySignalSet
make_strategy_signal_set runtime_version s = do
  check_lineage s
  raise_if (length s.market_sessions == 0) (strategy_input "invalid_market_sessions")
  validate_strictly_increasing s.market_sessions "duplicate_market_sessions"
      "unordered_market_sessions"
  raise_if (leb_ℤ s.row_count (pos 0)) (strategy_input "invalid_row_count")
  raise_if (not (has_text s.sklearn_version) || not (str_eq s.sklearn_version runtime_version))
      (strategy_input "invalid_sklearn_version")
  check_bounds s
  check_sessions s.market_sessions s.rows
  check_split s
  check_targets s.strategy_threshold s.rows
  ok s
