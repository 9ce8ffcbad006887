-- ===== src/Tests/Signals.antt =====
-- strategies: two predictions over four market sessions.
use spy_market_agent.Prelude.{◌≡◌, refl, List, [], ◌∷◌, ◌++◌, ℕ, ok}
use spy_market_agent.Prelude.Int.{pos}
use spy_market_agent.Prelude.Sessions.{repeats, is_sorted}
use spy_market_agent.Decimal
use spy_market_agent.Decimal.{Decimal}
use spy_market_agent.Text.{is_sha256, has_text}
use spy_market_agent.Strategies.Models.{
  StrategySignalSet, make_strategy_signal_set, market_index, validate_strictly_increasing,
  check_adjacent, check_sessions, check_targets, check_lineage, check_bounds, check_split,
  same_names, feature_columns, market_data_schema_version, feature_schema_version,
  label_schema_version, model_schema_version,
}
use spy_market_agent.Strategies.Policy.{
  Evaluation, MarketMetadata, check_market, get_elem?, following_session, signal_of, signals_of,
  located, signal_set, build_long_cash_strategy_signals,
}
use spy_market_agent.Strategies.Signals.{IsSignalSet, make_strategy_signal_set-IsSignalSet}
use spy_market_agent.Strategies.Causal.{
  IsBuilt, build_long_cash_strategy_signals-IsBuilt, signals_of-append,
}

unfoldable signalled : Unit {0}
unfolding repeats is_sorted is_sha256 has_text make_strategy_signal_set market_index
    validate_strictly_increasing check_adjacent check_sessions check_targets check_lineage
    check_bounds check_split same_names check_market get_elem? following_session signal_of
    signals_of located signal_set build_long_cash_strategy_signals Decimal.lt Decimal.le Decimal.eq
signalled = tt

abbrev evaluation : Evaluation
evaluation = record {
  selected_model_name = "logistic_regression";
  source_checksum = "0123456789abcdef0123456789abcdef0123456789abcdef0123456789abcdef";
  source_schema = market_data_schema_version;
  feature_schema = feature_schema_version;
  label_schema = label_schema_version;
  model_schema = model_schema_version;
  columns = feature_columns;
  split = record {
    train_start_session = 1;
    train_end_session = 2;
    validation_start_session = 3;
    validation_end_session = 4;
    test_start_session = 5;
    test_end_session = 9;
  };
  sklearn_version = "1.5.0";
  predictions =
      record { session = 5; probability_positive = record { coefficient = pos 61; scale = 2 } }
      ∷ record { session = 7; probability_positive = record { coefficient = pos 49; scale = 2 } }
      ∷ [];
}

abbrev metadata : MarketMetadata
metadata = record {
  symbol = "SPY";
  dataset_checksum = evaluation.source_checksum;
  schema_version = market_data_schema_version;
}

abbrev market : List ℕ
market = 5 ∷ 6 ∷ 7 ∷ 9 ∷ []

abbrev built : StrategySignalSet
built = record {
  rows =
      record {
        signal_session = 5;
        execution_session = 6;
        probability_positive = record { coefficient = pos 61; scale = 2 };
        target_position = pos 1;
      }
      ∷ record {
        signal_session = 7;
        execution_session = 9;
        probability_positive = record { coefficient = pos 49; scale = 2 };
        target_position = pos 0;
      }
      ∷ [];
  selected_model_name = "logistic_regression";
  strategy_threshold = record { coefficient = pos 5; scale = 1 };
  source_checksum = evaluation.source_checksum;
  source_schema = market_data_schema_version;
  feature_schema = feature_schema_version;
  label_schema = label_schema_version;
  model_schema = model_schema_version;
  strategy_schema = "spy-long-cash-strategy-v1";
  columns = feature_columns;
  split = evaluation.split;
  market_sessions = market;
  first_signal_session = 5;
  last_signal_session = 7;
  first_execution_session = 6;
  last_execution_session = 9;
  row_count = pos 2;
  sklearn_version = "1.5.0";
}

builds : build_long_cash_strategy_signals "1.5.0" evaluation metadata market ≡ ok built
unfolding signalled
builds = refl

build_long_cash_strategy_signals-IsBuilt_example : IsBuilt evaluation market built
build_long_cash_strategy_signals-IsBuilt_example =
    build_long_cash_strategy_signals-IsBuilt "1.5.0" evaluation metadata market builds

made : make_strategy_signal_set "1.5.0" built ≡ ok built
unfolding signalled
made = refl

make_strategy_signal_set-IsSignalSet_example : IsSignalSet built
make_strategy_signal_set-IsSignalSet_example =
    make_strategy_signal_set-IsSignalSet "1.5.0" built made

signals : signals_of evaluation market evaluation.predictions ≡ ok built.rows
unfolding signalled
signals = refl

signals_of-append_example :
    signals_of evaluation (market ++ (10 ∷ 11 ∷ [])) evaluation.predictions ≡ ok built.rows
signals_of-append_example =
    signals_of-append evaluation market (10 ∷ 11 ∷ []) evaluation.predictions signals
