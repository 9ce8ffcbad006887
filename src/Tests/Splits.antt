-- ===== src/Tests/Splits.antt =====
-- datasets/splits.py: thirty rows in three partitions of ten sessions.
use spy_market_agent.Prelude.{◌≡◌, refl, ok, err, ℕ, zero, suc, ◌+◌, ◌%◌, List, [], ◌∷◌}
use spy_market_agent.Prelude.Sessions.{repeats, is_sorted}
use spy_market_agent.Datasets.Spec.{ChronologicalSplitSpec, make_chronological_split_spec}
use spy_market_agent.Datasets.Timeline.{
  LabelRow, sessions, validate_strictly_increasing_sessions, check_rows, check_offset,
  validate_label_timeline,
}
use spy_market_agent.Datasets.Partitions.{
  make_partition_metadata, partition_bounds, same_sessions, DatasetPartition, check_inside,
  check_metadata, make_dataset_partition, same_spec, check_partition, ChronologicalPartitions,
  make_chronological_partitions,
}
use spy_market_agent.Datasets.Splits.{
  SupervisedDataset, select, count, session_at, partition_of, check_selected, build_partition,
  split_supervised_dataset,
}
use spy_market_agent.Datasets.Chronology.{IsSplit, split_supervised_dataset-IsSplit}

unfoldable divided : Unit {0}
unfolding repeats is_sorted make_chronological_split_spec validate_strictly_increasing_sessions
    check_rows check_offset validate_label_timeline make_partition_metadata partition_bounds
    same_sessions check_inside check_metadata make_dataset_partition same_spec check_partition
    make_chronological_partitions select count session_at partition_of check_selected
    build_partition split_supervised_dataset
divided = tt

abbrev row : ℕ → LabelRow
row n = record { session = n; entry_session = n + 1; exit_session = n + 6; target = n % 2 }

abbrev rows_from : ℕ → ℕ → List LabelRow
rows_from zero n = []
rows_from (suc count) n = row n ∷ rows_from count (n + 1)

abbrev dataset : SupervisedDataset
dataset = record { features = sessions (rows_from 30 0); labels = rows_from 30 0 }

abbrev spec : ChronologicalSplitSpec
spec = record {
  train_start_session = 0;
  train_end_session = 9;
  validation_start_session = 10;
  validation_end_session = 19;
  test_start_session = 20;
  test_end_session = 29;
}

abbrev no_partition : DatasetPartition
no_partition = record {
  features = [];
  labels = [];
  metadata = record {
    name = "";
    included_row_count = 0;
    first_feature_session = 0;
    last_feature_session = 0;
    first_exit_session = 0;
    last_exit_session = 0;
    rows_excluded_boundary_crossing = 0;
    split = spec;
  };
}

abbrev partitions : ChronologicalPartitions
partitions = elim (split_supervised_dataset dataset spec) [
  | ok c ↦ c
  | err _ ↦ record {
    train = no_partition;
    validation = no_partition;
    test = no_partition;
    split = spec;
  }
]

purged : partitions.train.metadata.rows_excluded_boundary_crossing ≡ 6
unfolding divided
purged = refl

spec_valid : make_chronological_split_spec spec ≡ ok spec
unfolding divided
spec_valid = refl

splits : split_supervised_dataset dataset spec ≡ ok partitions
unfolding divided
splits = refl

split_supervised_dataset-IsSplit_example : IsSplit dataset spec partitions
split_supervised_dataset-IsSplit_example =
    split_supervised_dataset-IsSplit dataset spec spec_valid splits
