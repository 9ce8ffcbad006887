-- ===== src/Datasets/Partitions.antt =====
-- datasets/splits.py: the records of a partition and of the three partitions, each with its
-- `__post_init__`. The feature values and the lineage that the metadata repeats are left out, and so
-- are the checks of them; of the features the sessions are kept.
use spy_market_agent.Prelude.{
  ℕ, String, Bool, true, false, not, ◌&&◌, List, [], ◌∷◌, ◌++◌, some, any, ltb, ◌==◌, str_eq,
  length, if◌then◌else◌, Result, ok, err, raise_if, ◌>>◌, ◌>>=◌, dataset_split, empty_split,
}
use spy_market_agent.Prelude.Sessions.{first, last, is_same, repeats}
use spy_market_agent.Datasets.Spec.{ChronologicalSplitSpec}
use spy_market_agent.Datasets.Timeline.{
  LabelRow, sessions, exit_sessions, prefixed, validate_strictly_increasing_sessions,
  validate_label_timeline,
}

abbrev pub partition_names : List String
partition_names = "train" ∷ "validation" ∷ "test" ∷ []

pub record DatasetPartitionMetadata : Type 0 where
  pub name : String
  pub included_row_count : ℕ
  pub first_feature_session : ℕ
  pub last_feature_session : ℕ
  pub first_exit_session : ℕ
  pub last_exit_session : ℕ
  pub rows_excluded_boundary_crossing : ℕ
  pub split : ChronologicalSplitSpec

unfoldable pub make_partition_metadata : DatasetPartitionMetadata → Result DatasetPartitionMetadata
make_partition_metadata m = do
  raise_if (not (any (str_eq m.name) partition_names)) (dataset_split "invalid_partition_name")
  raise_if (m.included_row_count == 0)
      (empty_split (prefixed "empty_" (prefixed m.name "_partition")))
  raise_if (ltb m.last_feature_session m.first_feature_session)
      (dataset_split "invalid_partition_feature_bounds")
  raise_if (ltb m.last_exit_session m.first_exit_session)
      (dataset_split "invalid_partition_exit_bounds")
  ok m

pub record Bounds : Type 0 where
  pub start_session : ℕ
  pub end_session : ℕ

unfoldable pub partition_bounds : ChronologicalSplitSpec → String → Result Bounds
partition_bounds spec name =
    if str_eq name "train"
    then ok
        (record { start_session = spec.train_start_session; end_session = spec.train_end_session })
    else if str_eq name "validation"
    then ok (record {
      start_session = spec.validation_start_session;
      end_session = spec.validation_end_session;
    })
    else if str_eq name "test"
    then ok
        (record { start_session = spec.test_start_session; end_session = spec.test_end_session })
    else err (dataset_split "invalid_partition_name")

-- `a == b` of two lists of sessions
unfoldable pub same_sessions : List ℕ → List ℕ → Bool
same_sessions [] [] = true
same_sessions (a ∷ as') (b ∷ bs) = a == b && same_sessions as' bs
same_sessions _ _ = false

pub record DatasetPartition : Type 0 where
  pub features : List ℕ
  pub labels : List LabelRow
  pub metadata : DatasetPartitionMetadata

-- the bounds of the partition around its sessions and its exits
unfoldable pub check_inside : Bounds → DatasetPartition → Result (Unit {0})
check_inside bounds p = do
  raise_if (any (λ s. ltb s bounds.start_session) p.features)
      (dataset_split "partition_feature_before_start")
  raise_if (any (λ s. ltb bounds.end_session s) p.features)
      (dataset_split "partition_feature_after_end")
  raise_if (any (λ s. ltb bounds.end_session s) (exit_sessions p.labels))
      (dataset_split "partition_exit_after_end")

-- the metadata against the data
unfoldable pub check_metadata : DatasetPartition → Result (Unit {0})
check_metadata p =
    let m = p.metadata in
    do
      raise_if (not (is_same (first p.features) (some m.first_feature_session)))
          (dataset_split "partition_first_feature_session_mismatch")
      raise_if (not (is_same (last p.features) (some m.last_feature_session)))
          (dataset_split "partition_last_feature_session_mismatch")
      raise_if (not (is_same (first (exit_sessions p.labels)) (some m.first_exit_session)))
          (dataset_split "partition_first_exit_session_mismatch")
      raise_if (not (is_same (last (exit_sessions p.labels)) (some m.last_exit_session)))
          (dataset_split "partition_last_exit_session_mismatch")

unfoldable pub make_dataset_partition : DatasetPartition → Result DatasetPartition
make_dataset_partition p = do
  raise_if (not (length p.features == length p.labels))
      (dataset_split "partition_feature_label_count_mismatch")
  raise_if (not (length p.features == p.metadata.included_row_count))
      (dataset_split "partition_metadata_count_mismatch")
  bounds ← partition_bounds p.metadata.split p.metadata.name
  validate_strictly_increasing_sessions dataset_split p.features
      "duplicate_partition_feature_sessions" "unordered_partition_feature_sessions"
  validate_label_timeline dataset_split "partition_" p.labels
  raise_if (not (same_sessions p.features (sessions p.labels)))
      (dataset_split "partition_session_mismatch")
  check_metadata p
  check_inside bounds p
  ok p

pub record ChronologicalPartitions : Type 0 where
  pub train : DatasetPartition
  pub validation : DatasetPartition
  pub test : DatasetPartition
  pub split : ChronologicalSplitSpec

-- `partition.metadata.split_spec != self.split_spec`
unfoldable pub same_spec : ChronologicalSplitSpec → ChronologicalSplitSpec → Bool
same_spec a b =
    a.train_start_session == b.train_start_session
    && a.train_end_session == b.train_end_session
    && a.validation_start_session == b.validation_start_session
    && a.validation_end_session == b.validation_end_session
    && a.test_start_session == b.test_start_session
    && a.test_end_session == b.test_end_session

unfoldable pub check_partition :
    ChronologicalSplitSpec → String → DatasetPartition → Result (Unit {0})
unfolding same_spec
check_partition spec expected_name p = do
  raise_if (not (str_eq p.metadata.name expected_name)) (dataset_split "incorrect_partition_name")
  raise_if (not (same_spec p.metadata.split spec)) (dataset_split "partition_split_spec_mismatch")

unfoldable pub make_chronological_partitions :
    ChronologicalPartitions → Result ChronologicalPartitions
unfolding check_partition
make_chronological_partitions c = do
  check_partition c.split "train" c.train
  check_partition c.split "validation" c.validation
  check_partition c.split "test" c.test
  raise_if
      (repeats (sessions c.train.labels ++ sessions c.validation.labels ++ sessions c.test.labels))
      (dataset_split "partition_session_overlap")
  ok c
