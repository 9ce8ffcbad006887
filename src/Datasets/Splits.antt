-- ===== src/Datasets/Splits.antt =====
-- datasets/splits.py: `split_supervised_dataset`. A mask over the rows is a list of Booleans.
use spy_market_agent.Prelude.{
  ℕ, suc, String, Bool, not, ◌&&◌, List, [], ◌∷◌, map, Option, none, some, any, ltb, leb, ◌==◌,
  length, if◌then◌else◌, Result, ok, err, raise_if, ◌>>◌, ◌>>=◌, dataset_split, empty_split,
  other_exception,
}
use spy_market_agent.Prelude.Sessions.{first, last}
use spy_market_agent.Datasets.Spec.{ChronologicalSplitSpec}
use spy_market_agent.Datasets.Timeline.{
  LabelRow, sessions, exit_sessions, prefixed, validate_strictly_increasing_sessions,
  validate_label_timeline,
}
use spy_market_agent.Datasets.Partitions.{
  make_partition_metadata, Bounds, same_sessions, DatasetPartition, make_dataset_partition,
  ChronologicalPartitions, make_chronological_partitions,
}

pub record SupervisedDataset : Type 0 where
  pub features : List ℕ
  pub labels : List LabelRow

abbrev pub is_candidate : Bounds → LabelRow → Bool
is_candidate b r = leb b.start_session r.session && leb r.session b.end_session

-- `crossing_mask` and `included_mask`, at one row
abbrev pub is_crossing : Bounds → LabelRow → Bool
is_crossing b r = is_candidate b r && ltb b.end_session r.exit_session

abbrev pub is_included : Bounds → LabelRow → Bool
is_included b r =
    leb b.start_session r.session
    && (leb r.session b.end_session && leb r.exit_session b.end_session)

-- `frame.loc[mask]`
unfoldable pub select {ℓ} : {A : Type ℓ} → List Bool → List A → List A
select (m ∷ mask) (x ∷ xs) = let rest = select mask xs in if m then x ∷ rest else rest
select _ _ = []

-- `int(mask.sum())`
unfoldable pub count : List Bool → ℕ
count [] = 0
count (m ∷ mask) = let rest = count mask in if m then suc rest else rest

-- `sessions[0]` and `sessions[-1]`, where there are none
unfoldable pub session_at : Option ℕ → Result ℕ
session_at none = err other_exception
session_at (some s) = ok s

-- the partition of the selected rows, after the checks of `_build_partition`
unfoldable pub partition_of :
    String → ChronologicalSplitSpec → ℕ → List ℕ → List LabelRow → Result DatasetPartition
unfolding session_at
partition_of name spec excluded features labels = do
  first_feature ← session_at (first features)
  last_feature ← session_at (last features)
  first_exit ← session_at (first (exit_sessions labels))
  last_exit ← session_at (last (exit_sessions labels))
  metadata ← make_partition_metadata (record {
    name = name;
    included_row_count = length features;
    first_feature_session = first_feature;
    last_feature_session = last_feature;
    first_exit_session = first_exit;
    last_exit_session = last_exit;
    rows_excluded_boundary_crossing = excluded;
    split = spec;
  })
  make_dataset_partition (record { features = features; labels = labels; metadata = metadata })

-- the checks of `_build_partition` on the selected rows
unfoldable pub check_selected : String → Bounds → List ℕ → List LabelRow → Result (Unit {0})
check_selected name b features labels = do
  raise_if (length features == 0) (empty_split (prefixed "empty_" (prefixed name "_partition")))
  validate_strictly_increasing_sessions dataset_split features
      (prefixed name "_duplicate_feature_sessions") (prefixed name "_unordered_feature_sessions")
  validate_label_timeline dataset_split (prefixed name "_") labels
  raise_if (any (λ s. ltb b.end_session s) features)
      (dataset_split (prefixed name "_feature_after_end"))
  raise_if (any (λ s. ltb b.end_session s) (exit_sessions labels))
      (dataset_split (prefixed name "_exit_boundary_crossing"))
  raise_if (any (λ s. ltb s b.start_session) features)
      (dataset_split (prefixed name "_feature_before_start"))
  raise_if (not (same_sessions features (sessions labels)))
      (dataset_split (prefixed name "_partition_alignment_failed"))

unfoldable pub build_partition :
    SupervisedDataset → ChronologicalSplitSpec → String → Bounds → Result DatasetPartition
build_partition dataset spec name b =
    let included = map (is_included b) dataset.labels in
    let features = select included dataset.features in
    let labels = select included dataset.labels in
    do
      check_selected name b features labels
      partition_of name spec (count (map (is_crossing b) dataset.labels)) features labels

abbrev pub train_bounds : ChronologicalSplitSpec → Bounds
train_bounds s = record { start_session = s.train_start_session; end_session = s.train_end_session }

abbrev pub validation_bounds : ChronologicalSplitSpec → Bounds
validation_bounds s = record {
  start_session = s.validation_start_session;
  end_session = s.validation_end_session;
}

abbrev pub test_bounds : ChronologicalSplitSpec → Bounds
test_bounds s = record { start_session = s.test_start_session; end_session = s.test_end_session }

unfoldable pub split_supervised_dataset :
    SupervisedDataset → ChronologicalSplitSpec → Result ChronologicalPartitions
split_supervised_dataset dataset spec = do
  train ← build_partition dataset spec "train" (train_bounds spec)
  validation ← build_partition dataset spec "validation" (validation_bounds spec)
  test ← build_partition dataset spec "test" (test_bounds spec)
  make_chronological_partitions
      (record { train = train; validation = validation; test = test; split = spec })
