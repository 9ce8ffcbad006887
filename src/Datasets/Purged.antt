-- ===== src/Datasets/Purged.antt =====
-- A partition of datasets/splits.py has the rows that lie inside its bounds with their labels.
use spy_market_agent.Prelude.{
  ℕ, String, ◌+◌, ◌≤◌, ◌≡◌, refl, sym, ap, subst, ◌∙◌, inl, inr, true, List, [], ◌∷◌, map, All,
  length, Option-cases, Result-cases, Bool-cases, arith, ok, ◌>>=◌,
}
use spy_market_agent.Prelude.Sessions.{first, last}
use spy_market_agent.Datasets.Spec.{ChronologicalSplitSpec}
use spy_market_agent.Datasets.Timeline.{LabelRow, sessions, exit_sessions}
use spy_market_agent.Datasets.Partitions.{
  DatasetPartitionMetadata, make_partition_metadata, Bounds, DatasetPartition,
  make_dataset_partition, same_sessions,
}
use spy_market_agent.Datasets.Splits.{
  SupervisedDataset, is_candidate, is_crossing, is_included, select, count, partition_of,
  check_selected, build_partition,
}

-- a row of a partition: predicted inside the bounds, and out again by their end
abbrev pub IsInside : Bounds → LabelRow → Type 0
IsInside b r = (b.start_session ≤ r.session) × (r.exit_session ≤ b.end_session)

-- the partition of a dataset between bounds
pub record IsPurged (dataset : SupervisedDataset) (b : Bounds) (p : DatasetPartition) : Type 0 where
  pub rows : p.labels ≡ select (map (is_included b) dataset.labels) dataset.labels
  pub features : p.features ≡ select (map (is_included b) dataset.labels) dataset.features
  pub aligned : same_sessions p.features (sessions p.labels) ≡ true
  pub inside : All (IsInside b) p.labels
  pub accounted :
      length p.labels + p.metadata.rows_excluded_boundary_crossing
      ≡ count (map (is_candidate b) dataset.labels)

selected-IsInside :
    (b : Bounds) (rows : List LabelRow) → All (IsInside b) (select (map (is_included b) rows) rows)
unfolding select
selected-IsInside b [] = tt
selected-IsInside b (r ∷ rows) = elim (Bool-cases (is_included b r)) [
  | inl kept ↦ rw kept ((ground arith, ground arith), selected-IsInside b rows)
  | inr left ↦ rw left (selected-IsInside b rows)
]

-- every candidate is included or crosses the boundary
selected-count :
    (b : Bounds) (rows : List LabelRow)
    → length (select (map (is_included b) rows) rows) + count (map (is_crossing b) rows)
      ≡ count (map (is_candidate b) rows)
unfolding select count
selected-count b [] = refl
selected-count b (r ∷ rows) = ground (arith, selected-count b rows)

make_dataset_partition-eq-ok :
    (p : DatasetPartition) {q : DatasetPartition}
    → make_dataset_partition p ≡ ok q
    → (p ≡ q) × (same_sessions p.features (sessions p.labels) ≡ true)
unfolding make_dataset_partition
make_dataset_partition-eq-ok p h = (ground arith, ground arith)

make_partition_metadata-eq-ok :
    (m : DatasetPartitionMetadata) {n : DatasetPartitionMetadata}
    → make_partition_metadata m ≡ ok n
    → m ≡ n
unfolding make_partition_metadata
make_partition_metadata-eq-ok m h = ground arith

-- the partition has the selected rows, and the count of the others
partition_of-eq-ok :
    (name : String) (spec : ChronologicalSplitSpec) (excluded : ℕ) (features : List ℕ)
    (labels : List LabelRow) {p : DatasetPartition}
    → partition_of name spec excluded features labels ≡ ok p
    → (p.features ≡ features)
      × (p.labels ≡ labels)
      × (p.metadata.rows_excluded_boundary_crossing ≡ excluded)
      × (same_sessions p.features (sessions p.labels) ≡ true)
unfolding partition_of
partition_of-eq-ok name spec excluded features labels {p} h = elim (Option-cases (first features)) [
  | inl e ↦ ground arith
  | inr (a, ea) ↦ elim (Option-cases (last features)) [
    | inl e ↦ ground arith
    | inr (b, eb) ↦ elim (Option-cases (first (exit_sessions labels))) [
      | inl e ↦ ground arith
      | inr (c, ec) ↦ elim (Option-cases (last (exit_sessions labels))) [
        | inl e ↦ ground arith
        | inr (d, ed) ↦ made a b c d (ground arith)
      ]
    ]
  ]
]
  where
    metadata_of : ℕ → ℕ → ℕ → ℕ → DatasetPartitionMetadata
    metadata_of a b c d = record {
      name = name;
      included_row_count = length features;
      first_feature_session = a;
      last_feature_session = b;
      first_exit_session = c;
      last_exit_session = d;
      rows_excluded_boundary_crossing = excluded;
      split = spec;
    }

    made :
        (a b c d : ℕ)
        → (do
          metadata ← make_partition_metadata (metadata_of a b c d)
          make_dataset_partition
              (record { features = features; labels = labels; metadata = metadata }))
          ≡ ok p
        → (p.features ≡ features)
          × (p.labels ≡ labels)
          × (p.metadata.rows_excluded_boundary_crossing ≡ excluded)
          × (same_sessions p.features (sessions p.labels) ≡ true)
    made a b c d h = elim (Result-cases (make_partition_metadata (metadata_of a b c d))) [
      | inr (x, e) ↦ ground arith
      | inl (m, e) ↦
          let kept = make_partition_metadata-eq-ok (metadata_of a b c d) e in
          let q : DatasetPartition = record {
            features = features;
            labels = labels;
            metadata = m;
          } in
          let (same, aligned) = make_dataset_partition-eq-ok q {q = p} (ground arith) in
          (
            sym (ap (λ (x : DatasetPartition). x.features) same),
            sym (ap (λ (x : DatasetPartition). x.labels) same),
            sym (ap (λ (x : DatasetPartition). x.metadata.rows_excluded_boundary_crossing) same)
                ∙ sym
                    (ap (λ (x : DatasetPartitionMetadata). x.rows_excluded_boundary_crossing) kept),
            subst (λ (x : DatasetPartition). same_sessions x.features (sessions x.labels) ≡ true)
                same aligned,
          )
    ]

pub build_partition-IsPurged :
    (dataset : SupervisedDataset) (spec : ChronologicalSplitSpec) (name : String) (b : Bounds)
    {p : DatasetPartition}
    → build_partition dataset spec name b ≡ ok p
    → IsPurged dataset b p
unfolding build_partition
build_partition-IsPurged dataset spec name b {p} h =
    let mask = map (is_included b) dataset.labels in
    let features = select mask dataset.features in
    let labels = select mask dataset.labels in
    let excluded = count (map (is_crossing b) dataset.labels) in
    elim (Result-cases (check_selected name b features labels)) [
      | inr (x, e) ↦ ground arith
      | inl (u, e) ↦
          let (f, l, x, aligned) =
            partition_of-eq-ok name spec excluded features labels {p = p} (ground arith) in
          record {
            rows = l;
            features = f;
            aligned = aligned;
            inside = subst (All (IsInside b)) (sym l) (selected-IsInside b dataset.labels);
            accounted =
                omega (arith, selected-count b dataset.labels, ap (length {A = LabelRow}) l, x);
          }
    ]
