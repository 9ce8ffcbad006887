-- ===== src/Research/Folds.antt =====
-- research/folds.py: the expanding-window folds. A row of the supervised labels is its sessions and
-- its target; `features` counts its rows only.
use spy_market_agent.Prelude.{
  ℕ, zero, suc, String, Bool, true, false, not, ◌||◌, List, [], ◌∷◌, map, Option, none, some, ◌-◌,
  ◌+◌, ltb, ◌==◌, str_eq, length, take, drop, if◌then◌else◌, Result, ok, err, raise_if, ◌>>◌, ◌>>=◌,
  walk_forward_split,
}
use spy_market_agent.Prelude.Int.{ℤ, pos, ◌+ℤ◌, ◌-ℤ◌, ltb_ℤ, leb_ℤ, pos_part}
use spy_market_agent.Prelude.Sessions.{is_increasing, first, last, is_before, is_same}
pub use spy_market_agent.Datasets.Timeline.{LabelRow}
use spy_market_agent.Research.Windows.{
  boundary_exclusion_sessions, FoldPolicy, SessionWindow, make_session_window, WalkForwardFold,
  make_walk_forward_fold, WalkForwardManifest, make_walk_forward_manifest,
}
use spy_market_agent.Research.Isolation.{validate_phase2_final_test_isolation}

pub record DatasetLineage : Type 0 where
  pub dataset_id : String
  pub canonical_dataset_checksum : String
  pub first_session : ℕ
  pub last_session : ℕ

pub record Supervised : Type 0 where
  pub source_market_data_checksum : String
  pub first_session : ℕ
  pub last_session : ℕ
  pub feature_rows : ℕ
  pub labels : List LabelRow

abbrev sessions_of : (LabelRow → ℕ) → List LabelRow → List ℕ
sessions_of field rows = map field rows

unfoldable pub validated_labels : Supervised → DatasetLineage → Result (List LabelRow)
validated_labels supervised lineage = do
  raise_if (not (str_eq supervised.source_market_data_checksum lineage.canonical_dataset_checksum))
      (walk_forward_split "dataset_checksum_mismatch")
  raise_if (ltb supervised.first_session lineage.first_session)
      (walk_forward_split "supervised_before_dataset_range")
  raise_if (ltb lineage.last_session supervised.last_session)
      (walk_forward_split "supervised_after_dataset_range")
  raise_if (not (supervised.feature_rows == length supervised.labels))
      (walk_forward_split "supervised_row_count_mismatch")
  raise_if (not (is_increasing (map (λ (r : LabelRow). r.session) supervised.labels)))
      (walk_forward_split "invalid_supervised_sessions")
  ok supervised.labels

-- `int(labels["target"].sum())`
unfoldable pub positives : List LabelRow → ℕ
positives [] = 0
positives (r ∷ rs) = r.target + positives rs

-- the window of the rows
abbrev pub window_of : List LabelRow → SessionWindow
window_of rows = record {
  prediction_sessions = map (λ (r : LabelRow). r.session) rows;
  entry_sessions = map (λ (r : LabelRow). r.entry_session) rows;
  exit_sessions = map (λ (r : LabelRow). r.exit_session) rows;
  positive_count = pos (positives rows);
  negative_count = pos (length rows) -ℤ pos (positives rows);
}

-- `_session_window`, with the codes of its name and the least number of rows
unfoldable pub session_window : List LabelRow → String → String → ℤ → Result SessionWindow
session_window rows empty_code short_code minimum = do
  raise_if (length rows == 0) (walk_forward_split empty_code)
  raise_if (ltb_ℤ (pos (length rows)) minimum) (walk_forward_split short_code)
  make_session_window (window_of rows)

unfoldable pub require_two_classes : SessionWindow → String → Result (Unit {0})
require_two_classes window code =
    raise_if (leb_ℤ window.positive_count (pos 0) || leb_ℤ window.negative_count (pos 0))
      (walk_forward_split code)

-- `if policy.require_two_classes_per_fold:`
unfoldable pub check_classes : FoldPolicy → SessionWindow → SessionWindow → Result (Unit {0})
unfolding require_two_classes
check_classes policy training assessment =
    if policy.require_two_classes_per_fold
    then (do
      require_two_classes training "training_window_single_class"
      require_two_classes assessment "assessment_window_single_class")
    else ok tt

-- `_build_fold`, on the rows of its three slices
unfoldable pub build_fold :
    FoldPolicy → ℕ → List LabelRow → List LabelRow → List LabelRow → Result WalkForwardFold
build_fold policy fold_index train_labels boundary_labels assessment_labels =
    let boundary = map (λ (r : LabelRow). r.session) boundary_labels in
    do
      raise_if (not (length boundary_labels == boundary_exclusion_sessions))
          (walk_forward_split "boundary_exclusion_size_mismatch")
      training ←
          session_window train_labels "empty_training_window" "training_window_too_short"
            policy.minimum_initial_training_rows
      assessment ←
          session_window assessment_labels "empty_assessment_window" "assessment_window_too_short"
            policy.minimum_final_assessment_rows
      check_classes policy training assessment
      raise_if (not (is_same (last training.exit_sessions) (last boundary)))
          (walk_forward_split "label_horizon_purge_mismatch")
      raise_if
          (not (is_before (last training.exit_sessions) (first assessment.prediction_sessions)))
          (walk_forward_split "training_label_crosses_assessment")
      make_walk_forward_fold (record {
        fold_index = fold_index;
        training = training;
        boundary_excluded_sessions = boundary;
        assessment = assessment;
      })

-- a bound of a slice of `count` rows: below zero it counts from the end
abbrev pub slice_bound : ℕ → ℤ → ℕ
slice_bound count bound =
    if ltb_ℤ bound (pos 0) then pos_part (pos count +ℤ bound) else pos_part bound

-- `labels.iloc[start:end]`
abbrev pub rows_between : ℤ → ℤ → List LabelRow → List LabelRow
rows_between start end labels =
    let from_row = slice_bound (length labels) start in
    take (slice_bound (length labels) end - from_row) (drop from_row labels)

abbrev pub min_ℤ : ℤ → ℤ → ℤ
min_ℤ a b = if ltb_ℤ b a then b else a

-- the numbers of one round of the loop
abbrev pub assessment_start_of : FoldPolicy → ℤ → ℤ
assessment_start_of policy train_end = train_end +ℤ policy.boundary_sessions

abbrev pub remaining_of : FoldPolicy → ℤ → List LabelRow → ℤ
remaining_of policy train_end labels = pos (length labels) -ℤ assessment_start_of policy train_end

-- the fold of one round
abbrev pub fold_at : FoldPolicy → List LabelRow → ℕ → ℤ → Result WalkForwardFold
fold_at policy labels fold_index train_end =
    let start = assessment_start_of policy train_end in
    let rows = min_ℤ policy.assessment_window_rows (remaining_of policy train_end labels) in
    build_fold policy fold_index (rows_between (pos 0) train_end labels)
      (rows_between train_end start labels) (rows_between start (start +ℤ rows) labels)

-- a fold before those of the later rounds
unfoldable pub before_rest :
    WalkForwardFold
    → Option (Result (List WalkForwardFold))
    → Option (Result (List WalkForwardFold))
before_rest fold none = none
before_rest fold (some (err e)) = some (err e)
before_rest fold (some (ok folds)) = some (ok (fold ∷ folds))

-- one round of the loop, before the later ones: whether too few rows remain, and the fold
unfoldable pub fold_round :
    Bool
    → Result WalkForwardFold
    → Option (Result (List WalkForwardFold))
    → Option (Result (List WalkForwardFold))
fold_round true fold rest = some (ok [])
fold_round false (err e) rest = some (err e)
fold_round false (ok fold) rest = before_rest fold rest

-- `while True`, on fuel; `none` is a loop that goes on
unfoldable pub fold_loop :
    ℕ → FoldPolicy → List LabelRow → ℕ → ℤ → Option (Result (List WalkForwardFold))
fold_loop zero policy labels fold_index train_end = none
fold_loop (suc fuel) policy labels fold_index train_end =
    fold_round (ltb_ℤ (remaining_of policy train_end labels) policy.minimum_final_assessment_rows)
      (fold_at policy labels fold_index train_end)
      (fold_loop fuel policy labels (suc fold_index) (train_end +ℤ policy.step_rows))

-- the manifest of the folds, once the loop has ended
unfoldable pub manifest_of :
    ℕ → Option (Result (List WalkForwardFold)) → Option (Result WalkForwardManifest)
manifest_of row_count none = none
manifest_of row_count (some (err e)) = some (err e)
manifest_of row_count (some (ok folds)) =
    some (make_walk_forward_manifest (record { supervised_row_count = row_count; folds = folds }))

-- the loop behind its guard, with a round for each row and one more
unfoldable pub walk_labels :
    FoldPolicy → Result (List LabelRow) → Option (Result WalkForwardManifest)
walk_labels policy (err e) = some (err e)
walk_labels policy (ok labels) =
    let walked =
      fold_loop (suc (length labels)) policy labels 0 policy.minimum_initial_training_rows in
    if ltb_ℤ (remaining_of policy policy.minimum_initial_training_rows labels)
      policy.minimum_final_assessment_rows
    then some (err (walk_forward_split "insufficient_walk_forward_rows"))
    else manifest_of (length labels) walked

unfoldable pub construct_walk_forward_manifest :
    Supervised → DatasetLineage → FoldPolicy → Option (Result WalkForwardManifest)
construct_walk_forward_manifest supervised lineage policy = walk_labels policy (do
  validate_phase2_final_test_isolation (lineage.dataset_id ∷ [])
  validated_labels supervised lineage)
