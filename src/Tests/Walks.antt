-- ===== src/Tests/Walks.antt =====
-- research/folds.py: the approved policy on a dataset of 900 rows, whose labels enter one row and
-- exit six rows later.
use spy_market_agent.Prelude.{
  ℕ, zero, suc, ◌+◌, ◌%◌, ◌≡◌, refl, List, [], ◌∷◌, some, none, ok, err, length, arith, map, Option,
  Result,
}
use spy_market_agent.Prelude.Int.{pos, negsuc, ◌+ℤ◌, ◌-ℤ◌}
use spy_market_agent.Text.{lowered, contains_codes, same_codes}
use spy_market_agent.Prelude.Sessions.{is_increasing}
use spy_market_agent.Research.Windows.{
  FoldPolicy, WalkForwardFold, default_policy, make_fold_policy, make_session_window,
  make_walk_forward_fold, WalkForwardManifest, make_walk_forward_manifest, are_contiguous,
}
use spy_market_agent.Research.Isolation.{
  validate_phase2_final_test_isolation, is_phase2_final_test_artifact_reference, normalized,
  after_last_slash,
}
use spy_market_agent.Research.Folds.{
  LabelRow, Supervised, DatasetLineage, validated_labels, positives, session_window,
  require_two_classes, check_classes, build_fold, before_rest, fold_round, fold_loop, manifest_of,
  walk_labels, construct_walk_forward_manifest,
}
use spy_market_agent.Research.Returns.{Ends, construct_walk_forward_manifest-Ends}
use spy_market_agent.Research.Walk.{Walk, construct_walk_forward_manifest-Walk}

abbrev row : ℕ → LabelRow
row n = record { session = n; entry_session = n + 1; exit_session = n + 6; target = n % 2 }

abbrev rows_from : ℕ → ℕ → List LabelRow
rows_from zero n = []
rows_from (suc count) n = row n ∷ rows_from count (n + 1)

abbrev lineage : DatasetLineage
lineage = record {
  dataset_id = "spy-daily";
  canonical_dataset_checksum = "checksum";
  first_session = 0;
  last_session = 900;
}

abbrev supervised : ℕ → Supervised
supervised count = record {
  source_market_data_checksum = "checksum";
  first_session = 0;
  last_session = 900;
  feature_rows = count;
  labels = rows_from count 0;
}

unfoldable walked : Unit {0}
unfolding ◌+ℤ◌ ◌-ℤ◌ make_fold_policy is_increasing make_session_window make_walk_forward_fold
    make_walk_forward_manifest are_contiguous validate_phase2_final_test_isolation
    is_phase2_final_test_artifact_reference normalized after_last_slash lowered contains_codes
    same_codes validated_labels positives session_window require_two_classes check_classes
    build_fold before_rest fold_round fold_loop manifest_of walk_labels
    construct_walk_forward_manifest
walked = tt

abbrev manifest : WalkForwardManifest
manifest = elim (construct_walk_forward_manifest (supervised 900) lineage default_policy) [
  | some r ↦ elim r [ ok m ↦ m | err e ↦ record { supervised_row_count = 0; folds = [] } ]
  | none ↦ record { supervised_row_count = 0; folds = [] }
]

two_folds : length manifest.folds ≡ 2
unfolding walked
two_folds = refl

constructed :
    construct_walk_forward_manifest (supervised 900) lineage default_policy ≡ some (ok manifest)
unfolding walked
constructed = refl

policy_valid : make_fold_policy default_policy ≡ ok default_policy
unfolding make_fold_policy
policy_valid = refl

construct_walk_forward_manifest-Walk_example :
    (manifest.supervised_row_count ≡ length (supervised 900).labels)
    × Walk default_policy (supervised 900).labels 0 (pos 756) manifest.folds
construct_walk_forward_manifest-Walk_example =
    construct_walk_forward_manifest-Walk (supervised 900) lineage default_policy policy_valid
      (omega arith) constructed

construct_walk_forward_manifest-Ends_example :
    Ends (construct_walk_forward_manifest (supervised 900) lineage default_policy)
construct_walk_forward_manifest-Ends_example =
    construct_walk_forward_manifest-Ends (supervised 900) lineage default_policy policy_valid

-- The validator accepts an assessment window below zero, and the slice of the rows to assess then
-- counts its end from the last row.
abbrev negative_window : FoldPolicy
negative_window = record default_policy {
  assessment_window_rows = negsuc 762;
  minimum_final_assessment_rows = negsuc 762;
  step_rows = pos 1000;
}

negative_window_valid : make_fold_policy negative_window ≡ ok negative_window
unfolding make_fold_policy
negative_window_valid = refl

abbrev assessed_counts : Option (Result WalkForwardManifest) → List ℕ
assessed_counts (some (ok m)) =
    map (λ (f : WalkForwardFold). length f.assessment.prediction_sessions) m.folds
assessed_counts _ = []

-- rows 762 to 898 of the 900
negative_window_assessed :
    assessed_counts (construct_walk_forward_manifest (supervised 900) lineage negative_window)
    ≡ 137 ∷ []
unfolding walked
negative_window_assessed = refl
