-- ===== src/Research/Windows.antt =====
-- research/models.py: the policy of the folds, a window of sessions, a fold and the manifest, each
-- with its validator. A date is its ordinal. The identifiers, checksums and lineage that every fold
-- repeats are left out of the fold.
use spy_market_agent.Prelude.{
  ℕ, suc, String, Bool, true, not, ◌&&◌, ◌||◌, List, [], ◌∷◌, ◌==◌, str_eq, length, Result, ok,
  raise_if, ◌>>◌, validation_error,
}
use spy_market_agent.Prelude.Sessions.{is_increasing, first, last, is_before, is_same}
use spy_market_agent.Prelude.Int.{ℤ, pos, ◌+ℤ◌, ltb_ℤ, leb_ℤ, eqb_ℤ}

abbrev pub boundary_exclusion_sessions : ℕ
boundary_exclusion_sessions = 6

abbrev pub walk_forward_fold_policy_id : String
walk_forward_fold_policy_id = "phase3-expanding-window-756-train-126-assess-63-step-6-purge-v1"

pub record FoldPolicy : Type 0 where
  pub fold_policy_id : String
  pub feature_warmup_rows : ℤ
  pub entry_offset_sessions : ℤ
  pub exit_offset_sessions : ℤ
  pub mandatory_gap_sessions : ℤ
  pub boundary_sessions : ℤ
  pub minimum_initial_training_rows : ℤ
  pub assessment_window_rows : ℤ
  pub step_rows : ℤ
  pub minimum_final_assessment_rows : ℤ
  pub require_two_classes_per_fold : Bool

-- `FoldPolicy()`
abbrev pub default_policy : FoldPolicy
default_policy = record {
  fold_policy_id = walk_forward_fold_policy_id;
  feature_warmup_rows = pos 20;
  entry_offset_sessions = pos 1;
  exit_offset_sessions = pos 6;
  mandatory_gap_sessions = pos 5;
  boundary_sessions = pos boundary_exclusion_sessions;
  minimum_initial_training_rows = pos 756;
  assessment_window_rows = pos 126;
  step_rows = pos 63;
  minimum_final_assessment_rows = pos 63;
  require_two_classes_per_fold = true;
}

unfoldable pub make_fold_policy : FoldPolicy → Result FoldPolicy
make_fold_policy p = do
  raise_if (ltb_ℤ p.feature_warmup_rows (pos 20)) validation_error
  raise_if (not (eqb_ℤ p.entry_offset_sessions (pos 1))) validation_error
  raise_if (not (eqb_ℤ p.exit_offset_sessions (pos 6))) validation_error
  raise_if (not (eqb_ℤ p.mandatory_gap_sessions (pos 5))) validation_error
  raise_if (not (eqb_ℤ p.boundary_sessions (pos boundary_exclusion_sessions))) validation_error
  raise_if (not (str_eq p.fold_policy_id walk_forward_fold_policy_id)) validation_error
  raise_if (ltb_ℤ p.minimum_initial_training_rows (pos 756)) validation_error
  raise_if (ltb_ℤ p.assessment_window_rows p.minimum_final_assessment_rows) validation_error
  raise_if (leb_ℤ p.step_rows (pos 0)) validation_error
  ok p

pub record SessionWindow : Type 0 where
  pub prediction_sessions : List ℕ
  pub entry_sessions : List ℕ
  pub exit_sessions : List ℕ
  pub positive_count : ℤ
  pub negative_count : ℤ

unfoldable pub make_session_window : SessionWindow → Result SessionWindow
unfolding ◌+ℤ◌
make_session_window w =
    let row_count = length w.prediction_sessions in
    do
      raise_if (row_count == 0) validation_error
      raise_if
          (not (length w.entry_sessions == row_count)
            || not (length w.exit_sessions == row_count)
            || not (eqb_ℤ (w.positive_count +ℤ w.negative_count) (pos row_count)))
          validation_error
      raise_if (not (is_increasing w.prediction_sessions)) validation_error
      raise_if (not (is_increasing w.entry_sessions)) validation_error
      raise_if (not (is_increasing w.exit_sessions)) validation_error
      raise_if (ltb_ℤ w.positive_count (pos 0) || ltb_ℤ w.negative_count (pos 0)) validation_error
      ok w

pub record WalkForwardFold : Type 0 where
  pub fold_index : ℕ
  pub training : SessionWindow
  pub boundary_excluded_sessions : List ℕ
  pub assessment : SessionWindow

-- The lists are not empty where they are read: the windows have passed their validator, and the
-- boundary its length.
unfoldable pub make_walk_forward_fold : WalkForwardFold → Result WalkForwardFold
make_walk_forward_fold f =
    let boundary = f.boundary_excluded_sessions in
    let begins = first f.assessment.prediction_sessions in
    do
      raise_if (not (length boundary == boundary_exclusion_sessions)) validation_error
      raise_if (not (is_increasing boundary)) validation_error
      raise_if
          (not (
            is_before (last f.training.prediction_sessions) (first boundary)
            && (is_before (first boundary) (last boundary) && is_before (last boundary) begins)))
          validation_error
      raise_if (not (is_same (last f.training.exit_sessions) (last boundary))) validation_error
      raise_if (not (is_before (last f.training.exit_sessions) begins)) validation_error
      ok f

-- `observed_indexes == tuple(range(len(folds)))`
unfoldable pub are_contiguous : ℕ → List WalkForwardFold → Bool
are_contiguous n [] = true
are_contiguous n (f ∷ fs) = f.fold_index == n && are_contiguous (suc n) fs

pub record WalkForwardManifest : Type 0 where
  pub supervised_row_count : ℕ
  pub folds : List WalkForwardFold

unfoldable pub make_walk_forward_manifest : WalkForwardManifest → Result WalkForwardManifest
unfolding are_contiguous
make_walk_forward_manifest m = do
  raise_if (length m.folds == 0) validation_error
  raise_if (m.supervised_row_count == 0) validation_error
  raise_if (not (are_contiguous 0 m.folds)) validation_error
  ok m
