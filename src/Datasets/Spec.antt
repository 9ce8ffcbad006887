-- ===== src/Datasets/Spec.antt =====
-- datasets/splits.py: the specification of the chronological split. Sessions are dates, as ordinals.
use spy_market_agent.Prelude.{
  ℕ, String, Bool, List, [], ◌∷◌, ltb, leb, if◌then◌else◌, Result, ok, err, split_spec,
}

pub record ChronologicalSplitSpec : Type 0 where
  pub train_start_session : ℕ
  pub train_end_session : ℕ
  pub validation_start_session : ℕ
  pub validation_end_session : ℕ
  pub test_start_session : ℕ
  pub test_end_session : ℕ

-- `if condition: issues.append(...)`, before the later issues; an issue is its code
abbrev issue : Bool → String → List String → List String
issue condition code rest = if condition then code ∷ rest else rest

unfoldable pub split_issues : ChronologicalSplitSpec → List String
split_issues s = issue (ltb s.train_end_session s.train_start_session) "invalid_train_bounds" (
    issue (leb s.validation_start_session s.train_end_session) "train_validation_overlap" (
      issue (ltb s.validation_end_session s.validation_start_session) "invalid_validation_bounds" (
        issue (leb s.test_start_session s.validation_end_session) "validation_test_overlap"
          (issue (ltb s.test_end_session s.test_start_session) "invalid_test_bounds" []))))

-- `if issues: raise InvalidSplitSpecError(issues)`
unfoldable pub raise_issues : ChronologicalSplitSpec → List String → Result ChronologicalSplitSpec
raise_issues s [] = ok s
raise_issues s (c ∷ cs) = err (split_spec (c ∷ cs))

unfoldable pub make_chronological_split_spec :
    ChronologicalSplitSpec → Result ChronologicalSplitSpec
unfolding split_issues raise_issues
make_chronological_split_spec s = raise_issues s (split_issues s)
