-- ===== src/Research/Isolation.antt =====
-- research/leakage.py: `validate_phase2_final_test_isolation`.
use spy_market_agent.Prelude.{
  ℕ, String, Bool, ◌&&◌, ◌||◌, List, [], ◌∷◌, ◌==◌, if◌then◌else◌, any, map, Result, raise_if,
  leakage_validation,
}
use spy_market_agent.Text.{codes, lowered, contains_codes, same_codes}

abbrev pub phase2_final_test_artifact_tokens : List String
phase2_final_test_artifact_tokens =
    "final_test_results.json" ∷ "final_test_access.json" ∷ "final_test_completion.json"
    ∷ "final_test_predictions.json" ∷ "final_test_prediction_rows.json"
    ∷ "final_test_model_predictions.json" ∷ "phase2_final_test_predictions.json"
    ∷ "benchmark_strategy_rows.json" ∷ "final_test_strategy_rows.json"
    ∷ "phase2_final_test_strategy_rows.json" ∷ "backtest_results.json" ∷ "cost_sensitivity.json"
    ∷ "regime_results.json" ∷ []

-- `value.replace("\\", "/").lower()`
unfoldable pub normalized : String → List ℕ
normalized value = lowered (map (λ c. if c == 92 then b'/' else c) (codes value))

-- `text.rsplit("/", maxsplit=1)[-1]`
unfoldable pub after_last_slash : List ℕ → List ℕ
after_last_slash [] = []
after_last_slash (c ∷ cs) =
    let rest = after_last_slash cs in if any (λ d. d == b'/') (c ∷ cs) then rest else c ∷ cs

unfoldable pub is_phase2_final_test_artifact_reference : String → Bool
is_phase2_final_test_artifact_reference value =
    let text = normalized value in
    any (λ token. same_codes (after_last_slash text) (codes token))
      phase2_final_test_artifact_tokens
    || (contains_codes (codes "artifacts/benchmarks") text
        && any (λ token. contains_codes (codes token) text) phase2_final_test_artifact_tokens)

unfoldable pub validate_phase2_final_test_isolation : List String → Result (Unit {0})
validate_phase2_final_test_isolation names =
    raise_if (any is_phase2_final_test_artifact_reference names)
      (leakage_validation "phase2_final_test_artifact_rejected")
