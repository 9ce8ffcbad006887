-- ===== src/Execution/Service/Preview.antt =====
-- execution/service.py: preview_submission, which lists the gates that block, and what it means that
-- none does.
use spy_market_agent.Prelude.{
  ℕ, String, ◌≡◌, ◌≢◌, refl, ap, ◌∙◌, Bool, true, false, List, [], ◌∷◌, ◌++◌, arith, if◌then◌else◌,
  Result, ok, err, execution_approval,
}
use spy_market_agent.Execution.Models.{
  PaperOrderInstruction, PaperOrderApproval, Settings, is_execution_error, error_code,
}
use spy_market_agent.Execution.Action.{
  World, Action, return_value, raise, from_result, ◌>>=◌, handle,
}
use spy_market_agent.Execution.Repository.{get_kill_switch_state}
use spy_market_agent.Execution.Returned.{
  bind-eq-ok, handle-eq-ok, raise-neq-ok, both-neq-ok, return_value-eq-ok, Disengaged,
  get_kill_switch_state-Disengaged,
}
use spy_market_agent.Execution.Service.Gates.{
  validate_matching_approval, assert_local_permission_gates,
}
use spy_market_agent.Execution.Service.Passed.{
  Permitted, Matching, assert_local_permission_gates-Permitted, validate_matching_approval-Matching,
}

-- PaperExecutionPreview
pub record Preview : Type 0 where
  pub allowed : Bool
  pub blocked_gate_codes : List String

-- a gate's code, under `except PaperExecutionError`
unfoldable pub gate_codes : Result (Unit {0}) → Result (List String)
gate_codes (ok _) = ok []
gate_codes (err e) = if is_execution_error e then ok (error_code e ∷ []) else err e

-- and under `except PaperExecutionApprovalError`
unfoldable pub approval_codes : Result (Unit {0}) → Result (List String)
approval_codes (ok _) = ok []
approval_codes (err (execution_approval code)) = ok (code ∷ [])
approval_codes (err e) = err e

abbrev engaged_codes : Bool → List String
engaged_codes true = "kill_switch_engaged" ∷ []
engaged_codes false = []

abbrev is_nil : List String → Bool
is_nil [] = true
is_nil (_ ∷ _) = false

module _ {B : Type 0} where
  unfoldable pub switch_codes : Action B (List String)
  switch_codes =
      handle
        (get_kill_switch_state >>= λ state. return_value (engaged_codes state.kill_switch_engaged))
        (λ e. if is_execution_error e then return_value (error_code e ∷ []) else raise e)

  unfoldable pub preview_submission :
      Settings → PaperOrderInstruction → PaperOrderApproval → ℕ → Action B Preview
  preview_submission settings instruction approval now = do
    local ← from_result (gate_codes (assert_local_permission_gates settings))
    matching ← from_result (approval_codes (validate_matching_approval instruction approval now))
    switch ← switch_codes
    let blocked = local ++ matching ++ switch
    return_value (record { allowed = is_nil blocked; blocked_gate_codes = blocked })

gate_codes-nil : (r : Result (Unit {0})) → gate_codes r ≡ ok [] → r ≡ ok tt
unfolding gate_codes
gate_codes-nil (ok _) h = refl
gate_codes-nil (err e) h = ground arith

approval_codes-nil : (r : Result (Unit {0})) → approval_codes r ≡ ok [] → r ≡ ok tt
unfolding approval_codes
approval_codes-nil (ok _) h = refl
approval_codes-nil (err (execution_approval code)) h = cc
approval_codes-nil (err e) h = cc

all_nil : (a b c : List String) → is_nil (a ++ b ++ c) ≡ true → (a ≡ []) × (b ≡ []) × (c ≡ [])
all_nil [] [] [] h = (refl, refl, refl)
all_nil [] [] (_ ∷ _) h = cc
all_nil [] (_ ∷ _) c h = cc
all_nil (_ ∷ _) b c h = cc

not_engaged : (engaged : Bool) → engaged_codes engaged ≡ [] → engaged ≡ false
not_engaged true h = cc
not_engaged false h = refl

code_not-nil : {B : Type 0} (code : String) (w : World B) → (return_value (code ∷ []) w).0 ≢ ok []
unfolding return_value
code_not-nil code w h = cc

switch_codes-nil : {B : Type 0} (w : World B) → (switch_codes w).0 ≡ ok [] → Disengaged w.ledger
unfolding switch_codes
switch_codes-nil w h =
    let returned =
      handle-eq-ok _ _ w
        (λ e v.
          both-neq-ok (is_execution_error e) _ _ v (code_not-nil (error_code e) v)
            (raise-neq-ok e v))
        h in
    let (state, read, codes) = bind-eq-ok _ _ w returned in
    get_kill_switch_state-Disengaged w read
      (not_engaged state.kill_switch_engaged (return_value-eq-ok _ _ codes))

-- A preview that allows the submission has found that the settings permit it, that the approval is
-- the instruction's and current at the given time, and that the durable kill switch is stored and
-- off: the gates that a submission passes first, on the same ledger.
pub preview_submission-allowed :
    {B : Type 0} (settings : Settings) (instruction : PaperOrderInstruction)
    (approval : PaperOrderApproval) (now : ℕ) (w : World B) {preview : Preview}
    → (preview_submission settings instruction approval now w).0 ≡ ok preview
    → preview.allowed ≡ true
    → Permitted settings × Matching instruction approval now × Disengaged w.ledger
unfolding preview_submission from_result
preview_submission-allowed settings instruction approval now w {preview} h allowed =
    let (local, permitted, h1) = bind-eq-ok _ _ w h in
    let (matching, matched, h2) = bind-eq-ok _ _ _ h1 in
    let (switch, read, h3) = bind-eq-ok _ _ _ h2 in
    let same = return_value-eq-ok _ _ h3 in
    let clear : is_nil (local ++ matching ++ switch) ≡ true =
      ap (λ (p : Preview). p.allowed) same ∙ allowed in
    let (a, b, c) = all_nil local matching switch clear in
    (
      assert_local_permission_gates-Permitted settings (gate_codes-nil _ (permitted ∙ ap ok a)),
      validate_matching_approval-Matching instruction approval now
          (approval_codes-nil _ (matched ∙ ap ok b)),
      switch_codes-nil w (read ∙ ap ok c),
    )
