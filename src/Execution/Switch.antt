-- ===== src/Execution/Switch.antt =====
-- What an update of the kill switch that returns has done.
use spy_market_agent.Prelude.{
  ℕ, String, ◌≡◌, refl, ap, ◌∙◌, sym, subst, ◌⊎◌, inl, inr, Bool, true, false, not, ◌&&◌, Option,
  none, some, arith, eq_iff, Result, ok, Result-cases,
}
use spy_market_agent.Execution.Models.{PaperExecutionControlState, disengage_confirmation}
use spy_market_agent.Execution.Ledger.Rows.{Ledger}
use spy_market_agent.Execution.Action.{World}
use spy_market_agent.Execution.Repository.{
  control_state, control_row, is_confirmation, switch_body, switched, get_kill_switch_state,
  set_paper_execution_kill_switch,
}
use spy_market_agent.Execution.Returned.{
  bind-eq-ok, handle-eq-ok, raise-neq-ok, if_true-neq-ok, reading-eq-ok, transact-eq-ok,
}

-- the state that was asked for; disengaging took the confirmation
pub record Switched (engaged : Bool) (reason : String) (confirmation : Option String)
    (state : PaperExecutionControlState) : Type 0 where
  pub engaged_state : state.kill_switch_engaged ≡ engaged
  pub reason_state : state.reason ≡ reason
  pub confirmed : (engaged ≡ true) ⊎ (confirmation ≡ some disengage_confirmation)

switch_body-eq-ok :
    (engaged : Bool) (reason : String) (now : ℕ) (l : Ledger) {r : Result (Unit {0})} {l' : Ledger}
    → switch_body engaged reason now l ≡ ok (r, l')
    → (prior : PaperExecutionControlState) × (switched engaged reason now prior l ≡ l')
switch_body-eq-ok engaged reason now l h = elim (Result-cases (control_state l.control)) [
  | inl (prior, e) ↦ (prior, unfold switch_body in ground arith)
  | inr (x, e) ↦ unfold switch_body in ground arith
]

control_row_state :
    (engaged : Bool) (reason : String) (now : ℕ) {state : PaperExecutionControlState}
    → control_state (some (control_row engaged reason now)) ≡ ok state
    → (state.kill_switch_engaged ≡ engaged) × (state.reason ≡ reason)
unfolding control_state
control_row_state true reason now h = ground arith
control_row_state false reason now h = ground arith

confirmation_text :
    (confirmation : Option String)
    → is_confirmation confirmation ≡ true
    → confirmation ≡ some disengage_confirmation
confirmation_text none h = cc
confirmation_text (some text) h = ap some ((eq_iff text disengage_confirmation).0 h)

confirmed_or_engaged :
    (engaged : Bool) (confirmation : Option String)
    → not engaged && not (is_confirmation confirmation) ≡ false
    → (engaged ≡ true) ⊎ (confirmation ≡ some disengage_confirmation)
confirmed_or_engaged true confirmation h = inl refl
confirmed_or_engaged false confirmation h = inr (confirmation_text confirmation (ground arith))

-- An update of the kill switch that returns gives back the state and the reason that were asked
-- for, as read from the ledger; and where it disengages the switch, the confirmation was given.
pub set_paper_execution_kill_switch-Switched :
    {B : Type 0} (engaged : Bool) (reason : String) (now : ℕ) (confirmation : Option String)
    (w : World B) {state : PaperExecutionControlState}
    → (set_paper_execution_kill_switch engaged reason now confirmation w).0 ≡ ok state
    → Switched engaged reason confirmation state
unfolding set_paper_execution_kill_switch get_kill_switch_state
set_paper_execution_kill_switch-Switched {B} engaged reason now confirmation w {state} h =
    let (_, text, tested) = bind-eq-ok _ _ w h in
    let (refused, body) =
      if_true-neq-ok (not engaged && not (is_confirmation confirmation)) _ _ _
        (λ v. raise-neq-ok _ v) tested in
    let (_, committed, read) = bind-eq-ok _ _ _ body in
    let (l, changed, world) = transact-eq-ok _ _ _ committed in
    let (prior, same) = switch_body-eq-ok engaged reason now _ changed in
    let stored = reading-eq-ok _ _ (handle-eq-ok _ _ _ (λ e v. raise-neq-ok _ v) read) in
    let (engaged_state, reason_state) = control_row_state engaged reason now {state = state} (
      subst (λ (t : Ledger). control_state t.control ≡ ok state)
        (ap (λ (v : World B). v.ledger) world ∙ sym same) stored) in
    record {
      engaged_state = engaged_state;
      reason_state = reason_state;
      confirmed = confirmed_or_engaged engaged confirmation refused;
    }
