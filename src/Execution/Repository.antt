-- ===== src/Execution/Repository.antt =====
-- execution/repository.py: the methods of SQLitePaperExecutionRepository that the service calls.
use spy_market_agent.Prelude.{
  ℕ, String, Bool, true, false, not, ◌&&◌, ◌||◌, Option, none, some, [], ◌∷◌, ◌==◌, str_eq,
  if◌then◌else◌, Error, Result, ok, err, execution_input, execution_integrity, execution_not_found,
  sqlite_error,
}
use spy_market_agent.Text.{is_execution_id, nonblank_text}
use spy_market_agent.Execution.Models.{
  AttemptStatus, PaperOrderInstruction, PaperOrderApproval, PaperOrderReceipt,
  PaperExecutionAttempt, PaperExecutionControlState, status_text, control_schema_version,
  disengage_confirmation, switch_state, bool_value,
}
use spy_market_agent.Execution.Ledger.Rows.{
  ControlRow, Ledger, get_attempt_from, reserve_row, reserved_row, event_row,
}
use spy_market_agent.Execution.Ledger.Receipts.{
  receipt_body, unknown_body, failure_body, require_mark_arguments, failure_target,
}
use spy_market_agent.Execution.Action.{Action, raise, from_result, ◌>>◌, handle, reading, transact}

-- The control row, decoded; a missing row is an engaged switch.
unfoldable pub control_state : Option ControlRow → Result PaperExecutionControlState
control_state none = ok (record {
  kill_switch_engaged = true;
  updated_at_utc = 0;
  reason = "missing_state";
  control_version = "missing";
})
control_state (some row) =
    if (row.kill_switch_engaged == 0 || row.kill_switch_engaged == 1)
      && not (str_eq row.reason "")
      && not (str_eq row.control_version "")
    then ok (record {
      kill_switch_engaged = row.kill_switch_engaged == 1;
      updated_at_utc = row.updated_at_utc;
      reason = row.reason;
      control_version = row.control_version;
    })
    else err (execution_integrity "invalid_kill_switch_state")

-- `confirmation == DISENGAGE_KILL_SWITCH_CONFIRMATION`
abbrev pub is_confirmation : Option String → Bool
is_confirmation none = false
is_confirmation (some text) = str_eq text disengage_confirmation

-- the row that `set_paper_execution_kill_switch` writes
abbrev pub control_row : Bool → String → ℕ → ControlRow
control_row engaged reason now = record {
  kill_switch_engaged = if engaged then 1 else 0;
  updated_at_utc = now;
  reason = reason;
  control_version = control_schema_version;
}

-- the tables after the update of the control row, with its event
abbrev pub switched : Bool → String → ℕ → PaperExecutionControlState → Ledger → Ledger
switched engaged reason now prior l = record l {
  control = some (control_row engaged reason now);
  events =
      event_row none none "kill_switch_updated" (some (switch_state prior.kill_switch_engaged))
        (some (switch_state engaged)) now reason (("engaged", bool_value engaged) ∷ []) l.events
      ∷ l.events;
}

-- the transaction of `set_paper_execution_kill_switch`
unfoldable pub switch_body : Bool → String → ℕ → Ledger → Result (Result (Unit {0}) × Ledger)
switch_body engaged reason now l = elim (control_state l.control) [
  | err e ↦ err e
  | ok prior ↦ ok (ok tt, switched engaged reason now prior l)
]

-- `except PaperExecutionNotFoundError` of `reserve_attempt`
abbrev pub reservation_error : {A : Type 0} → Result A → Result A
reservation_error (ok a) = ok a
reservation_error (err (execution_not_found _)) =
    err (execution_integrity "attempt_reservation_failed")
reservation_error (err e) = err e

-- `except sqlite3.Error` around the read after the commit
abbrev pub update_error : Error → Error
update_error sqlite_error = execution_integrity "kill_switch_update_failed"
update_error e = e

module _ {B : Type 0} where
  unfoldable pub get_kill_switch_state : Action B PaperExecutionControlState
  get_kill_switch_state = reading (λ l. control_state l.control)

  unfoldable pub set_paper_execution_kill_switch :
      Bool → String → ℕ → Option String → Action B PaperExecutionControlState
  set_paper_execution_kill_switch engaged reason now confirmation =
      from_result (nonblank_text reason "invalid_reason" "unsafe_reason")
      >> (if not engaged && not (is_confirmation confirmation)
          then raise (execution_input "missing_kill_switch_confirmation")
          else transact "kill_switch_update_failed" (switch_body engaged reason now)
            >> handle get_kill_switch_state (λ e. raise (update_error e)))

  unfoldable pub reserve_attempt :
      PaperOrderInstruction → PaperOrderApproval → Bool → ℕ → Action B PaperExecutionAttempt
  reserve_attempt instruction approval execution_risk_approved now =
      transact "attempt_reservation_failed" (λ l.
        reservation_error
          (reserve_row (reserved_row instruction approval execution_risk_approved now) now l))

  unfoldable pub record_receipt :
      PaperOrderReceipt
      → AttemptStatus
      → Option String
      → ℕ
      → String
      → Action B PaperExecutionAttempt
  record_receipt receipt status account now event_type =
      transact "attempt_update_failed"
        (receipt_body receipt status account now event_type (status_text status))

  unfoldable pub mark_submission_unknown :
      String → String → String → ℕ → String → Action B PaperExecutionAttempt
  mark_submission_unknown key signal code now event_type =
      from_result (require_mark_arguments key signal code)
      >> transact "attempt_unknown_update_failed" (unknown_body key signal code now event_type)

  unfoldable pub mark_failure :
      String → String → AttemptStatus → String → ℕ → String → Action B PaperExecutionAttempt
  mark_failure key signal status code now event_type =
      if not (failure_target status)
      then raise (execution_input "invalid_attempt_status")
      else (from_result (require_mark_arguments key signal code)
          >> transact "attempt_failure_update_failed"
              (failure_body key signal status code now event_type))

  unfoldable pub get_attempt : String → Action B PaperExecutionAttempt
  get_attempt key =
      if not (is_execution_id key)
      then raise (execution_input "invalid_client_order_id")
      else reading (λ l. get_attempt_from l key)
