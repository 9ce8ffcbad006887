-- ===== src/Execution/Ledger/Receipts.antt =====
-- execution/repository.py: the transactions that change the status of an attempt.
use spy_market_agent.Prelude.{
  ℕ, String, Bool, true, false, not, ◌||◌, Option, none, some, List, [], ◌∷◌, str_eq, Result, ok,
  err, execution_input, execution_integrity, execution_not_found, raise_if, ◌>>=◌, ◌>>◌,
}
use spy_market_agent.Prelude.Int.{eqb_ℤ}
use spy_market_agent.Text.{is_execution_id, nonblank_text}
use spy_market_agent.Execution.Models.{
  AttemptStatus, reserved, accepted, broker_existing_order_found, reconciled, submission_unknown,
  blocked, rejected, PaperOrderReceipt, PaperExecutionAttempt, attempt_state, MetadataValue,
  text_value,
}
use spy_market_agent.Execution.Ledger.Rows.{Ledger, update_attempt, get_attempt_from, event_row}

-- `prior.attempt_status in _RECEIPT_TRANSITIONS.get(status)`; a status that is no key has no prior
abbrev pub receipt_transition : AttemptStatus → AttemptStatus → Bool
receipt_transition reserved accepted = true
receipt_transition reserved broker_existing_order_found = true
receipt_transition reserved reconciled = true
receipt_transition submission_unknown reconciled = true
receipt_transition _ _ = false

-- `prior.attempt_status in _SUBMISSION_UNKNOWN_PRIOR_STATES`
abbrev pub unknown_transition : AttemptStatus → Bool
unknown_transition reserved = true
unknown_transition submission_unknown = true
unknown_transition _ = false

-- `status in _FAILURE_TARGET_STATES`
abbrev pub failure_target : AttemptStatus → Bool
failure_target blocked = true
failure_target rejected = true
failure_target _ = false

abbrev pub is_reserved : AttemptStatus → Bool
is_reserved reserved = true
is_reserved _ = false

-- `_validate_receipt_against_attempt`
unfoldable pub validate_receipt :
    PaperOrderReceipt → PaperExecutionAttempt → AttemptStatus → Result (Unit {0})
validate_receipt receipt prior status = do
  raise_if (not (receipt_transition prior.attempt_status status))
      (execution_integrity "invalid_receipt_state_transition")
  raise_if
      (not (str_eq receipt.signal_id prior.signal_id)
        || not (str_eq receipt.client_order_id prior.client_order_id)
        || not (str_eq receipt.instruction_fingerprint prior.instruction_fingerprint)
        || not (str_eq receipt.symbol prior.symbol)
        || not (str_eq receipt.side prior.side)
        || not (eqb_ℤ receipt.submitted_quantity prior.quantity))
      (execution_integrity "receipt_lineage_mismatch")
  raise_if
      (not (str_eq receipt.order_type "market")
        || not (str_eq receipt.time_in_force "day")
        || receipt.extended_hours)
      (execution_integrity "receipt_contract_mismatch")
  raise_if (not (str_eq receipt.execution_environment "alpaca_paper"))
      (execution_integrity "receipt_environment_mismatch")
  ok tt

-- the columns that `record_receipt` sets
abbrev pub with_receipt :
    PaperOrderReceipt
    → AttemptStatus
    → Option String
    → ℕ
    → PaperExecutionAttempt
    → PaperExecutionAttempt
with_receipt receipt status account now a = record a {
  attempt_status = status;
  broker_order_id = some receipt.broker_order_id;
  broker_status = some receipt.broker_order_status;
  broker_environment = some receipt.execution_environment;
  account_id_fingerprint = account;
  sanitized_request_id = receipt.sanitized_request_id;
  updated_at_utc = now;
  failure_code = none;
}

-- the columns that `mark_submission_unknown` and `mark_failure` set
abbrev pub with_failure : AttemptStatus → String → ℕ → PaperExecutionAttempt → PaperExecutionAttempt
with_failure status code now a = record a {
  attempt_status = status;
  failure_code = some code;
  updated_at_utc = now;
}

-- the tables after an update of the attempt `prior`, with the event that records it
abbrev pub with_update :
    (PaperExecutionAttempt → PaperExecutionAttempt)
    → String
    → PaperExecutionAttempt
    → AttemptStatus
    → String
    → String
    → List (String × MetadataValue)
    → ℕ
    → Ledger
    → Ledger
with_update change key prior status event_type reason metadata now l = record l {
  attempts = update_attempt key change l.attempts;
  events =
      event_row (some prior.signal_id) (some prior.client_order_id) event_type
        (some (attempt_state prior.attempt_status)) (some (attempt_state status)) now reason
        metadata l.events
      ∷ l.events;
}

-- a receipt for an order that is not in the table breaks the lineage
abbrev pub lineage_error : Result PaperExecutionAttempt → Result PaperExecutionAttempt
lineage_error (ok a) = ok a
lineage_error (err (execution_not_found _)) = err (execution_integrity "receipt_lineage_mismatch")
lineage_error (err e) = err e

-- the transaction of `record_receipt`
unfoldable pub receipt_body :
    PaperOrderReceipt
    → AttemptStatus
    → Option String
    → ℕ
    → String
    → String
    → Ledger
    → Result (Result PaperExecutionAttempt × Ledger)
receipt_body receipt status account now event_type reason l = do
  prior ← lineage_error (get_attempt_from l receipt.client_order_id)
  validate_receipt receipt prior status
  let key = receipt.client_order_id
  let metadata = ("broker_status", text_value receipt.broker_order_status) ∷ []
  let l' =
      with_update (with_receipt receipt status account now) key prior status event_type reason
        metadata now l
  nonblank_text event_type "invalid_event_type" "unsafe_event_type"
  updated ← get_attempt_from l' key
  ok (ok updated, l')

-- the end of both marking transactions, once their transition is allowed
unfoldable pub mark_body :
    String
    → String
    → AttemptStatus
    → (PaperExecutionAttempt → Bool)
    → String
    → String
    → ℕ
    → String
    → Ledger
    → Result (Result PaperExecutionAttempt × Ledger)
mark_body key signal status allowed refusal code now event_type l = do
  prior ← get_attempt_from l key
  raise_if (not (str_eq signal prior.signal_id)) (execution_integrity "attempt_lineage_mismatch")
  raise_if (not (allowed prior)) (execution_integrity refusal)
  let l' = with_update (with_failure status code now) key prior status event_type code [] now l
  nonblank_text event_type "invalid_event_type" "unsafe_event_type"
  ok (get_attempt_from l' key, l')

-- the checks of the arguments, before the connection is opened
unfoldable pub require_mark_arguments : String → String → String → Result (Unit {0})
require_mark_arguments key signal code = do
  raise_if (not (is_execution_id key)) (execution_input "invalid_client_order_id")
  raise_if (not (is_execution_id signal)) (execution_input "invalid_signal_id")
  nonblank_text code "invalid_failure_code" "unsafe_failure_code"
  ok tt

-- the transaction of `mark_submission_unknown`
unfoldable pub unknown_body :
    String → String → String → ℕ → String → Ledger → Result (Result PaperExecutionAttempt × Ledger)
unknown_body key signal code now event_type =
    mark_body key signal submission_unknown (λ prior. unknown_transition prior.attempt_status)
      "invalid_submission_unknown_transition" code now event_type

-- the transaction of `mark_failure`
unfoldable pub failure_body :
    String
    → String
    → AttemptStatus
    → String
    → ℕ
    → String
    → Ledger
    → Result (Result PaperExecutionAttempt × Ledger)
failure_body key signal status code now event_type =
    mark_body key signal status (λ prior. is_reserved prior.attempt_status)
      "invalid_failure_transition" code now event_type
