-- ===== src/Execution/Service/Quiet.antt =====
-- Which parts of the service send no order: all but `deliver`.
use spy_market_agent.Prelude.{
  ℕ, String, Option, none, some, Error, execution_approval, execution_stale_signal,
  execution_broker_request, execution_broker_rejection, execution_submission_unknown,
}
use spy_market_agent.Risk.Models.{RiskConfig}
use spy_market_agent.Execution.Models.{
  PaperOrderInstruction, PaperOrderApproval, PaperExecutionAttempt, BrokerOrderSnapshot,
  BrokerAccountSnapshot, PaperOrderReceipt, Settings,
}
use spy_market_agent.Execution.Action.{Action}
use spy_market_agent.Execution.Quiet.{
  IsQuiet, return_value-IsQuiet, raise-IsQuiet, suppressing-IsQuiet, mark_failure-IsQuiet,
  quiet_laws,
}
use spy_market_agent.Execution.Service.Broker.{PaperBroker}
use spy_market_agent.Execution.Service.Submission.{
  Admission, checked_account, checked_clock, require_switch_off, checked_risk, admission,
  mark_reserved_blocked, mark_unknown, mark_unknown_best_effort, record_or_unknown,
  receipt_or_unknown, adopt_existing, recheck_failed, refresh_clock, close_gate,
  final_kill_switch_gate, submission_failed, settle_submission,
}
use spy_market_agent.Execution.Service.Reconciliation.{
  reconciled_receipt, record_reconciled, reconcile_with, reconcile_by_client_order_id,
}

module _ {B : Type 0} (broker : PaperBroker B) (new_york_date : ℕ → ℕ)
    (instruction : PaperOrderInstruction) (approval : PaperOrderApproval) where
  pub mark_reserved_blocked-IsQuiet :
      (now : ℕ) (code event_type : String)
      → IsQuiet
          (mark_reserved_blocked broker new_york_date instruction approval now code event_type)
  unfolding mark_reserved_blocked
  mark_reserved_blocked-IsQuiet now code event_type =
      suppressing-IsQuiet _ (mark_failure-IsQuiet _ _ _ _ _ _)

  pub checked_account-IsQuiet : IsQuiet (checked_account broker new_york_date instruction approval)
  unfolding checked_account
  checked_account-IsQuiet = search quiet_laws depth 30

  pub checked_clock-IsQuiet : IsQuiet (checked_clock broker new_york_date instruction approval)
  unfolding checked_clock
  checked_clock-IsQuiet = search quiet_laws depth 30

  pub require_switch_off-IsQuiet :
      (code : String) → IsQuiet (require_switch_off broker new_york_date instruction approval code)
  unfolding require_switch_off
  require_switch_off-IsQuiet code = search quiet_laws depth 30

  pub checked_risk-IsQuiet :
      (risk_config : RiskConfig) (account : BrokerAccountSnapshot)
      → IsQuiet (checked_risk broker new_york_date instruction approval risk_config account)
  unfolding checked_risk
  checked_risk-IsQuiet risk_config account = search quiet_laws depth 30

  pub admission-IsQuiet :
      (settings : Settings) (risk_config : RiskConfig)
      → IsQuiet (admission broker new_york_date instruction approval settings risk_config)
  unfolding admission
  admission-IsQuiet settings risk_config =
      search
        (
          quiet_laws, checked_account-IsQuiet, checked_clock-IsQuiet, require_switch_off-IsQuiet,
          checked_risk-IsQuiet,
        )
        depth 30

  pub mark_unknown-IsQuiet :
      (code : String) (now : ℕ) (event_type : String)
      → IsQuiet (mark_unknown broker new_york_date instruction approval code now event_type)
  unfolding mark_unknown
  mark_unknown-IsQuiet code now event_type = search quiet_laws depth 30

  pub mark_unknown_best_effort-IsQuiet :
      (now : ℕ) (code : String)
      → IsQuiet (mark_unknown_best_effort broker new_york_date instruction approval now code)
  unfolding mark_unknown_best_effort
  mark_unknown_best_effort-IsQuiet now code = search (quiet_laws, mark_unknown-IsQuiet) depth 30

  pub record_or_unknown-IsQuiet :
      (recording : Action B PaperExecutionAttempt) (now : ℕ) (code : String)
      → IsQuiet recording
      → IsQuiet (record_or_unknown broker new_york_date instruction approval recording now code)
  unfolding record_or_unknown
  record_or_unknown-IsQuiet recording now code h =
      search (quiet_laws, mark_unknown_best_effort-IsQuiet) depth 30

  pub receipt_or_unknown-IsQuiet :
      (snapshot : BrokerOrderSnapshot) (attempt : PaperExecutionAttempt) (status code : String)
      (now : ℕ) (event_type : String)
      → IsQuiet (
          receipt_or_unknown broker new_york_date instruction approval snapshot attempt status code
            now event_type)
  unfolding receipt_or_unknown
  receipt_or_unknown-IsQuiet snapshot attempt status code now event_type =
      search (quiet_laws, mark_unknown-IsQuiet) depth 30

  pub adopt_existing-IsQuiet :
      (admitted : Admission) (attempt : PaperExecutionAttempt) (existing : BrokerOrderSnapshot)
      → IsQuiet (adopt_existing broker new_york_date instruction approval admitted attempt existing)
  unfolding adopt_existing
  adopt_existing-IsQuiet admitted attempt existing =
      search (quiet_laws, receipt_or_unknown-IsQuiet, record_or_unknown-IsQuiet) depth 30

  recheck_failed-IsQuiet :
      (now : ℕ) (e : Error)
      → IsQuiet (recheck_failed broker new_york_date instruction approval now e)
  recheck_failed-IsQuiet now (execution_approval _) =
      search (quiet_laws, mark_reserved_blocked-IsQuiet) depth 30
  recheck_failed-IsQuiet now (execution_stale_signal code) =
      search (quiet_laws, mark_reserved_blocked-IsQuiet) depth 30
  recheck_failed-IsQuiet now e = raise-IsQuiet _ _

  pub refresh_clock-IsQuiet :
      (fallback_now : ℕ)
      → IsQuiet (refresh_clock broker new_york_date instruction approval fallback_now)
  unfolding refresh_clock
  refresh_clock-IsQuiet fallback_now =
      search (quiet_laws, mark_reserved_blocked-IsQuiet, recheck_failed-IsQuiet) depth 30

  close_gate-IsQuiet :
      (A : Type 0) (now : ℕ) (code : String)
      → IsQuiet {A = A} (close_gate broker new_york_date instruction approval now code)
  unfolding close_gate
  close_gate-IsQuiet A now code = search (quiet_laws, mark_reserved_blocked-IsQuiet) depth 30

  pub final_kill_switch_gate-IsQuiet :
      (now : ℕ) → IsQuiet (final_kill_switch_gate broker new_york_date instruction approval now)
  unfolding final_kill_switch_gate
  final_kill_switch_gate-IsQuiet now = search (quiet_laws, close_gate-IsQuiet) depth 30

  pub submission_failed-IsQuiet :
      (now : ℕ) (e : Error)
      → IsQuiet (submission_failed broker new_york_date instruction approval now e)
  unfolding submission_failed
  submission_failed-IsQuiet now (execution_broker_request code) = search quiet_laws depth 30
  submission_failed-IsQuiet now (execution_broker_rejection code) = search quiet_laws depth 30
  submission_failed-IsQuiet now (execution_submission_unknown code) =
      search (quiet_laws, mark_unknown-IsQuiet) depth 30
  submission_failed-IsQuiet now e = search (quiet_laws, mark_unknown-IsQuiet) depth 30

  pub settle_submission-IsQuiet :
      (admitted : Admission) (attempt : PaperExecutionAttempt) (now : ℕ)
      (snapshot : BrokerOrderSnapshot)
      → IsQuiet (
          settle_submission broker new_york_date instruction approval admitted attempt now snapshot)
  unfolding settle_submission
  settle_submission-IsQuiet admitted attempt now snapshot =
      search (quiet_laws, receipt_or_unknown-IsQuiet, record_or_unknown-IsQuiet) depth 30

module _ {B : Type 0} (broker : PaperBroker B) (now : ℕ) where
  reconciled_receipt-IsQuiet :
      (attempt : PaperExecutionAttempt) (snapshot : BrokerOrderSnapshot)
      → IsQuiet (reconciled_receipt broker now attempt snapshot)
  unfolding reconciled_receipt
  reconciled_receipt-IsQuiet attempt snapshot = search quiet_laws depth 30

  record_reconciled-IsQuiet :
      (attempt : PaperExecutionAttempt) (receipt : PaperOrderReceipt)
      → IsQuiet (record_reconciled broker now attempt receipt)
  unfolding record_reconciled
  record_reconciled-IsQuiet attempt receipt = search quiet_laws depth 30

  reconcile_with-IsQuiet :
      (attempt : PaperExecutionAttempt) (found : Option BrokerOrderSnapshot)
      → IsQuiet (reconcile_with broker now attempt found)
  unfolding reconcile_with
  reconcile_with-IsQuiet attempt none = return_value-IsQuiet none
  reconcile_with-IsQuiet attempt (some snapshot) =
      search (quiet_laws, reconciled_receipt-IsQuiet, record_reconciled-IsQuiet) depth 30

  -- Whatever the broker answers and whichever outages the ledger has, a reconciliation sends no
  -- order, and the ledger evolves: no attempt is lost, each moves along the diagram of states, the
  -- kill switch stays as it is, and events are only added.
  pub reconcile_by_client_order_id-IsQuiet :
      (key : String) → IsQuiet (reconcile_by_client_order_id broker now key)
  unfolding reconcile_by_client_order_id
  reconcile_by_client_order_id-IsQuiet key = search (quiet_laws, reconcile_with-IsQuiet) depth 30
