-- ===== src/Execution/Service/Reconciliation.antt =====
-- execution/service.py: reconcile_by_client_order_id and preview_submission.
use spy_market_agent.Prelude.{
  ℕ, String, Option, none, some, if◌then◌else◌, execution_submission_unknown, execution_integrity,
}
use spy_market_agent.Execution.Models.{
  reconciled, PaperExecutionAttempt, PaperOrderReceipt, BrokerOrderSnapshot, is_execution_error,
  is_cancelled,
}
use spy_market_agent.Execution.Ledger.Receipts.{unknown_transition}
use spy_market_agent.Execution.Action.{
  Action, return_value, raise, from_result, ◌>>=◌, ◌>>◌, handle, suppressing, ask,
}
use spy_market_agent.Execution.Repository.{get_attempt, record_receipt, mark_submission_unknown}
use spy_market_agent.Execution.Service.Broker.{PaperBroker, receipt_from_broker_snapshot}

module _ {B : Type 0} (broker : PaperBroker B) (now : ℕ) where
  -- the receipt of the broker's order, with `except PaperExecutionError`
  unfoldable pub reconciled_receipt :
      PaperExecutionAttempt → BrokerOrderSnapshot → Action B PaperOrderReceipt
  reconciled_receipt attempt snapshot =
      handle (from_result (receipt_from_broker_snapshot snapshot attempt "broker_reconciled")) (λ e.
        if is_execution_error e
        then mark_submission_unknown attempt.client_order_id attempt.signal_id
            "broker_order_mismatch" now "broker_order_mismatch"
          >> raise (execution_submission_unknown "broker_order_mismatch")
        else raise e)

  -- recording it, with `except Exception`
  unfoldable pub record_reconciled :
      PaperExecutionAttempt → PaperOrderReceipt → Action B PaperExecutionAttempt
  record_reconciled attempt receipt =
      handle (record_receipt receipt reconciled none now "broker_order_reconciled") (λ e.
        if is_cancelled e
        then raise e
        else suppressing (
            mark_submission_unknown attempt.client_order_id attempt.signal_id
              "reconciliation_receipt_persistence_failed" now "submission_unknown")
          >> raise (execution_submission_unknown "reconciliation_receipt_persistence_failed"))

  -- the attempt, by whether the broker has an order
  unfoldable pub reconcile_with :
      PaperExecutionAttempt → Option BrokerOrderSnapshot → Action B (Option PaperOrderReceipt)
  reconcile_with attempt none = return_value none
  reconcile_with attempt (some snapshot) = do
    receipt ← reconciled_receipt attempt snapshot
    record_reconciled attempt receipt
    return_value (some receipt)

  unfoldable pub reconcile_by_client_order_id : String → Action B (Option PaperOrderReceipt)
  reconcile_by_client_order_id key = do
    attempt ← get_attempt key
    (if unknown_transition attempt.attempt_status
        then return_value tt
        else raise (execution_integrity "invalid_reconciliation_state"))
    snapshot ← ask (broker.get_order_by_client_order_id attempt.client_order_id)
    reconcile_with attempt snapshot
