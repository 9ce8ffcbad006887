-- ===== src/Execution/Service/Submission.antt =====
-- execution/service.py: submit_approved_order. The model has one step of the source per bind; the
-- handlers of an `except` chain are the clauses of a function on the error.
use spy_market_agent.Prelude.{
  ℕ, String, Bool, not, Option, none, some, if◌then◌else◌, Error, Result, ok, err,
  execution_broker_request, execution_broker_rejection, execution_submission_unknown,
  execution_kill_switch, execution_risk, execution_stale_signal, execution_approval,
}
use spy_market_agent.Risk.Models.{RiskConfig, supported_symbol}
use spy_market_agent.Execution.Models.{
  accepted, broker_existing_order_found, blocked, rejected, Settings, PaperOrderInstruction,
  PaperOrderApproval, PaperExecutionAttempt, PaperOrderReceipt, BrokerAccountSnapshot,
  BrokerClockSnapshot, BrokerOrderSnapshot, is_execution_error, is_cancelled,
}
use spy_market_agent.Execution.Action.{
  Action, return_value, raise, from_result, ◌>>=◌, ◌>>◌, handle, suppressing, ask, send,
}
use spy_market_agent.Execution.Repository.{
  get_kill_switch_state, reserve_attempt, record_receipt, mark_submission_unknown, mark_failure,
}
use spy_market_agent.Execution.Service.Broker.{PaperBroker, receipt_from_broker_snapshot}
use spy_market_agent.Execution.Service.Gates.{
  validate_matching_approval, assert_local_permission_gates, assert_environment, assert_account,
  assert_account_configuration, assert_clock, assert_asset, assert_positions, assert_open_orders,
  execution_time_risk_decision,
}

-- what `submit_approved_order` keeps once its checks have passed
pub record Admission : Type 0 where
  pub account : BrokerAccountSnapshot
  pub clock : BrokerClockSnapshot
  pub risk_approved : Bool

module _ {B : Type 0} (broker : PaperBroker B) (new_york_date : ℕ → ℕ)
    (instruction : PaperOrderInstruction) (approval : PaperOrderApproval) where
  -- the account, once the broker's environment, account and configuration are accepted
  unfoldable pub checked_account : Action B BrokerAccountSnapshot
  checked_account = do
    environment ← ask broker.verify_environment
    from_result (assert_environment environment)
    account ← ask broker.get_account
    from_result (assert_account account)
    account_config ← ask broker.get_account_configuration
    from_result (assert_account_configuration account_config)
    return_value account

  -- the clock, on which the instruction and its approval must be current
  unfoldable pub checked_clock : Action B BrokerClockSnapshot
  checked_clock = do
    clock ← ask broker.get_clock
    from_result (
        assert_clock new_york_date clock instruction "market_closed" "instruction_expired"
          "wrong_execution_session")
    from_result (validate_matching_approval instruction approval clock.timestamp)
    return_value clock

  unfoldable pub require_switch_off : String → Action B (Unit {0})
  require_switch_off code = do
    state ← get_kill_switch_state
    if state.kill_switch_engaged then raise (execution_kill_switch code) else return_value tt

  -- whether the risk rules approve the order on the account as it is now
  unfoldable pub checked_risk : RiskConfig → BrokerAccountSnapshot → Action B Bool
  checked_risk risk_config account = do
    asset ← ask (broker.get_asset supported_symbol)
    from_result (assert_asset asset)
    positions ← ask broker.list_positions
    from_result (assert_positions positions instruction)
    open_orders ← ask broker.list_open_orders
    from_result (assert_open_orders open_orders instruction)
    risk ← from_result (execution_time_risk_decision risk_config instruction account positions)
    if not risk.approved
        then raise (execution_risk "execution_risk_rejected")
        else return_value risk.approved

  -- everything up to the reservation
  unfoldable pub admission : Settings → RiskConfig → Action B Admission
  admission settings risk_config = do
    from_result (assert_local_permission_gates settings)
    account ← checked_account
    clock ← checked_clock
    require_switch_off "kill_switch_engaged"
    risk_approved ← checked_risk risk_config account
    return_value (record { account = account; clock = clock; risk_approved = risk_approved })

  unfoldable pub mark_reserved_blocked : ℕ → String → String → Action B (Unit {0})
  mark_reserved_blocked now code event_type =
      suppressing
        (mark_failure instruction.client_order_id instruction.signal_id blocked code now event_type)

  unfoldable pub mark_unknown : String → ℕ → String → Action B PaperExecutionAttempt
  mark_unknown code now event_type =
      mark_submission_unknown instruction.client_order_id instruction.signal_id code now event_type

  unfoldable pub mark_unknown_best_effort : ℕ → String → Action B (Unit {0})
  mark_unknown_best_effort now code = suppressing (mark_unknown code now "submission_unknown")

  -- recording a receipt, with `except Exception`
  unfoldable pub record_or_unknown :
      Action B PaperExecutionAttempt → ℕ → String → Action B PaperExecutionAttempt
  record_or_unknown recording now code = handle recording (λ e.
      if is_cancelled e
      then raise e
      else mark_unknown_best_effort now code >> raise (execution_submission_unknown code))

  -- a receipt of the broker's order, with `except PaperExecutionError`
  unfoldable pub receipt_or_unknown :
      BrokerOrderSnapshot
      → PaperExecutionAttempt
      → String
      → String
      → ℕ
      → String
      → Action B PaperOrderReceipt
  receipt_or_unknown snapshot attempt reconciliation_status code now event_type =
      handle (from_result (receipt_from_broker_snapshot snapshot attempt reconciliation_status))
        (λ e.
          if is_execution_error e
          then mark_unknown code now event_type >> raise (execution_submission_unknown code)
          else raise e)

  -- an order that the broker already has under this client id
  unfoldable pub adopt_existing :
      Admission → PaperExecutionAttempt → BrokerOrderSnapshot → Action B PaperOrderReceipt
  adopt_existing admitted attempt existing = do
    receipt ←
        receipt_or_unknown existing attempt "broker_existing_order_found" "broker_order_mismatch"
          admitted.clock.timestamp "broker_order_mismatch"
    record_or_unknown
        (record_receipt receipt broker_existing_order_found
          (some admitted.account.account_id_fingerprint) admitted.clock.timestamp
          "broker_existing_order_found")
        admitted.clock.timestamp "existing_order_receipt_persistence_failed"
    return_value receipt

  -- the checks of the refreshed clock
  abbrev pub recheck : BrokerClockSnapshot → Result (Unit {0})
  recheck clock =
      elim (assert_clock new_york_date clock instruction "market_closed_before_submission"
        "instruction_expired_before_submission" "wrong_execution_session_before_submission") [
          | err e ↦ err e
          | ok _ ↦ validate_matching_approval instruction approval clock.timestamp
        ]

  -- the `except` clauses around them
  abbrev pub recheck_failed : ℕ → Error → Action B (Unit {0})
  recheck_failed now (execution_approval _) =
      mark_reserved_blocked now "approval_invalid_before_submission" "pre_submission_clock_blocked"
      >> raise (execution_approval "approval_invalid_before_submission")
  recheck_failed now (execution_stale_signal code) =
      mark_reserved_blocked now code "pre_submission_clock_blocked"
      >> raise (execution_stale_signal code)
  recheck_failed now e = raise e

  -- `_refresh_pre_submission_clock`
  unfoldable pub refresh_clock : ℕ → Action B BrokerClockSnapshot
  refresh_clock fallback_now = do
    clock ← handle (ask broker.get_clock) (λ e.
        if is_cancelled e
        then raise e
        else mark_reserved_blocked fallback_now "broker_clock_refresh_failed"
            "pre_submission_clock_blocked"
          >> raise (execution_stale_signal "broker_clock_refresh_failed"))
    handle (from_result (recheck clock)) (recheck_failed clock.timestamp)
    return_value clock

  -- the gate closes: the reserved attempt is blocked with the code
  unfoldable pub close_gate : {A : Type 0} → ℕ → String → Action B A
  close_gate now code =
      mark_reserved_blocked now code "final_kill_switch_blocked"
      >> raise (execution_kill_switch code)

  -- `_assert_final_kill_switch_gate`
  unfoldable pub final_kill_switch_gate : ℕ → Action B (Unit {0})
  final_kill_switch_gate now = do
    state ← handle get_kill_switch_state (λ e.
        if is_execution_error e
        then close_gate now "kill_switch_state_unavailable_before_submission"
        else raise e)
    if state.kill_switch_engaged
        then close_gate now "kill_switch_engaged_before_submission"
        else return_value tt

  -- the `except` clauses around `broker.submit_market_day_order`
  unfoldable pub submission_failed : ℕ → Error → Action B BrokerOrderSnapshot
  submission_failed now (execution_broker_request code) =
      mark_failure instruction.client_order_id instruction.signal_id blocked
        "broker_request_construction_failed" now "broker_request_construction_failed"
      >> raise (execution_broker_request code)
  submission_failed now (execution_broker_rejection code) =
      mark_failure instruction.client_order_id instruction.signal_id rejected code now
        "broker_order_rejected"
      >> raise (execution_broker_rejection code)
  submission_failed now (execution_submission_unknown code) =
      mark_unknown code now "submission_unknown" >> raise (execution_submission_unknown code)
  submission_failed now _ =
      mark_unknown "submission_outcome_unknown" now "submission_unknown"
      >> raise (execution_submission_unknown "submission_outcome_unknown")

  -- the broker's answer becomes the receipt of the attempt
  unfoldable pub settle_submission :
      Admission → PaperExecutionAttempt → ℕ → BrokerOrderSnapshot → Action B PaperOrderReceipt
  settle_submission admitted attempt now snapshot = do
    receipt ←
        receipt_or_unknown snapshot attempt "broker_verified" "broker_snapshot_mismatch" now
          "submission_unknown"
    record_or_unknown
        (record_receipt receipt accepted (some admitted.account.account_id_fingerprint) now
          "broker_order_accepted")
        now "accepted_receipt_persistence_failed"
    return_value receipt

  -- the submission itself
  unfoldable pub deliver : Admission → PaperExecutionAttempt → ℕ → Action B PaperOrderReceipt
  deliver admitted attempt now = do
    snapshot ←
        handle (send instruction (broker.submit_market_day_order instruction))
          (submission_failed now)
    settle_submission admitted attempt now snapshot

  -- the last checks, and the submission
  unfoldable pub submit_reserved : Admission → PaperExecutionAttempt → Action B PaperOrderReceipt
  submit_reserved admitted attempt = do
    submission_clock ← refresh_clock admitted.clock.timestamp
    final_kill_switch_gate submission_clock.timestamp
    deliver admitted attempt submission_clock.timestamp

  -- the reserved attempt, by whether the broker has an order already
  unfoldable pub dispatch :
      Admission → PaperExecutionAttempt → Option BrokerOrderSnapshot → Action B PaperOrderReceipt
  dispatch admitted attempt none = submit_reserved admitted attempt
  dispatch admitted attempt (some existing) = adopt_existing admitted attempt existing

  unfoldable pub reserve_admitted : Admission → Action B PaperExecutionAttempt
  reserve_admitted admitted =
      reserve_attempt instruction approval admitted.risk_approved admitted.clock.timestamp

  unfoldable pub submit_approved_order : Settings → RiskConfig → Action B PaperOrderReceipt
  submit_approved_order settings risk_config = do
    admitted ← admission settings risk_config
    attempt ← reserve_admitted admitted
    existing ← ask (broker.get_order_by_client_order_id instruction.client_order_id)
    dispatch admitted attempt existing
