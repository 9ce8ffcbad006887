-- ===== src/Tests/PaperExecution.antt =====
-- execution/service.py and execution/repository.py run on the approved buy of ten shares.
use spy_market_agent.Tests.Executed.{executed}
use spy_market_agent.Tests.Scenario.{
  instruction, approval, settings, broker, today, start, row, receipt, old,
}
use spy_market_agent.Prelude.{
  ◌≡◌, refl, Bool, false, none, some, [], ◌∷◌, Result, ok, err, execution_duplicate,
  persistence_error, All,
}
use spy_market_agent.Decimal.{from_int, one_decimal}
use spy_market_agent.Tests.RiskRules.{config, evaluated}
use spy_market_agent.Execution.Models.{
  accepted, PaperOrderInstruction, PaperExecutionAttempt, PaperExecutionControlState,
  control_schema_version, disengage_confirmation,
}
use spy_market_agent.Execution.Ledger.Rows.{
  find_attempt, reserved_row, reserve_row, session_taken, identifier_taken,
}
use spy_market_agent.Execution.Ledger.Receipts.{require_mark_arguments}
use spy_market_agent.Execution.Ledger.Evolution.{Distinct, SameOrder}
use spy_market_agent.Execution.Action.{World, ask, send, suppressing, no_outage, unopened}
use spy_market_agent.Decimal
use spy_market_agent.Text.{has_text, lower_eq}
use spy_market_agent.Execution.Validated.{make_receipt}
use spy_market_agent.Execution.Service.Gates.{
  assert_local_permission_gates, secret_present, assert_environment, assert_account,
  assert_account_configuration, assert_clock, validate_matching_approval, assert_asset,
  assert_positions, assert_open_orders, execution_time_risk_decision,
}
use spy_market_agent.Execution.Quiet.{Quiet}
use spy_market_agent.Execution.Repository.{
  record_receipt, mark_submission_unknown, set_paper_execution_kill_switch, reserve_attempt,
}
use spy_market_agent.Execution.Recorded.{Taken, record_receipt-Taken}
use spy_market_agent.Execution.Switch.{Switched, set_paper_execution_kill_switch-Switched}
use spy_market_agent.Backtest.Models.{make_cost_assumptions}
use spy_market_agent.Execution.Service.Broker.{receipt_from_broker_snapshot, validate_snapshot}
use spy_market_agent.Execution.Service.Submission.{
  submit_approved_order, admission, checked_account, checked_clock, require_switch_off,
  checked_risk, reserve_admitted, dispatch, submit_reserved, refresh_clock, final_kill_switch_gate,
  deliver, settle_submission, receipt_or_unknown, record_or_unknown, mark_unknown_best_effort,
  mark_unknown, mark_reserved_blocked,
}
use spy_market_agent.Execution.Service.Reconciliation.{reconcile_by_client_order_id}
use spy_market_agent.Execution.Service.Quiet.{reconcile_by_client_order_id-IsQuiet}
use spy_market_agent.Execution.Service.Outcome.{Ends, Submitted, submit_approved_order_safe}
use spy_market_agent.Execution.Service.Runs.{
  Runs, done, after, submits, reconciles, SentOnce, run_sends_once, run_keeps-Distinct,
  run_keeps_final,
}

-- the world after the submission
abbrev sent : World Bool
sent = (submit_approved_order broker today instruction approval settings config (start [])).1

submit_approved_order_safe_example :
    Ends
      (Submitted broker today settings config instruction approval (start []))
      instruction
      (start [])
      sent
submit_approved_order_safe_example =
    submit_approved_order_safe broker today instruction approval settings config (start [])

-- a second submission, and a reconciliation
abbrev twice : World Bool
twice = (submit_approved_order broker today instruction approval settings config sent).1

abbrev settled : World Bool
settled = (reconcile_by_client_order_id broker 4000 "order-1" twice).1

abbrev run : Runs broker today (start []) settled
run = after (submits instruction approval settings config (start [])) (
    after (submits instruction approval settings config sent)
      (after (reconciles 4000 "order-1" twice) done))

run_sends_once_example :
    SentOnce settled.submitted
    × All
        (λ (i : PaperOrderInstruction).
          (a : PaperExecutionAttempt) × (find_attempt i.client_order_id settled.ledger.attempts
            ≡ some a))
        settled.submitted
run_sends_once_example = run_sends_once broker today refl run

run_keeps-Distinct_example : Distinct settled.ledger.attempts
run_keeps-Distinct_example = run_keeps-Distinct broker today run tt

reconcile_by_client_order_id-IsQuiet_example : Quiet twice settled
reconcile_by_client_order_id-IsQuiet_example =
    reconcile_by_client_order_id-IsQuiet broker 4000 "order-1" twice

old_found : find_attempt "order-1" (old ∷ []) ≡ some old
unfolding find_attempt reserved_row
old_found = refl

abbrev again : World Bool
again =
    (submit_approved_order broker today instruction approval settings config (start (old ∷ []))).1

run_keeps_final_example :
    (a : PaperExecutionAttempt) × (find_attempt "order-1" again.ledger.attempts ≡ some a)
    × (a.attempt_status ≡ accepted)
    × SameOrder old a
run_keeps_final_example =
    run_keeps_final broker today "order-1" old
      (after (submits instruction approval settings config (start (old ∷ []))) done) old_found refl

abbrev recorded : Result PaperExecutionAttempt × World Bool
recorded = record_receipt receipt accepted none 3000 "broker_order_accepted" (start (row ∷ []))

recorded-old : recorded.0 ≡ ok old
unfolding executed
recorded-old = refl

record_receipt-Taken_example : Taken receipt accepted recorded.1.ledger
record_receipt-Taken_example =
    record_receipt-Taken receipt accepted none 3000 "broker_order_accepted" (start (row ∷ []))
      recorded-old

abbrev switched_off : Result PaperExecutionControlState × World Bool
switched_off =
    set_paper_execution_kill_switch false "market checked" 4000 (some disengage_confirmation)
      (start [])

abbrev off_state : PaperExecutionControlState
off_state = record {
  kill_switch_engaged = false;
  updated_at_utc = 4000;
  reason = "market checked";
  control_version = control_schema_version;
}

switched_off-state : switched_off.0 ≡ ok off_state
unfolding executed
switched_off-state = refl

set_paper_execution_kill_switch-Switched_example :
    Switched false "market checked" (some disengage_confirmation) off_state
set_paper_execution_kill_switch-Switched_example =
    set_paper_execution_kill_switch-Switched false "market checked" 4000
      (some disengage_confirmation) (start []) switched_off-state

-- the first submission returns the receipt, and the second is refused
submission : Unit {0}
unfolding executed evaluated submit_approved_order admission checked_account checked_clock
    require_switch_off checked_risk assert_local_permission_gates secret_present has_text
    assert_environment assert_account lower_eq assert_account_configuration assert_clock
    validate_matching_approval assert_asset assert_positions assert_open_orders
    execution_time_risk_decision make_cost_assumptions reserve_admitted reserve_attempt reserve_row
    session_taken identifier_taken dispatch submit_reserved refresh_clock final_kill_switch_gate
    deliver send ask settle_submission receipt_or_unknown receipt_from_broker_snapshot
    validate_snapshot make_receipt record_or_unknown mark_unknown_best_effort mark_unknown
    mark_submission_unknown require_mark_arguments mark_reserved_blocked suppressing
    Decimal.truncate
submission = tt

sent-receipt :
    (submit_approved_order broker today instruction approval settings config (start [])).0
    ≡ ok receipt
unfolding submission
sent-receipt = refl

twice-refused :
    (submit_approved_order broker today instruction approval settings config sent).0
    ≡ err (execution_duplicate "execution_session_already_reserved")
unfolding submission
twice-refused = refl

-- The ledger's file is gone once the broker has taken the order: the mark in the handler raises
-- what the receipt's transaction raised, which is no `PaperExecutionError`.
abbrev fading : World Bool
fading = record (start []) {
  outages = no_outage ∷ no_outage ∷ no_outage ∷ unopened ∷ unopened ∷ [];
}

lost_ledger :
    (submit_approved_order broker today instruction approval settings config fading).0
    ≡ err (persistence_error "database_unavailable")
unfolding submission
lost_ledger = refl
