-- ===== src/Tests/Previews.antt =====
-- preview_submission and the broker's order, on the approved buy of ten shares.
use spy_market_agent.Tests.Executed.{executed}
use spy_market_agent.Tests.Scenario.{instruction, approval, settings, order, row, start}
use spy_market_agent.Prelude.{◌≡◌, refl, true, ok, Result, []}
use spy_market_agent.Text.{has_text, nonblank_text}
use spy_market_agent.Execution.Action.{World}
use spy_market_agent.Prelude.{Bool}
use spy_market_agent.Execution.Ledger.Rows.{is_valid_row}
use spy_market_agent.Execution.Returned.{Disengaged}
use spy_market_agent.Execution.Validated.{make_order_snapshot}
use spy_market_agent.Execution.Service.Gates.{
  validate_matching_approval, assert_local_permission_gates, secret_present,
}
use spy_market_agent.Execution.Service.Passed.{Permitted, Matching}
use spy_market_agent.Execution.Service.Preview.{
  Preview, preview_submission, preview_submission-allowed, gate_codes, approval_codes, switch_codes,
}
use spy_market_agent.Execution.Service.Receipt.{
  ReceiptOutcome, receipt_from_broker_snapshot-IsReceiptFor,
}

abbrev previewed : Result Preview × World Bool
previewed = preview_submission settings instruction approval 3000 (start [])

abbrev all_clear : Preview
all_clear = record { allowed = true; blocked_gate_codes = [] }

previewed-all_clear : previewed.0 ≡ ok all_clear
unfolding executed preview_submission gate_codes approval_codes switch_codes
    validate_matching_approval assert_local_permission_gates secret_present has_text
previewed-all_clear = refl

preview_submission-allowed_example :
    Permitted settings × Matching instruction approval 3000 × Disengaged (start []).ledger
preview_submission-allowed_example =
    preview_submission-allowed settings instruction approval 3000 (start []) previewed-all_clear
      refl

order_checked : make_order_snapshot order ≡ ok order
unfolding executed make_order_snapshot
order_checked = refl

row_valid : is_valid_row row ≡ true
unfolding executed
row_valid = refl

verified_text :
    nonblank_text "broker_verified" "invalid_reconciliation_status" "unsafe_reconciliation_status"
    ≡ ok tt
unfolding executed
verified_text = refl

receipt_from_broker_snapshot-IsReceiptFor_example : ReceiptOutcome order row "broker_verified"
receipt_from_broker_snapshot-IsReceiptFor_example =
    receipt_from_broker_snapshot-IsReceiptFor order row "broker_verified" order_checked row_valid
      verified_text
