-- ===== src/Tests/Executed.antt =====
-- The definitions that a run of the ledger's transactions computes with.
use spy_market_agent.Execution.Ledger.Rows.{
  find_attempt, reserved_row, update_attempt, get_attempt_from, attempt_from_row, is_valid_row,
}
use spy_market_agent.Execution.Ledger.Receipts.{receipt_body, validate_receipt}
use spy_market_agent.Execution.Action.{
  ◌>>=◌, from_result, handle, raise, return_value, reading, transact,
}
use spy_market_agent.Text.{
  is_execution_id, is_sha256, nonblank_text, is_nonblank, is_credential_like,
}
use spy_market_agent.Execution.Repository.{
  record_receipt, set_paper_execution_kill_switch, switch_body, control_state,
  get_kill_switch_state,
}

unfoldable pub executed : Unit {0}
unfolding record_receipt transact reading receipt_body get_attempt_from find_attempt
    attempt_from_row is_valid_row is_execution_id is_sha256 nonblank_text is_nonblank
    is_credential_like validate_receipt update_attempt reserved_row ◌>>=◌ from_result handle raise
    return_value set_paper_execution_kill_switch switch_body control_state get_kill_switch_state
executed = tt
