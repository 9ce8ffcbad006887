-- ===== src/Execution/Validated.antt =====
-- execution/models.py: the `__post_init__` checks of the records of an order, which return the
-- record. The fingerprint of an instruction's content is a parameter.
use spy_market_agent.Prelude.{
  String, not, ◌||◌, Option, none, some, leb, str_eq, Result, ok, raise_if, ◌>>◌, execution_input,
}
use spy_market_agent.Prelude.Int.{ℤ, pos, ltb_ℤ, eqb_ℤ}
use spy_market_agent.Text.{nonblank_text, is_execution_id, is_sha256}
use spy_market_agent.Risk.Models.{supported_symbol}
use spy_market_agent.Risk.Orders.{is_order_side}
use spy_market_agent.Execution.Models.{
  PaperOrderInstruction, PaperOrderApproval, BrokerOrderSnapshot, PaperOrderReceipt,
  execution_schema_version,
}

abbrev pub optional_text : Option String → String → String → Result (Unit {0})
optional_text none invalid unsafe = ok tt
optional_text (some value) invalid unsafe = nonblank_text value invalid unsafe

-- the filled quantity, when there is one
abbrev pub filled_within : Option ℤ → ℤ → Result (Unit {0})
filled_within none submitted = ok tt
filled_within (some filled) submitted = do
  raise_if (ltb_ℤ filled (pos 0)) (execution_input "invalid_filled_quantity")
  raise_if (ltb_ℤ submitted filled) (execution_input "filled_quantity_exceeds_submitted_quantity")
  ok tt

unfoldable pub make_order_snapshot : BrokerOrderSnapshot → Result BrokerOrderSnapshot
make_order_snapshot s = do
  nonblank_text s.broker_order_id "invalid_broker_order_id" "unsafe_broker_order_id"
  raise_if (not (is_execution_id s.client_order_id)) (execution_input "invalid_client_order_id")
  nonblank_text s.broker_order_status "invalid_broker_order_status" "unsafe_broker_order_status"
  nonblank_text s.symbol "invalid_symbol" "unsafe_symbol"
  raise_if (not (is_order_side s.side)) (execution_input "invalid_side")
  raise_if (ltb_ℤ s.submitted_quantity (pos 1)) (execution_input "invalid_submitted_quantity")
  filled_within s.filled_quantity s.submitted_quantity
  nonblank_text s.order_type "invalid_order_type" "unsafe_order_type"
  nonblank_text s.time_in_force "invalid_time_in_force" "unsafe_time_in_force"
  optional_text s.sanitized_request_id "invalid_sanitized_request_id" "unsafe_sanitized_request_id"
  nonblank_text s.execution_environment "invalid_execution_environment"
      "unsafe_execution_environment"
  ok s

unfoldable pub make_receipt : PaperOrderReceipt → Result PaperOrderReceipt
make_receipt r = do
  raise_if (not (is_execution_id r.signal_id)) (execution_input "invalid_signal_id")
  raise_if (not (is_execution_id r.client_order_id)) (execution_input "invalid_client_order_id")
  raise_if (not (is_sha256 r.instruction_fingerprint))
      (execution_input "invalid_instruction_fingerprint")
  nonblank_text r.broker_order_id "invalid_broker_order_id" "unsafe_broker_order_id"
  nonblank_text r.broker_order_status "invalid_broker_order_status" "unsafe_broker_order_status"
  raise_if (not (str_eq r.symbol supported_symbol)) (execution_input "unsupported_symbol")
  raise_if (not (is_order_side r.side)) (execution_input "invalid_side")
  raise_if (ltb_ℤ r.submitted_quantity (pos 1)) (execution_input "invalid_submitted_quantity")
  filled_within r.filled_quantity r.submitted_quantity
  raise_if
      (not (str_eq r.order_type "market") || not (str_eq r.time_in_force "day") || r.extended_hours)
      (execution_input "unsupported_order_contract")
  optional_text r.sanitized_request_id "invalid_sanitized_request_id" "unsafe_sanitized_request_id"
  nonblank_text r.execution_environment "invalid_execution_environment"
      "unsafe_execution_environment"
  nonblank_text r.reconciliation_status "invalid_reconciliation_status"
      "unsafe_reconciliation_status"
  ok r

-- `compute_instruction_fingerprint` hashes the other fields of the instruction.
unfoldable pub make_instruction :
    (PaperOrderInstruction → String) → PaperOrderInstruction → Result PaperOrderInstruction
make_instruction fingerprint i = do
  raise_if (not (str_eq i.schema_version execution_schema_version))
      (execution_input "invalid_execution_schema_version")
  raise_if (not (is_execution_id i.signal_id)) (execution_input "invalid_signal_id")
  raise_if (not (is_execution_id i.client_order_id)) (execution_input "invalid_client_order_id")
  raise_if (not i.original_risk_decision.approved) (execution_input "original_risk_not_approved")
  raise_if
      (not (eqb_ℤ i.original_risk_decision.order_sequence_number i.proposed_order.sequence_number))
      (execution_input "risk_order_mismatch")
  raise_if (not (str_eq i.proposed_order.symbol supported_symbol))
      (execution_input "unsupported_symbol")
  raise_if (ltb_ℤ i.proposed_order.quantity (pos 1)) (execution_input "invalid_quantity")
  raise_if (leb i.expires_at_utc i.created_at_utc) (execution_input "invalid_expiration")
  raise_if (not (is_sha256 i.instruction_fingerprint))
      (execution_input "invalid_instruction_fingerprint")
  raise_if (not (str_eq i.instruction_fingerprint (fingerprint i)))
      (execution_input "instruction_fingerprint_mismatch")
  ok i

unfoldable pub make_approval : PaperOrderApproval → Result PaperOrderApproval
make_approval a = do
  raise_if (not (is_execution_id a.approval_id)) (execution_input "invalid_approval_id")
  raise_if (not (is_execution_id a.signal_id)) (execution_input "invalid_signal_id")
  raise_if (not (is_execution_id a.client_order_id)) (execution_input "invalid_client_order_id")
  raise_if (not (is_sha256 a.instruction_fingerprint))
      (execution_input "invalid_instruction_fingerprint")
  raise_if (not a.approved) (execution_input "approval_not_true")
  nonblank_text a.approved_by "invalid_approved_by" "unsafe_approved_by"
  nonblank_text a.approval_reason "invalid_approval_reason" "unsafe_approval_reason"
  ok a
