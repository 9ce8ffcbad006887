-- ===== src/Execution/Models.antt =====
-- execution/models.py: instructions, approvals, what the broker answers, and the ledger's rows.
-- A UTC time is a number of microseconds, a date its ordinal.
use spy_market_agent.Prelude.{
  ℕ, String, cancelled, Bool, true, false, Option, List, Error, execution_input,
  execution_configuration, execution_permission, execution_approval, execution_risk,
  execution_duplicate, execution_stale_signal, execution_kill_switch, execution_broker_state,
  execution_broker_transport, execution_broker_request, execution_broker_rejection,
  execution_submission_unknown, execution_integrity, execution_not_found,
}
use spy_market_agent.Prelude.Int.{ℤ}
use spy_market_agent.Decimal.{Decimal}
use spy_market_agent.Risk.Orders.{ProposedOrder, RiskDecision}
use spy_market_agent.Risk.Rules.{CostAssumptions}

abbrev pub execution_schema_version : String
execution_schema_version = "spy-paper-execution-v1"

abbrev pub control_schema_version : String
control_schema_version = "spy-paper-execution-control-v1"

abbrev pub alpaca_paper_endpoint : String
alpaca_paper_endpoint = "https://paper-api.alpaca.markets"

abbrev pub disengage_confirmation : String
disengage_confirmation = "DISENGAGE_PAPER_EXECUTION_KILL_SWITCH"

-- PAPER_ATTEMPT_STATES
pub data AttemptStatus : Type 0 where
  reserved broker_existing_order_found accepted rejected : AttemptStatus
  submission_unknown reconciled blocked : AttemptStatus

-- the constants' texts
abbrev pub status_text : AttemptStatus → String
status_text reserved = "reserved"
status_text broker_existing_order_found = "broker_existing_order_found"
status_text accepted = "accepted"
status_text rejected = "rejected"
status_text submission_unknown = "submission_unknown"
status_text reconciled = "reconciled"
status_text blocked = "blocked"

-- whether an exception is a `PaperExecutionError`
abbrev pub is_execution_error : Error → Bool
is_execution_error (execution_input _) = true
is_execution_error (execution_configuration _) = true
is_execution_error (execution_permission _) = true
is_execution_error (execution_approval _) = true
is_execution_error (execution_risk _) = true
is_execution_error (execution_duplicate _) = true
is_execution_error (execution_stale_signal _) = true
is_execution_error (execution_kill_switch _) = true
is_execution_error (execution_broker_state _) = true
is_execution_error (execution_broker_transport _) = true
is_execution_error (execution_broker_request _) = true
is_execution_error (execution_broker_rejection _) = true
is_execution_error (execution_submission_unknown _) = true
is_execution_error (execution_integrity _) = true
is_execution_error (execution_not_found _) = true
is_execution_error _ = false

-- the code of a `PaperExecutionError`
abbrev pub error_code : Error → String
error_code (execution_input code) = code
error_code (execution_configuration code) = code
error_code (execution_permission code) = code
error_code (execution_approval code) = code
error_code (execution_risk code) = code
error_code (execution_duplicate code) = code
error_code (execution_stale_signal code) = code
error_code (execution_kill_switch code) = code
error_code (execution_broker_state code) = code
error_code (execution_broker_transport code) = code
error_code (execution_broker_request code) = code
error_code (execution_broker_rejection code) = code
error_code (execution_submission_unknown code) = code
error_code (execution_integrity code) = code
error_code (execution_not_found code) = code
error_code _ = ""

-- `asyncio.CancelledError` is no `Exception`.
abbrev pub is_cancelled : Error → Bool
is_cancelled cancelled = true
is_cancelled _ = false

pub record PaperOrderInstruction : Type 0 where
  pub schema_version : String
  pub signal_id : String
  pub client_order_id : String
  pub proposed_order : ProposedOrder
  pub original_risk_decision : RiskDecision
  pub cost_assumptions : CostAssumptions
  pub created_at_utc : ℕ
  pub expires_at_utc : ℕ
  pub instruction_fingerprint : String

pub record PaperOrderApproval : Type 0 where
  pub approval_id : String
  pub signal_id : String
  pub client_order_id : String
  pub instruction_fingerprint : String
  pub approved : Bool
  pub approved_at_utc : ℕ
  pub approved_by : String
  pub approval_reason : String

pub record BrokerEnvironmentSnapshot : Type 0 where
  pub environment_name : String
  pub endpoint_identity : String
  pub is_paper : Bool
  pub verified_at_utc : ℕ

pub record BrokerAccountSnapshot : Type 0 where
  pub status : String
  pub currency : String
  pub cash : Decimal
  pub equity : Decimal
  pub buying_power : Decimal
  pub trading_blocked : Bool
  pub account_blocked : Bool
  pub trade_suspended_by_user : Bool
  pub account_id_fingerprint : String
  pub retrieved_at_utc : ℕ

pub record BrokerAccountConfigurationSnapshot : Type 0 where
  pub no_shorting : Bool
  pub max_margin_multiplier : Decimal
  pub fractional_trading_enabled : Bool
  pub suspend_trade : Bool
  pub retrieved_at_utc : ℕ

pub record BrokerClockSnapshot : Type 0 where
  pub timestamp : ℕ
  pub is_open : Bool
  pub next_open : ℕ
  pub next_close : ℕ

pub record BrokerAssetSnapshot : Type 0 where
  pub symbol : String
  pub active : Bool
  pub tradable : Bool
  pub fractionable : Bool
  pub asset_class : String

pub record BrokerPositionSnapshot : Type 0 where
  pub symbol : String
  pub side : String
  pub quantity : Decimal
  pub available_quantity : Decimal
  pub current_price : Option Decimal

pub record BrokerOpenOrderSnapshot : Type 0 where
  pub broker_order_id : String
  pub client_order_id : String
  pub symbol : String
  pub side : String
  pub quantity : Decimal
  pub filled_quantity : Decimal
  pub status : String
  pub submitted_at_utc : Option ℕ

pub record BrokerOrderSnapshot : Type 0 where
  pub broker_order_id : String
  pub client_order_id : String
  pub broker_order_status : String
  pub symbol : String
  pub side : String
  pub submitted_quantity : ℤ
  pub filled_quantity : Option ℤ
  pub order_type : String
  pub time_in_force : String
  pub extended_hours : Bool
  pub submitted_at_utc : ℕ
  pub broker_response_at_utc : Option ℕ
  pub sanitized_request_id : Option String
  pub execution_environment : String

pub record PaperOrderReceipt : Type 0 where
  pub signal_id : String
  pub client_order_id : String
  pub instruction_fingerprint : String
  pub broker_order_id : String
  pub broker_order_status : String
  pub symbol : String
  pub side : String
  pub submitted_quantity : ℤ
  pub filled_quantity : Option ℤ
  pub order_type : String
  pub time_in_force : String
  pub extended_hours : Bool
  pub submitted_at_utc : ℕ
  pub broker_response_at_utc : Option ℕ
  pub sanitized_request_id : Option String
  pub execution_environment : String
  pub reconciliation_status : String

pub record PaperExecutionControlState : Type 0 where
  pub kill_switch_engaged : Bool
  pub updated_at_utc : ℕ
  pub reason : String
  pub control_version : String

-- a row of `paper_execution_attempts`
pub record PaperExecutionAttempt : Type 0 where
  pub signal_id : String
  pub client_order_id : String
  pub approval_id : String
  pub instruction_fingerprint : String
  pub schema_version : String
  pub symbol : String
  pub side : String
  pub quantity : ℤ
  pub signal_session : ℕ
  pub execution_session : ℕ
  pub instruction_created_at_utc : ℕ
  pub expires_at_utc : ℕ
  pub approval_at_utc : ℕ
  pub approval_source : String
  pub original_risk_approved : Bool
  pub execution_risk_approved : Bool
  pub attempt_status : AttemptStatus
  pub broker_order_id : Option String
  pub broker_status : Option String
  pub broker_environment : Option String
  pub account_id_fingerprint : Option String
  pub sanitized_request_id : Option String
  pub created_at_utc : ℕ
  pub updated_at_utc : ℕ
  pub failure_code : Option String

-- what an event records beside its codes: `{"engaged": ...}` or a text under a key
pub data MetadataValue : Type 0 where
  text_value : String → MetadataValue
  bool_value : Bool → MetadataValue

-- what an event's prior and new state say: of an attempt, or of the kill switch
pub data EventState : Type 0 where
  attempt_state : AttemptStatus → EventState
  switch_state : Bool → EventState

-- a row of `paper_execution_events`
pub record PaperExecutionEvent : Type 0 where
  pub event_id : ℕ
  pub signal_id : Option String
  pub client_order_id : Option String
  pub event_type : String
  pub prior_state : Option EventState
  pub new_state : Option EventState
  pub event_timestamp_utc : ℕ
  pub safe_reason_code : String
  pub safe_metadata : List (String × MetadataValue)

-- config/settings.py: what paper execution reads
pub record Settings : Type 0 where
  pub execution_mode : String
  pub paper_execution_kill_switch : Bool
  pub enable_paper_execution : Bool
  pub dry_run : Bool
  pub alpaca_api_key : Option String
  pub alpaca_secret_key : Option String
