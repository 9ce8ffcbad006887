-- ===== src/Execution/Ledger/Rows.antt =====
-- execution/repository.py: the tables and what one transaction does to them. A body takes the
-- tables, and raises or returns the new tables with the outcome of what is read after the commit;
-- `Execution.Repository` runs it, and commits or rolls back. Rows are held decoded; the tables keep SQLite's constraints.
use spy_market_agent.Prelude.{
  ℕ, suc, String, Bool, true, not, ◌&&◌, ◌||◌, Option, none, some, List, [], ◌∷◌, any, length, ◌==◌,
  str_eq, if◌then◌else◌, Result, ok, err, execution_duplicate, execution_integrity,
  execution_not_found, raise_if, ◌>>=◌, ◌>>◌,
}
use spy_market_agent.Prelude.Int.{pos, leb_ℤ}
use spy_market_agent.Risk.Orders.{is_order_side}
use spy_market_agent.Risk.Models.{supported_symbol}
use spy_market_agent.Text.{is_execution_id, is_sha256}
use spy_market_agent.Execution.Models.{
  reserved, PaperOrderInstruction, PaperOrderApproval, PaperExecutionAttempt, PaperExecutionEvent,
  EventState, attempt_state, MetadataValue, text_value, execution_schema_version,
}

-- the singleton row of `paper_execution_control`
pub record ControlRow : Type 0 where
  pub kill_switch_engaged : ℕ
  pub updated_at_utc : ℕ
  pub reason : String
  pub control_version : String

pub record Ledger : Type 0 where
  pub control : Option ControlRow
  pub attempts : List PaperExecutionAttempt
  pub events : List PaperExecutionEvent

-- `SELECT * FROM paper_execution_attempts WHERE client_order_id = ?`
unfoldable pub find_attempt : String → List PaperExecutionAttempt → Option PaperExecutionAttempt
find_attempt key [] = none
find_attempt key (a ∷ rest) = if str_eq a.client_order_id key then some a else find_attempt key rest

-- `UPDATE paper_execution_attempts SET ... WHERE client_order_id = ?`
unfoldable pub update_attempt :
    String
    → (PaperExecutionAttempt → PaperExecutionAttempt)
    → List PaperExecutionAttempt
    → List PaperExecutionAttempt
update_attempt key change [] = []
update_attempt key change (a ∷ rest) =
    (if str_eq a.client_order_id key then change a else a) ∷ update_attempt key change rest

-- `_optional_checksum`
abbrev optional_checksum : Option String → Bool
optional_checksum none = true
optional_checksum (some value) = is_sha256 value

-- the checks of `_attempt_from_row` that a decoded row can fail
unfoldable pub is_valid_row : PaperExecutionAttempt → Bool
is_valid_row a =
    str_eq a.symbol supported_symbol
    && is_order_side a.side
    && str_eq a.schema_version execution_schema_version
    && is_execution_id a.signal_id
    && is_execution_id a.client_order_id
    && is_execution_id a.approval_id
    && is_sha256 a.instruction_fingerprint
    && leb_ℤ (pos 1) a.quantity
    && not (str_eq a.approval_source "")
    && optional_checksum a.account_id_fingerprint

unfoldable pub attempt_from_row : PaperExecutionAttempt → Result PaperExecutionAttempt
attempt_from_row a =
    if is_valid_row a then ok a else err (execution_integrity "invalid_paper_execution_attempt")

unfoldable pub get_attempt_from : Ledger → String → Result PaperExecutionAttempt
get_attempt_from l key = elim (find_attempt key l.attempts) [
  | none ↦ err (execution_not_found "paper_order_not_found")
  | some a ↦ attempt_from_row a
]

-- The row that `_insert_event` inserts. The identifier is SQLite's AUTOINCREMENT over a table that
-- is never deleted from.
abbrev pub event_row :
    Option String
    → Option String
    → String
    → Option EventState
    → Option EventState
    → ℕ
    → String
    → List (String × MetadataValue)
    → List PaperExecutionEvent
    → PaperExecutionEvent
event_row signal key event_type prior new now reason metadata events = record {
  event_id = suc (length events);
  signal_id = signal;
  client_order_id = key;
  event_type = event_type;
  prior_state = prior;
  new_state = new;
  event_timestamp_utc = now;
  safe_reason_code = reason;
  safe_metadata = metadata;
}

-- the row that `reserve_attempt` inserts
unfoldable pub reserved_row :
    PaperOrderInstruction → PaperOrderApproval → Bool → ℕ → PaperExecutionAttempt
reserved_row instruction approval risk_approved now =
    let order = instruction.proposed_order in
    record {
      signal_id = instruction.signal_id;
      client_order_id = instruction.client_order_id;
      approval_id = approval.approval_id;
      instruction_fingerprint = instruction.instruction_fingerprint;
      schema_version = instruction.schema_version;
      symbol = order.symbol;
      side = order.side;
      quantity = order.quantity;
      signal_session = order.signal_session;
      execution_session = order.execution_session;
      instruction_created_at_utc = instruction.created_at_utc;
      expires_at_utc = instruction.expires_at_utc;
      approval_at_utc = approval.approved_at_utc;
      approval_source = approval.approved_by;
      original_risk_approved = instruction.original_risk_decision.approved;
      execution_risk_approved = risk_approved;
      attempt_status = reserved;
      broker_order_id = none;
      broker_status = none;
      broker_environment = none;
      account_id_fingerprint = none;
      sanitized_request_id = none;
      created_at_utc = now;
      updated_at_utc = now;
      failure_code = none;
    }

abbrev pub same_session : PaperExecutionAttempt → PaperExecutionAttempt → Bool
same_session a b = str_eq a.symbol b.symbol && a.execution_session == b.execution_session

abbrev pub same_identifier : PaperExecutionAttempt → PaperExecutionAttempt → Bool
same_identifier a b =
    str_eq a.client_order_id b.client_order_id
    || str_eq a.signal_id b.signal_id
    || str_eq a.approval_id b.approval_id

-- `_require_symbol_execution_session_available`, and the unique index on the same two columns
unfoldable pub session_taken : PaperExecutionAttempt → List PaperExecutionAttempt → Bool
session_taken row attempts = any (same_session row) attempts

-- the primary key and the UNIQUE columns
unfoldable pub identifier_taken : PaperExecutionAttempt → List PaperExecutionAttempt → Bool
identifier_taken row attempts = any (same_identifier row) attempts

-- the tables with the reserved row and its event
abbrev pub with_reserved : PaperExecutionAttempt → ℕ → Ledger → Ledger
with_reserved row now l = record l {
  attempts = row ∷ l.attempts;
  events =
      event_row (some row.signal_id) (some row.client_order_id) "attempt_reserved" none
        (some (attempt_state reserved)) now "reserved"
        (("approval_id", text_value row.approval_id) ∷ []) l.events
      ∷ l.events;
}

-- the transaction of `reserve_attempt`, for a row that is to be inserted
unfoldable pub reserve_row :
    PaperExecutionAttempt → ℕ → Ledger → Result (Result PaperExecutionAttempt × Ledger)
reserve_row row now l = do
  raise_if (session_taken row l.attempts) (execution_duplicate "execution_session_already_reserved")
  raise_if (leb_ℤ row.quantity (pos 0)) (execution_integrity "attempt_reservation_failed")
  raise_if (identifier_taken row l.attempts) (execution_duplicate "duplicate_execution_identifier")
  a ← get_attempt_from (with_reserved row now l) row.client_order_id
  ok (ok a, with_reserved row now l)
