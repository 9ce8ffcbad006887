-- ===== src/Execution/Service/Broker.antt =====
-- execution/protocols.py: the broker, whose answers and state are parameters; and the receipts that
-- execution/service.py makes of its orders.
use spy_market_agent.Prelude.{
  String, not, ◌||◌, Option, List, str_eq, Result, ok, raise_if, ◌>>◌, execution_broker_state,
}
use spy_market_agent.Prelude.Int.{eqb_ℤ}
use spy_market_agent.Risk.Models.{supported_symbol}
use spy_market_agent.Execution.Models.{
  PaperOrderInstruction, PaperExecutionAttempt, PaperOrderReceipt, BrokerEnvironmentSnapshot,
  BrokerAccountSnapshot, BrokerAccountConfigurationSnapshot, BrokerClockSnapshot,
  BrokerAssetSnapshot, BrokerPositionSnapshot, BrokerOpenOrderSnapshot, BrokerOrderSnapshot,
}
use spy_market_agent.Execution.Validated.{make_receipt}

-- PaperBrokerProtocol
pub record PaperBroker (B : Type 0) : Type 0 where
  pub verify_environment : B → Result BrokerEnvironmentSnapshot × B
  pub get_account : B → Result BrokerAccountSnapshot × B
  pub get_account_configuration : B → Result BrokerAccountConfigurationSnapshot × B
  pub get_clock : B → Result BrokerClockSnapshot × B
  pub get_asset : String → B → Result BrokerAssetSnapshot × B
  pub list_positions : B → Result (List BrokerPositionSnapshot) × B
  pub list_open_orders : B → Result (List BrokerOpenOrderSnapshot) × B
  pub get_order_by_client_order_id : String → B → Result (Option BrokerOrderSnapshot) × B
  pub submit_market_day_order : PaperOrderInstruction → B → Result BrokerOrderSnapshot × B

-- `_validate_broker_snapshot_against_attempt`
unfoldable pub validate_snapshot : BrokerOrderSnapshot → PaperExecutionAttempt → Result (Unit {0})
validate_snapshot snapshot attempt = do
  raise_if (not (str_eq snapshot.client_order_id attempt.client_order_id))
      (execution_broker_state "broker_client_order_id_mismatch")
  raise_if (not (str_eq snapshot.symbol supported_symbol))
      (execution_broker_state "broker_symbol_mismatch")
  raise_if (not (str_eq snapshot.side attempt.side)) (execution_broker_state "broker_side_mismatch")
  raise_if (not (eqb_ℤ snapshot.submitted_quantity attempt.quantity))
      (execution_broker_state "broker_quantity_mismatch")
  raise_if
      (not (str_eq snapshot.order_type "market")
        || not (str_eq snapshot.time_in_force "day")
        || snapshot.extended_hours)
      (execution_broker_state "unsupported_broker_order_contract")
  raise_if (not (str_eq snapshot.execution_environment "alpaca_paper"))
      (execution_broker_state "unsupported_broker_environment")
  ok tt

abbrev pub receipt_of : BrokerOrderSnapshot → PaperExecutionAttempt → String → PaperOrderReceipt
receipt_of snapshot attempt reconciliation_status = record {
  signal_id = attempt.signal_id;
  client_order_id = snapshot.client_order_id;
  instruction_fingerprint = attempt.instruction_fingerprint;
  broker_order_id = snapshot.broker_order_id;
  broker_order_status = snapshot.broker_order_status;
  symbol = snapshot.symbol;
  side = snapshot.side;
  submitted_quantity = snapshot.submitted_quantity;
  filled_quantity = snapshot.filled_quantity;
  order_type = snapshot.order_type;
  time_in_force = snapshot.time_in_force;
  extended_hours = snapshot.extended_hours;
  submitted_at_utc = snapshot.submitted_at_utc;
  broker_response_at_utc = snapshot.broker_response_at_utc;
  sanitized_request_id = snapshot.sanitized_request_id;
  execution_environment = snapshot.execution_environment;
  reconciliation_status = reconciliation_status;
}

-- `_receipt_from_broker_snapshot`
unfoldable pub receipt_from_broker_snapshot :
    BrokerOrderSnapshot → PaperExecutionAttempt → String → Result PaperOrderReceipt
receipt_from_broker_snapshot snapshot attempt reconciliation_status = do
  validate_snapshot snapshot attempt
  make_receipt (receipt_of snapshot attempt reconciliation_status)
