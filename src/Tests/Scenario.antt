-- ===== src/Tests/Scenario.antt =====
-- An approved buy of ten shares, and a broker that accepts it.
use spy_market_agent.Prelude.{ℕ, String, Bool, true, false, none, some, List, [], ok}
use spy_market_agent.Prelude.Int.{pos}
use spy_market_agent.Decimal.{from_int, one_decimal}
use spy_market_agent.Tests.RiskRules.{buy_ten, costs, after_buy}
use spy_market_agent.Execution.Models.{
  accepted, PaperOrderInstruction, PaperOrderApproval, BrokerAccountSnapshot, BrokerOrderSnapshot,
  PaperExecutionAttempt, PaperOrderReceipt, Settings, execution_schema_version,
  control_schema_version, alpaca_paper_endpoint,
}
use spy_market_agent.Execution.Ledger.Rows.{Ledger, reserved_row}
use spy_market_agent.Execution.Ledger.Receipts.{with_receipt}
use spy_market_agent.Execution.Action.{World}
use spy_market_agent.Execution.Service.Broker.{PaperBroker, receipt_of}

abbrev pub digest : String
digest = "0123456789abcdef0123456789abcdef0123456789abcdef0123456789abcdef"

abbrev pub instruction : PaperOrderInstruction
instruction = record {
  schema_version = execution_schema_version;
  signal_id = "signal-1";
  client_order_id = "order-1";
  proposed_order = buy_ten (pos 10000);
  original_risk_decision = after_buy;
  cost_assumptions = costs;
  created_at_utc = 1000;
  expires_at_utc = 9000;
  instruction_fingerprint = digest;
}

abbrev pub approval : PaperOrderApproval
approval = record {
  approval_id = "approval-1";
  signal_id = "signal-1";
  client_order_id = "order-1";
  instruction_fingerprint = digest;
  approved = true;
  approved_at_utc = 2000;
  approved_by = "operator";
  approval_reason = "reviewed";
}

abbrev pub settings : Settings
settings = record {
  execution_mode = "paper";
  paper_execution_kill_switch = false;
  enable_paper_execution = true;
  dry_run = false;
  alpaca_api_key = some "key";
  alpaca_secret_key = some "key";
}

abbrev pub account : BrokerAccountSnapshot
account = record {
  status = "ACTIVE";
  currency = "USD";
  cash = from_int (pos 10000);
  equity = from_int (pos 10000);
  buying_power = from_int (pos 10000);
  trading_blocked = false;
  account_blocked = false;
  trade_suspended_by_user = false;
  account_id_fingerprint = digest;
  retrieved_at_utc = 3000;
}

abbrev pub order : BrokerOrderSnapshot
order = record {
  broker_order_id = "broker-1";
  client_order_id = "order-1";
  broker_order_status = "accepted";
  symbol = "SPY";
  side = "buy";
  submitted_quantity = pos 10;
  filled_quantity = none;
  order_type = "market";
  time_in_force = "day";
  extended_hours = false;
  submitted_at_utc = 3000;
  broker_response_at_utc = none;
  sanitized_request_id = none;
  execution_environment = "alpaca_paper";
}

-- the broker's state is whether it has taken the order
abbrev pub broker : PaperBroker Bool
broker = record {
  verify_environment = λ b. (
    ok (record {
      environment_name = "alpaca_paper";
      endpoint_identity = alpaca_paper_endpoint;
      is_paper = true;
      verified_at_utc = 3000;
    }),
    b,
  );
  get_account = λ b. (ok account, b);
  get_account_configuration = λ b. (
    ok (record {
      no_shorting = true;
      max_margin_multiplier = one_decimal;
      fractional_trading_enabled = false;
      suspend_trade = false;
      retrieved_at_utc = 3000;
    }),
    b,
  );
  get_clock = λ b.
      (ok (record { timestamp = 3000; is_open = true; next_open = 8000; next_close = 5000 }), b);
  get_asset = λ symbol b. (
    ok (record {
      symbol = symbol;
      active = true;
      tradable = true;
      fractionable = true;
      asset_class = "us_equity";
    }),
    b,
  );
  list_positions = λ b. (ok [], b);
  list_open_orders = λ b. (ok [], b);
  get_order_by_client_order_id = λ key b. (ok (elim b [ true ↦ some order | false ↦ none ]), b);
  submit_market_day_order = λ i b. (ok order, true);
}

abbrev pub today : ℕ → ℕ
today t = 738000

abbrev pub ledger : List PaperExecutionAttempt → Ledger
ledger attempts = record {
  control = some (record {
    kill_switch_engaged = 0;
    updated_at_utc = 500;
    reason = "opened";
    control_version = control_schema_version;
  });
  attempts = attempts;
  events = [];
}

abbrev pub start : List PaperExecutionAttempt → World Bool
start attempts = record { broker = false; ledger = ledger attempts; submitted = []; outages = [] }

-- an attempt that was accepted earlier
abbrev pub row : PaperExecutionAttempt
row = reserved_row instruction approval true 3000

abbrev pub receipt : PaperOrderReceipt
receipt = receipt_of order row "broker_verified"

abbrev pub old : PaperExecutionAttempt
old = with_receipt receipt accepted none 3000 row
