-- ===== src/Execution/Service/Gates.antt =====
-- execution/service.py, execution/approvals.py: the checks of the service, as values.
use spy_market_agent.Prelude.{
  ℕ, String, Bool, false, not, ◌&&◌, ◌||◌, Option, none, some, List, [], ◌∷◌, ltb, leb, ◌==◌,
  str_eq, if◌then◌else◌, Result, ok, err, raise_if, ◌>>=◌, ◌>>◌, risk_input, runtime_error,
  execution_configuration, execution_permission, execution_approval, execution_risk,
  execution_stale_signal, execution_kill_switch, execution_broker_state,
}
use spy_market_agent.Prelude.Int.{ℤ, pos, ltb_ℤ, eqb_ℤ}
use spy_market_agent.Decimal
use spy_market_agent.Decimal.{Decimal, zero_decimal, one_decimal, from_int}
use spy_market_agent.Text.{has_text, lower_eq}
use spy_market_agent.Risk.Models.{
  RiskConfig, make_portfolio_state, supported_symbol, buy_side, sell_side,
}
use spy_market_agent.Risk.Orders.{RiskDecision}
use spy_market_agent.Risk.Rules.{evaluate_order_risk}
use spy_market_agent.Backtest.Models.{make_cost_assumptions}
use spy_market_agent.Execution.Models.{
  PaperOrderInstruction, PaperOrderApproval, BrokerEnvironmentSnapshot, BrokerAccountSnapshot,
  BrokerAccountConfigurationSnapshot, BrokerClockSnapshot, BrokerAssetSnapshot,
  BrokerPositionSnapshot, BrokerOpenOrderSnapshot, Settings, alpaca_paper_endpoint,
}

unfoldable pub validate_matching_approval :
    PaperOrderInstruction → PaperOrderApproval → ℕ → Result (Unit {0})
validate_matching_approval instruction approval now = do
  raise_if (not (str_eq approval.signal_id instruction.signal_id))
      (execution_approval "approval_signal_mismatch")
  raise_if (not (str_eq approval.client_order_id instruction.client_order_id))
      (execution_approval "approval_client_order_mismatch")
  raise_if (not (str_eq approval.instruction_fingerprint instruction.instruction_fingerprint))
      (execution_approval "approval_fingerprint_mismatch")
  raise_if (leb approval.approved_at_utc instruction.created_at_utc)
      (execution_approval "approval_before_instruction")
  raise_if (ltb now approval.approved_at_utc) (execution_approval "approval_from_future")
  raise_if (leb instruction.expires_at_utc now) (execution_approval "approval_expired")
  ok tt

unfoldable pub secret_present : Option String → Bool
secret_present none = false
secret_present (some value) = has_text value

unfoldable pub assert_local_permission_gates : Settings → Result (Unit {0})
assert_local_permission_gates settings = do
  raise_if (not (str_eq settings.execution_mode "paper")) runtime_error
  raise_if settings.paper_execution_kill_switch
      (execution_kill_switch "configuration_kill_switch_engaged")
  raise_if (not settings.enable_paper_execution)
      (execution_configuration "paper_execution_disabled")
  raise_if settings.dry_run (execution_permission "dry_run_enabled")
  raise_if (not (secret_present settings.alpaca_api_key))
      (execution_configuration "alpaca_api_key_missing")
  raise_if (not (secret_present settings.alpaca_secret_key))
      (execution_configuration "alpaca_secret_key_missing")
  ok tt

unfoldable pub assert_environment : BrokerEnvironmentSnapshot → Result (Unit {0})
assert_environment environment = do
  raise_if
      (not environment.is_paper || not (str_eq environment.endpoint_identity alpaca_paper_endpoint))
      (execution_broker_state "unsafe_broker_environment")
  ok tt

unfoldable pub assert_account : BrokerAccountSnapshot → Result (Unit {0})
assert_account account = do
  raise_if (not (lower_eq account.status "active")) (execution_broker_state "account_not_active")
  raise_if (not (str_eq account.currency "USD")) (execution_broker_state "account_not_usd")
  raise_if (account.trading_blocked || account.account_blocked || account.trade_suspended_by_user)
      (execution_broker_state "account_blocked")
  raise_if
      (Decimal.lt account.cash zero_decimal
        || Decimal.lt account.equity zero_decimal
        || Decimal.lt account.buying_power zero_decimal)
      (execution_broker_state "invalid_account_balances")
  ok tt

unfoldable pub assert_account_configuration : BrokerAccountConfigurationSnapshot → Result (Unit {0})
assert_account_configuration account_config = do
  raise_if (not account_config.no_shorting) (execution_broker_state "shorting_enabled")
  raise_if (not (Decimal.eq account_config.max_margin_multiplier one_decimal))
      (execution_broker_state "margin_enabled")
  raise_if account_config.suspend_trade (execution_broker_state "account_trade_suspended")
  ok tt

-- `new_york_date` is the date of a UTC time in the zone America/New_York.
unfoldable pub assert_clock :
    (ℕ → ℕ)
    → BrokerClockSnapshot
    → PaperOrderInstruction
    → String
    → String
    → String
    → Result (Unit {0})
assert_clock new_york_date clock instruction closed_code expired_code session_code = do
  raise_if (not clock.is_open) (execution_stale_signal closed_code)
  raise_if (leb instruction.expires_at_utc clock.timestamp) (execution_stale_signal expired_code)
  let order = instruction.proposed_order
  raise_if (leb order.execution_session order.signal_session)
      (execution_stale_signal "invalid_execution_session")
  raise_if (not (new_york_date clock.timestamp == order.execution_session))
      (execution_stale_signal session_code)
  ok tt

unfoldable pub assert_asset : BrokerAssetSnapshot → Result (Unit {0})
assert_asset asset = do
  raise_if
      (not (str_eq asset.symbol supported_symbol) || not (str_eq asset.asset_class "us_equity"))
      (execution_broker_state "invalid_asset")
  raise_if (not asset.active || not asset.tradable) (execution_broker_state "asset_not_tradable")
  ok tt

-- `_assert_positions` on the position that the account holds
unfoldable pub assert_position : BrokerPositionSnapshot → PaperOrderInstruction → Result (Unit {0})
assert_position position instruction = do
  let order = instruction.proposed_order
  raise_if (not (str_eq position.symbol supported_symbol))
      (execution_broker_state "non_spy_position")
  raise_if (not (lower_eq position.side "long")) (execution_broker_state "short_position")
  let shares = Decimal.truncate position.quantity
  let available = Decimal.truncate position.available_quantity
  raise_if (str_eq order.side buy_side && ltb_ℤ (pos 0) shares)
      (execution_broker_state "pyramiding_forbidden")
  raise_if
      (str_eq order.side sell_side
        && (not (eqb_ℤ order.quantity shares) || not (eqb_ℤ order.quantity available)))
      (execution_broker_state "full_exit_required")
  ok tt

unfoldable pub assert_positions :
    List BrokerPositionSnapshot → PaperOrderInstruction → Result (Unit {0})
assert_positions [] instruction = do
  raise_if (str_eq instruction.proposed_order.side sell_side)
      (execution_broker_state "missing_spy_position")
  ok tt
assert_positions (position ∷ []) instruction = assert_position position instruction
assert_positions (_ ∷ _ ∷ _) instruction = err (execution_broker_state "multiple_positions")

unfoldable pub assert_open_orders :
    List BrokerOpenOrderSnapshot → PaperOrderInstruction → Result (Unit {0})
assert_open_orders [] instruction = ok tt
assert_open_orders (order ∷ orders) instruction =
    let rest = assert_open_orders orders instruction in
    if str_eq order.client_order_id instruction.client_order_id
    then rest
    else if str_eq order.symbol supported_symbol
    then err (execution_broker_state "conflicting_open_order")
    else err (execution_broker_state "unsupported_open_order")

-- `shares = int(positions[0].quantity)`, or 0
abbrev pub held_shares : List BrokerPositionSnapshot → ℤ
held_shares [] = pos 0
held_shares (position ∷ _) = Decimal.truncate position.quantity

-- the errors of the evaluation itself
abbrev risk_failure : Result RiskDecision → Result RiskDecision
risk_failure (err (risk_input _)) = err (execution_risk "execution_risk_failed")
risk_failure r = r

unfoldable pub execution_time_risk_decision :
    RiskConfig
    → PaperOrderInstruction
    → BrokerAccountSnapshot
    → List BrokerPositionSnapshot
    → Result RiskDecision
execution_time_risk_decision risk_config instruction account positions = do
  let order = instruction.proposed_order
  let shares = held_shares positions
  let value = Decimal.mul (from_int shares) order.reference_open
  portfolio ← make_portfolio_state (record {
    session = order.execution_session;
    cash = account.cash;
    shares = shares;
    reference_price = order.reference_open;
    market_value = value;
    equity = Decimal.add account.cash value;
  })
  risk_failure (do
    costs ← make_cost_assumptions instruction.cost_assumptions
    evaluate_order_risk order portfolio risk_config costs)
