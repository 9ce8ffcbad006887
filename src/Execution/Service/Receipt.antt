-- ===== src/Execution/Service/Receipt.antt =====
-- When the broker's order gives a receipt.
use spy_market_agent.Prelude.{
  String, ◌≡◌, refl, ap, ◌⊎◌, true, false, arith, inl, inr, ok, err, Error, Result-cases, eq_iff,
  execution_broker_state,
}
use spy_market_agent.Prelude.Int.{pos, ltb_ℤ, eqb_ℤ→eq, pos_part, neg_part}
use spy_market_agent.Risk.Models.{supported_symbol}
use spy_market_agent.Text.{nonblank_text, is_execution_id}
use spy_market_agent.Risk.Orders.{is_order_side}
use spy_market_agent.Execution.Models.{
  BrokerOrderSnapshot, PaperExecutionAttempt, PaperOrderReceipt,
}
use spy_market_agent.Execution.Ledger.Rows.{is_valid_row}
use spy_market_agent.Execution.Validated.{
  make_order_snapshot, make_receipt, optional_text, filled_within,
}
use spy_market_agent.Execution.Service.Broker.{
  validate_snapshot, receipt_of, receipt_from_broker_snapshot,
}

-- what the construction of the order has checked of its parts
record Parts (s : BrokerOrderSnapshot) : Type 0 where
  id : nonblank_text s.broker_order_id "invalid_broker_order_id" "unsafe_broker_order_id" ≡ ok tt
  key : is_execution_id s.client_order_id ≡ true
  status :
      nonblank_text s.broker_order_status "invalid_broker_order_status" "unsafe_broker_order_status"
      ≡ ok tt
  side : is_order_side s.side ≡ true
  quantity : ltb_ℤ s.submitted_quantity (pos 1) ≡ false
  filled : filled_within s.filled_quantity s.submitted_quantity ≡ ok tt
  request :
      optional_text s.sanitized_request_id "invalid_sanitized_request_id"
        "unsafe_sanitized_request_id"
      ≡ ok tt
  environment :
      nonblank_text s.execution_environment "invalid_execution_environment"
        "unsafe_execution_environment"
      ≡ ok tt

make_order_snapshot-Parts : (s : BrokerOrderSnapshot) → make_order_snapshot s ≡ ok s → Parts s
unfolding make_order_snapshot
make_order_snapshot-Parts s h = ground arith

-- the status that the service gives a receipt
abbrev pub IsStatus : String → Type 0
IsStatus status =
    nonblank_text status "invalid_reconciliation_status" "unsafe_reconciliation_status" ≡ ok tt

make_receipt-eq-ok :
    (s : BrokerOrderSnapshot) (a : PaperExecutionAttempt) (status : String)
    → Parts s
    → is_valid_row a ≡ true
    → validate_snapshot s a ≡ ok tt
    → IsStatus status
    → make_receipt (receipt_of s a status) ≡ ok (receipt_of s a status)
unfolding make_receipt validate_snapshot is_valid_row
make_receipt-eq-ok s a status p valid matched named =
    ground (arith, p.id, p.key, p.status, p.side, p.quantity, p.filled, p.request, p.environment)

-- the order is the one that the attempt asked for, a market order for the day on the paper account
pub record IsOrderFor (s : BrokerOrderSnapshot) (a : PaperExecutionAttempt) : Type 0 where
  pub client_order_id : s.client_order_id ≡ a.client_order_id
  pub symbol : s.symbol ≡ supported_symbol
  pub side : s.side ≡ a.side
  pub quantity : s.submitted_quantity ≡ a.quantity
  pub order_type : s.order_type ≡ "market"
  pub time_in_force : s.time_in_force ≡ "day"
  pub extended_hours : s.extended_hours ≡ false
  pub environment : s.execution_environment ≡ "alpaca_paper"

-- the receipt of the attempt's order, with what the broker says of it
pub record IsReceiptFor (a : PaperExecutionAttempt) (s : BrokerOrderSnapshot) (status : String)
    (r : PaperOrderReceipt) : Type 0 where
  pub signal_id : r.signal_id ≡ a.signal_id
  pub client_order_id : r.client_order_id ≡ a.client_order_id
  pub fingerprint : r.instruction_fingerprint ≡ a.instruction_fingerprint
  pub symbol : r.symbol ≡ supported_symbol
  pub side : r.side ≡ a.side
  pub quantity : r.submitted_quantity ≡ a.quantity
  pub contract : (r.order_type ≡ "market") × (r.time_in_force ≡ "day") × (r.extended_hours ≡ false)
  pub environment : r.execution_environment ≡ "alpaca_paper"
  pub broker_order_id : r.broker_order_id ≡ s.broker_order_id
  pub broker_order_status : r.broker_order_status ≡ s.broker_order_status
  pub filled : r.filled_quantity ≡ s.filled_quantity
  pub reconciliation_status : r.reconciliation_status ≡ status

validate_snapshot-IsOrderFor :
    (s : BrokerOrderSnapshot) (a : PaperExecutionAttempt)
    → validate_snapshot s a ≡ ok tt
    → IsOrderFor s a
unfolding validate_snapshot
validate_snapshot-IsOrderFor s a h = record {
  client_order_id = ground (arith, eq_iff s.client_order_id a.client_order_id);
  symbol = ground (arith, eq_iff s.symbol supported_symbol);
  side = ground (arith, eq_iff s.side a.side);
  quantity = eqb_ℤ→eq s.submitted_quantity a.quantity (ground arith);
  order_type = ground (arith, eq_iff s.order_type "market");
  time_in_force = ground (arith, eq_iff s.time_in_force "day");
  extended_hours = ground arith;
  environment = ground (arith, eq_iff s.execution_environment "alpaca_paper");
}

IsOrderFor-validate_snapshot :
    (s : BrokerOrderSnapshot) (a : PaperExecutionAttempt)
    → IsOrderFor s a
    → validate_snapshot s a ≡ ok tt
unfolding validate_snapshot
IsOrderFor-validate_snapshot s a m = ground (
  arith,
  eq_iff s.client_order_id a.client_order_id,
  eq_iff s.symbol supported_symbol,
  eq_iff s.side a.side,
  eq_iff s.order_type "market",
  eq_iff s.time_in_force "day",
  eq_iff s.execution_environment "alpaca_paper",
  m.client_order_id,
  m.symbol,
  m.side,
  ap pos_part m.quantity,
  ap neg_part m.quantity,
  m.order_type,
  m.time_in_force,
  m.extended_hours,
  m.environment,
)

-- the code of a broker-state error
abbrev code_of : Error → String
code_of (execution_broker_state code) = code
code_of _ = ""

refusal-code_of :
    (s : BrokerOrderSnapshot) (a : PaperExecutionAttempt) {e : Error}
    → validate_snapshot s a ≡ err e
    → e ≡ execution_broker_state (code_of e)
unfolding validate_snapshot
refusal-code_of s a h = ground arith

receipt_of-IsReceiptFor :
    (s : BrokerOrderSnapshot) (a : PaperExecutionAttempt) (status : String)
    → IsOrderFor s a
    → IsReceiptFor a s status (receipt_of s a status)
receipt_of-IsReceiptFor s a status matched = record {
  signal_id = refl;
  client_order_id = matched.client_order_id;
  fingerprint = refl;
  symbol = matched.symbol;
  side = matched.side;
  quantity = matched.quantity;
  contract = (matched.order_type, matched.time_in_force, matched.extended_hours);
  environment = matched.environment;
  broker_order_id = refl;
  broker_order_status = refl;
  filled = refl;
  reconciliation_status = refl;
}

-- a receipt of the attempt's order, or a refusal of another's
abbrev pub ReceiptOutcome : BrokerOrderSnapshot → PaperExecutionAttempt → String → Type 0
ReceiptOutcome s a status =
    (IsOrderFor s a
      × (r : PaperOrderReceipt) × (receipt_from_broker_snapshot s a status ≡ ok r)
      × IsReceiptFor a s status r)
    ⊎ ((¬ IsOrderFor s a)
        × (code : String) × (receipt_from_broker_snapshot s a status
            ≡ err (execution_broker_state code)))

-- For an order that has passed its own checks, an attempt that reads as valid and a reconciliation
-- status that is a safe text: if the order has the attempt's client order id, side and quantity and
-- is a market order on SPY for the day, without extended hours, on the paper account, then the
-- service makes a receipt, which has the attempt's identity and order and the broker's order id,
-- status and filled quantity, and the checks of the receipt itself do not refuse it; if it is not
-- such an order, the service raises a broker-state error.
pub receipt_from_broker_snapshot-IsReceiptFor :
    (s : BrokerOrderSnapshot) (a : PaperExecutionAttempt) (status : String)
    → make_order_snapshot s ≡ ok s
    → is_valid_row a ≡ true
    → IsStatus status
    → ReceiptOutcome s a status
receipt_from_broker_snapshot-IsReceiptFor s a status h valid named =
    elim (Result-cases (validate_snapshot s a)) [
      | inl (u, e) ↦
          let made = make_receipt-eq-ok s a status (make_order_snapshot-Parts s h) valid e named in
          let matched = validate_snapshot-IsOrderFor s a e in
          inl (
            matched,
            receipt_of s a status,
            (unfold receipt_from_broker_snapshot in ground arith),
            receipt_of-IsReceiptFor s a status matched,
          )
      | inr (x, e) ↦
          let same = refusal-code_of s a e in
          inr (
            (λ m. cc (e, IsOrderFor-validate_snapshot s a m)),
            code_of x,
            (unfold receipt_from_broker_snapshot in rw e (ap err same)),
          )
    ]
