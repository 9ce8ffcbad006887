-- ===== src/Execution/Recorded.antt =====
-- What a recorded receipt leaves in the ledger.
use spy_market_agent.Prelude.{
  ℕ, String, ◌≡◌, refl, ap, sym, subst, inl, inr, true, Option, some, arith, eq_iff, Result, ok,
  Result-cases,
}
use spy_market_agent.Prelude.Int.{eqb_ℤ→eq}
use spy_market_agent.Execution.Models.{
  AttemptStatus, PaperExecutionAttempt, PaperOrderReceipt, status_text,
}
use spy_market_agent.Execution.Ledger.Rows.{Ledger, find_attempt, get_attempt_from}
use spy_market_agent.Execution.Ledger.Receipts.{
  validate_receipt, receipt_transition, receipt_body, with_receipt,
}
use spy_market_agent.Execution.Ledger.Lookup.{find_attempt-update_self, get_attempt_from-found}
use spy_market_agent.Execution.Action.{World}
use spy_market_agent.Execution.Repository.{record_receipt}
use spy_market_agent.Execution.Ledger.Transactions.{receipt_body-eq-ok}
use spy_market_agent.Execution.Returned.{transact-eq-ok}

-- the row of an attempt that has taken the receipt
pub record Taken (receipt : PaperOrderReceipt) (status : AttemptStatus) (l : Ledger) : Type 0 where
  pub row : PaperExecutionAttempt
  pub found : find_attempt receipt.client_order_id l.attempts ≡ some row
  pub state : row.attempt_status ≡ status
  pub broker_order : row.broker_order_id ≡ some receipt.broker_order_id
  pub signal : receipt.signal_id ≡ row.signal_id
  pub fingerprint : receipt.instruction_fingerprint ≡ row.instruction_fingerprint
  pub side : receipt.side ≡ row.side
  pub quantity : receipt.submitted_quantity ≡ row.quantity
  pub market : receipt.order_type ≡ "market"
  pub day : receipt.time_in_force ≡ "day"
  pub paper : receipt.execution_environment ≡ "alpaca_paper"

-- what `validate_receipt` has compared
record Matches (receipt : PaperOrderReceipt) (prior : PaperExecutionAttempt)
    (status : AttemptStatus) : Type 0 where
  allowed : receipt_transition prior.attempt_status status ≡ true
  signal : receipt.signal_id ≡ prior.signal_id
  fingerprint : receipt.instruction_fingerprint ≡ prior.instruction_fingerprint
  side : receipt.side ≡ prior.side
  quantity : receipt.submitted_quantity ≡ prior.quantity
  market : receipt.order_type ≡ "market"
  day : receipt.time_in_force ≡ "day"
  paper : receipt.execution_environment ≡ "alpaca_paper"

validate_receipt-Matches :
    (receipt : PaperOrderReceipt) (prior : PaperExecutionAttempt) (status : AttemptStatus)
    {u : Unit {0}}
    → validate_receipt receipt prior status ≡ ok u
    → Matches receipt prior status
unfolding validate_receipt
validate_receipt-Matches receipt prior status h = ground (
  arith,
  eq_iff receipt.signal_id prior.signal_id,
  eq_iff receipt.instruction_fingerprint prior.instruction_fingerprint,
  eq_iff receipt.side prior.side,
  eqb_ℤ→eq receipt.submitted_quantity prior.quantity,
  eq_iff receipt.order_type "market",
  eq_iff receipt.time_in_force "day",
  eq_iff receipt.execution_environment "alpaca_paper",
)

-- the transaction of a receipt, on tables that it has changed
receipt_body-Taken :
    (receipt : PaperOrderReceipt) (status : AttemptStatus) (account : Option String) (now : ℕ)
    (event_type reason : String) (l : Ledger) {r : Result PaperExecutionAttempt} {l' : Ledger}
    → receipt_body receipt status account now event_type reason l ≡ ok (r, l')
    → Taken receipt status l'
receipt_body-Taken receipt status account now event_type reason l h =
    elim (Result-cases (get_attempt_from l receipt.client_order_id)) [
      | inl (prior, e) ↦
          let (good, same) =
            receipt_body-eq-ok receipt status account now event_type reason l prior e h in
          let m = validate_receipt-Matches receipt prior status good in
          subst (Taken receipt status) same (record {
            row = with_receipt receipt status account now prior;
            found =
                find_attempt-update_self (with_receipt receipt status account now) (λ a. refl)
                  receipt.client_order_id l.attempts
                  (get_attempt_from-found l receipt.client_order_id e);
            state = refl;
            broker_order = refl;
            signal = m.signal;
            fingerprint = m.fingerprint;
            side = m.side;
            quantity = m.quantity;
            market = m.market;
            day = m.day;
            paper = m.paper;
          })
      | inr (x, e) ↦ unfold receipt_body in ground arith
    ]

-- A receipt whose recording returns is on the attempt of its client order id: that attempt has the
-- status asked for and the receipt's broker order; the receipt's signal, fingerprint, side and
-- quantity are the attempt's; and it is of a market order for the day on the paper account.
pub record_receipt-Taken :
    {B : Type 0} (receipt : PaperOrderReceipt) (status : AttemptStatus) (account : Option String)
    (now : ℕ) (event_type : String) (w : World B) {a : PaperExecutionAttempt}
    → (record_receipt receipt status account now event_type w).0 ≡ ok a
    → Taken receipt status (record_receipt receipt status account now event_type w).1.ledger
unfolding record_receipt
record_receipt-Taken {B} receipt status account now event_type w h =
    let (l, body, same) = transact-eq-ok _ _ w h in
    subst (Taken receipt status) (sym (ap (λ (v : World B). v.ledger) same))
      (receipt_body-Taken receipt status account now event_type (status_text status) w.ledger body)
