-- ===== src/Execution/Service/Passed.antt =====
-- What holds once the checks of a submission have returned.
use spy_market_agent.Prelude.{
  Result, ℕ, String, ◌≡◌, ◌≢◌, ap, sym, subst, Bool, true, false, not, ◌≤◌, ◌<◌, List, arith, inl,
  inr, Result-cases, Error, ok, eq_iff, execution_approval, execution_stale_signal,
}
use spy_market_agent.Risk.Models.{RiskConfig}
use spy_market_agent.Risk.Orders.{RiskDecision}
use spy_market_agent.Execution.Models.{
  is_cancelled, BrokerOpenOrderSnapshot, BrokerEnvironmentSnapshot,
  BrokerAccountConfigurationSnapshot, PaperOrderInstruction, PaperOrderApproval,
  PaperExecutionAttempt, BrokerAccountSnapshot, BrokerPositionSnapshot, BrokerClockSnapshot,
  Settings, is_execution_error,
}
use spy_market_agent.Execution.Ledger.Rows.{reserved_row}
use spy_market_agent.Execution.Ledger.Transactions.{Reserves, reserve_row-Reserves}
use spy_market_agent.Execution.Action.{World}
use spy_market_agent.Execution.Repository.{reserve_attempt}
use spy_market_agent.Execution.Quiet.{reservation_error-eq-ok}
use spy_market_agent.Execution.Returned.{
  ask-eq-ok, bind-eq-ok, return_value-eq-ok, from_result-eq-ok, raise-neq-ok, then_raise-neq-ok,
  handle-eq-ok, if_true-neq-ok, both-neq-ok, transact-eq-ok, Disengaged,
  get_kill_switch_state-Disengaged,
}
use spy_market_agent.Execution.Service.Broker.{PaperBroker}
use spy_market_agent.Execution.Service.Gates.{
  assert_positions, assert_open_orders, assert_environment, assert_account,
  assert_account_configuration, validate_matching_approval, assert_local_permission_gates,
  assert_clock, secret_present, execution_time_risk_decision,
}
use spy_market_agent.Execution.Service.Submission.{
  checked_account, Admission, checked_risk, admission, recheck, recheck_failed, refresh_clock,
  close_gate, final_kill_switch_gate,
}

-- the settings permit paper execution
pub record Permitted (settings : Settings) : Type 0 where
  pub paper : settings.execution_mode ≡ "paper"
  pub switch_off : settings.paper_execution_kill_switch ≡ false
  pub enabled : settings.enable_paper_execution ≡ true
  pub wet : settings.dry_run ≡ false
  pub api_key : secret_present settings.alpaca_api_key ≡ true
  pub secret_key : secret_present settings.alpaca_secret_key ≡ true

pub assert_local_permission_gates-Permitted :
    (settings : Settings) {u : Unit {0}}
    → assert_local_permission_gates settings ≡ ok u
    → Permitted settings
unfolding assert_local_permission_gates
assert_local_permission_gates-Permitted settings h =
    ground (arith, eq_iff settings.execution_mode "paper")

-- the approval is this instruction's, given after it was made, and neither has expired
pub record Matching (instruction : PaperOrderInstruction) (approval : PaperOrderApproval) (now : ℕ)
    : Type 0 where
  pub signal : approval.signal_id ≡ instruction.signal_id
  pub client_order : approval.client_order_id ≡ instruction.client_order_id
  pub fingerprint : approval.instruction_fingerprint ≡ instruction.instruction_fingerprint
  pub after : instruction.created_at_utc < approval.approved_at_utc
  pub past : approval.approved_at_utc ≤ now
  pub unexpired : now < instruction.expires_at_utc

pub validate_matching_approval-Matching :
    (instruction : PaperOrderInstruction) (approval : PaperOrderApproval) (now : ℕ) {u : Unit {0}}
    → validate_matching_approval instruction approval now ≡ ok u
    → Matching instruction approval now
unfolding validate_matching_approval
validate_matching_approval-Matching instruction approval now h = ground (
  arith,
  eq_iff approval.signal_id instruction.signal_id,
  eq_iff approval.client_order_id instruction.client_order_id,
  eq_iff approval.instruction_fingerprint instruction.instruction_fingerprint,
)

-- the clock's market is open, on the day that the order is for
pub record InSession (new_york_date : ℕ → ℕ) (clock : BrokerClockSnapshot)
    (instruction : PaperOrderInstruction) : Type 0 where
  pub open_market : clock.is_open ≡ true
  pub later :
      instruction.proposed_order.signal_session < instruction.proposed_order.execution_session
  pub today : new_york_date clock.timestamp ≡ instruction.proposed_order.execution_session

assert_clock-InSession :
    (new_york_date : ℕ → ℕ) (clock : BrokerClockSnapshot) (instruction : PaperOrderInstruction)
    (closed_code expired_code session_code : String) {u : Unit {0}}
    → assert_clock new_york_date clock instruction closed_code expired_code session_code ≡ ok u
    → InSession new_york_date clock instruction
unfolding assert_clock
assert_clock-InSession new_york_date clock instruction closed_code expired_code session_code h =
    ground arith

-- the broker has given this answer, in some state of it
abbrev pub Answered : {B A : Type 0} → (B → Result A × B) → A → Type 0
Answered {B} call a = (b : B) × ((call b).0 ≡ ok a)

-- on the account and the positions that the broker gave, and that passed their checks, the risk
-- rules approve the order
pub record RiskPassed {B : Type 0} (broker : PaperBroker B) (risk_config : RiskConfig)
    (instruction : PaperOrderInstruction) (account : BrokerAccountSnapshot) : Type 0 where
  pub positions : List BrokerPositionSnapshot
  pub held : Answered broker.list_positions positions
  pub fitting : assert_positions positions instruction ≡ ok tt
  pub open_orders : List BrokerOpenOrderSnapshot
  pub listed : Answered broker.list_open_orders open_orders
  pub unconflicting : assert_open_orders open_orders instruction ≡ ok tt
  pub decision : RiskDecision
  pub evaluated :
      execution_time_risk_decision risk_config instruction account positions ≡ ok decision
  pub approved : decision.approved ≡ true

pub record AccountPassed {B : Type 0} (broker : PaperBroker B) (account : BrokerAccountSnapshot)
    : Type 0 where
  pub environment : BrokerEnvironmentSnapshot
  pub verified : Answered broker.verify_environment environment
  pub safe : assert_environment environment ≡ ok tt
  pub given : Answered broker.get_account account
  pub usable : assert_account account ≡ ok tt
  pub account_config : BrokerAccountConfigurationSnapshot
  pub configured : Answered broker.get_account_configuration account_config
  pub unmargined : assert_account_configuration account_config ≡ ok tt

-- a reservation that returns
pub reserve_attempt-Reserves :
    {B : Type 0} (instruction : PaperOrderInstruction) (approval : PaperOrderApproval)
    (risk_approved : Bool) (now : ℕ) (w : World B) {attempt : PaperExecutionAttempt}
    → (reserve_attempt instruction approval risk_approved now w).0 ≡ ok attempt
    → Reserves
        (reserved_row instruction approval risk_approved now)
        w.ledger
        (reserve_attempt instruction approval risk_approved now w).1.ledger
unfolding reserve_attempt
reserve_attempt-Reserves {B} instruction approval risk_approved now w h =
    let row = reserved_row instruction approval risk_approved now in
    let (l, body, same) = transact-eq-ok _ _ w h in
    subst (Reserves row w.ledger) (sym (ap (λ (v : World B). v.ledger) same))
      (reserve_row-Reserves row now w.ledger (reservation_error-eq-ok _ body))

module _ {B : Type 0} (broker : PaperBroker B) (new_york_date : ℕ → ℕ)
    (instruction : PaperOrderInstruction) (approval : PaperOrderApproval) where
  recheck_ok :
      (clock : BrokerClockSnapshot) {u : Unit {0}}
      → recheck broker new_york_date instruction approval clock ≡ ok u
      → InSession new_york_date clock instruction × Matching instruction approval clock.timestamp
  recheck_ok clock h =
      elim (Result-cases (
        assert_clock new_york_date clock instruction "market_closed_before_submission"
          "instruction_expired_before_submission" "wrong_execution_session_before_submission")) [
            | inl (u, e) ↦ (
              assert_clock-InSession new_york_date clock instruction _ _ _ e,
              validate_matching_approval-Matching instruction approval clock.timestamp
                  (ground arith),
            )
            | inr (x, e) ↦ ground arith
          ]

  recheck_failed-neq-ok :
      (now : ℕ) (e : Error) (w : World B) {u : Unit {0}}
      → (recheck_failed broker new_york_date instruction approval now e w).0 ≢ ok u
  recheck_failed-neq-ok now (execution_approval _) w = then_raise-neq-ok _ _ w
  recheck_failed-neq-ok now (execution_stale_signal code) w = then_raise-neq-ok _ _ w
  recheck_failed-neq-ok now e w = raise-neq-ok _ w

  -- a refreshed clock
  pub refresh_clock-eq-ok :
      (fallback_now : ℕ) (w : World B) {clock : BrokerClockSnapshot}
      → (refresh_clock broker new_york_date instruction approval fallback_now w).0 ≡ ok clock
      → InSession new_york_date clock instruction
        × Matching instruction approval clock.timestamp
        × Answered broker.get_clock clock
  unfolding refresh_clock
  refresh_clock-eq-ok fallback_now w {clock} h =
      let (c, asked, checked) = bind-eq-ok _ _ w h in
      let (_, handled, returned) = bind-eq-ok _ _ _ checked in
      let same : c ≡ clock = return_value-eq-ok c _ returned in
      let valid = recheck_ok c (
        from_result-eq-ok _ _ (
          handle-eq-ok _ (recheck_failed broker new_york_date instruction approval c.timestamp) _
            (λ e v. recheck_failed-neq-ok c.timestamp e v) handled)) in
      let answer = ask-eq-ok broker.get_clock w (
        handle-eq-ok _ _ w
          (λ e v. both-neq-ok (is_cancelled e) _ _ v (raise-neq-ok e v) (then_raise-neq-ok _ _ v))
          asked) in
      subst
        (λ (x : BrokerClockSnapshot).
          InSession new_york_date x instruction
          × Matching instruction approval x.timestamp
          × Answered broker.get_clock x)
        same (valid.0, valid.1, (_, answer))

  close_gate-neq-ok :
      (A : Type 0) (now : ℕ) (code : String) (w : World B) {a : A}
      → (close_gate broker new_york_date instruction approval now code w).0 ≢ ok a
  unfolding close_gate
  close_gate-neq-ok A now code w = then_raise-neq-ok _ _ w

  pub final_kill_switch_gate-Disengaged :
      (now : ℕ) (w : World B) {u : Unit {0}}
      → (final_kill_switch_gate broker new_york_date instruction approval now w).0 ≡ ok u
      → Disengaged w.ledger
  unfolding final_kill_switch_gate
  final_kill_switch_gate-Disengaged now w h =
      let (state, handled, tested) = bind-eq-ok _ _ w h in
      get_kill_switch_state-Disengaged w
        (handle-eq-ok _ _ w
          (λ e v.
            both-neq-ok (is_execution_error e) _ _ v (close_gate-neq-ok _ now _ v)
              (raise-neq-ok e v))
          handled)
        (if_true-neq-ok state.kill_switch_engaged _ _ _ (λ v. close_gate-neq-ok _ now _ v) tested).0

  checked_risk-RiskPassed :
      (risk_config : RiskConfig) (account : BrokerAccountSnapshot) (w : World B) {b : Bool}
      → (checked_risk broker new_york_date instruction approval risk_config account w).0 ≡ ok b
      → RiskPassed broker risk_config instruction account
  unfolding checked_risk
  checked_risk-RiskPassed risk_config account w h =
      let (_, _, h1) = bind-eq-ok _ _ w h in
      let (_, _, h2) = bind-eq-ok _ _ _ h1 in
      let (positions, held, h3) = bind-eq-ok _ _ _ h2 in
      let (_, fitting, h4) = bind-eq-ok _ _ _ h3 in
      let (open_orders, listed, h5) = bind-eq-ok _ _ _ h4 in
      let (_, unconflicting, h6) = bind-eq-ok _ _ _ h5 in
      let (decision, evaluated, h7) = bind-eq-ok _ _ _ h6 in
      let (approved, _) = if_true-neq-ok (not decision.approved) _ _ _ (λ v. raise-neq-ok _ v) h7 in
      record {
        positions = positions;
        held = (_, ask-eq-ok broker.list_positions _ held);
        fitting = from_result-eq-ok _ _ fitting;
        open_orders = open_orders;
        listed = (_, ask-eq-ok broker.list_open_orders _ listed);
        unconflicting = from_result-eq-ok _ _ unconflicting;
        decision = decision;
        evaluated = from_result-eq-ok _ _ evaluated;
        approved = ground arith;
      }

  checked_account-AccountPassed :
      (w : World B) {account : BrokerAccountSnapshot}
      → (checked_account broker new_york_date instruction approval w).0 ≡ ok account
      → AccountPassed broker account
  unfolding checked_account
  checked_account-AccountPassed w h =
      let (environment, verified, h1) = bind-eq-ok _ _ w h in
      let (_, safe, h2) = bind-eq-ok _ _ _ h1 in
      let (given_account, given, h3) = bind-eq-ok _ _ _ h2 in
      let (_, usable, h4) = bind-eq-ok _ _ _ h3 in
      let (account_config, configured, h5) = bind-eq-ok _ _ _ h4 in
      let (_, unmargined, h6) = bind-eq-ok _ _ _ h5 in
      subst (AccountPassed broker) (return_value-eq-ok given_account _ h6) (record {
        environment = environment;
        verified = (_, ask-eq-ok broker.verify_environment _ verified);
        safe = from_result-eq-ok _ _ safe;
        given = (_, ask-eq-ok broker.get_account _ given);
        usable = from_result-eq-ok _ _ usable;
        account_config = account_config;
        configured = (_, ask-eq-ok broker.get_account_configuration _ configured);
        unmargined = from_result-eq-ok _ _ unmargined;
      })

  pub admission-eq-ok :
      (settings : Settings) (risk_config : RiskConfig) (w : World B) {admitted : Admission}
      → (admission broker new_york_date instruction approval settings risk_config w).0 ≡ ok admitted
      → Permitted settings
        × ((account : BrokerAccountSnapshot) × AccountPassed broker account
            × RiskPassed broker risk_config instruction account)
  unfolding admission
  admission-eq-ok settings risk_config w h =
      let (_, permitted, h1) = bind-eq-ok _ _ w h in
      let (account, accepted, h2) = bind-eq-ok _ _ _ h1 in
      let (_, _, h3) = bind-eq-ok _ _ _ h2 in
      let (_, _, h4) = bind-eq-ok _ _ _ h3 in
      let (_, risk, _) = bind-eq-ok _ _ _ h4 in
      (
        assert_local_permission_gates-Permitted settings (from_result-eq-ok _ _ permitted),
        (
          account,
          checked_account-AccountPassed _ accepted,
          checked_risk-RiskPassed risk_config account _ risk,
        ),
      )
