-- ===== src/Execution/Service/Outcome.antt =====
-- How a submission ends, whatever the broker answers and whichever outages the database has.
use spy_market_agent.Prelude.{
  ℕ, ◌≡◌, ◌∙◌, sym, refl, ap, ◌⊎◌, inl, inr, Bool, Option, none, some, List, ◌∷◌, Result, ok, err,
  Option-cases,
}
use spy_market_agent.Risk.Models.{RiskConfig}
use spy_market_agent.Execution.Models.{
  BrokerAccountSnapshot, PaperOrderInstruction, PaperOrderApproval, PaperExecutionAttempt,
  BrokerOrderSnapshot, BrokerClockSnapshot, Settings,
}
use spy_market_agent.Execution.Ledger.Rows.{find_attempt, reserved_row}
use spy_market_agent.Execution.Ledger.Evolution.{Evolves, Evolves-trans, Follows}
use spy_market_agent.Execution.Action.{World, Action, ◌>>=◌, handle, ask, send, continue}
use spy_market_agent.Execution.Quiet.{
  Quiet, IsQuiet, bind-IsQuiet, handle-IsQuiet, ask-IsQuiet, reserve_attempt-IsQuiet,
}
use spy_market_agent.Execution.Returned.{Disengaged}
use spy_market_agent.Execution.Service.Broker.{PaperBroker}
use spy_market_agent.Execution.Service.Submission.{
  Admission, submission_failed, settle_submission, deliver, submit_reserved, dispatch,
  reserve_admitted, submit_approved_order,
}
use spy_market_agent.Execution.Service.Quiet.{
  admission-IsQuiet, refresh_clock-IsQuiet, final_kill_switch_gate-IsQuiet,
  submission_failed-IsQuiet, settle_submission-IsQuiet, adopt_existing-IsQuiet,
}
use spy_market_agent.Execution.Service.Passed.{
  AccountPassed, Answered, Permitted, Matching, InSession, RiskPassed, admission-eq-ok,
  refresh_clock-eq-ok, final_kill_switch_gate-Disengaged, reserve_attempt-Reserves,
}

-- what holds of a submission that has sent its order
pub record Submitted {B : Type 0} (broker : PaperBroker B) (new_york_date : ℕ → ℕ)
    (settings : Settings) (risk_config : RiskConfig) (instruction : PaperOrderInstruction)
    (approval : PaperOrderApproval) (w w' : World B) : Type 0 where
  pub permitted : Permitted settings
  pub disengaged : Disengaged w.ledger
  pub account : BrokerAccountSnapshot
  pub accepted : AccountPassed broker account
  pub risk : RiskPassed broker risk_config instruction account
  pub clock : BrokerClockSnapshot
  pub read : Answered broker.get_clock clock
  pub session : InSession new_york_date clock instruction
  pub matching : Matching instruction approval clock.timestamp
  pub fresh : find_attempt instruction.client_order_id w.ledger.attempts ≡ none
  pub risk_approved : Bool
  pub reserved_at : ℕ
  pub recorded :
      Follows w'.ledger instruction.client_order_id
        (reserved_row instruction approval risk_approved reserved_at)

-- the ledger evolved, and no order was sent, or the one order and then `P`
abbrev pub Ends :
    {B : Type 0} → (World B → Type 0) → PaperOrderInstruction → World B → World B → Type 0
Ends P instruction w w' =
    Evolves w.ledger w'.ledger
    × ((w'.submitted ≡ w.submitted) ⊎ ((w'.submitted ≡ instruction ∷ w.submitted) × P w'))

module _ {B : Type 0} (P : World B → Type 0) (instruction : PaperOrderInstruction) where
  Quiet-Ends : {w w' : World B} → Quiet w w' → Ends P instruction w w'
  Quiet-Ends q = (q.evolves, inl q.unsent)

  Ends-after : {u v w : World B} → Quiet u v → Ends P instruction v w → Ends P instruction u w
  Ends-after q (evolves, inl unsent) = (Evolves-trans q.evolves evolves, inl (unsent ∙ q.unsent))
  Ends-after q (evolves, inr (sent, p)) = (
    Evolves-trans q.evolves evolves,
    inr (sent ∙ ap (λ (is : List PaperOrderInstruction). instruction ∷ is) q.unsent, p),
  )

  continue-Ends :
      {A C : Type 0} {w : World B} (r : Result A) (w' : World B) (rest : A → Action B C)
      → Quiet w w'
      → ((a : A) → r ≡ ok a → Ends P instruction w' (rest a w').1)
      → Ends P instruction w (continue r w' rest).1
  continue-Ends (err e) w' rest q k = Quiet-Ends q
  continue-Ends (ok a) w' rest q k = Ends-after q (k a refl)

  -- a quiet action first, of which what follows knows that it returned
  bind-Ends :
      {A C : Type 0} (act : Action B A) (rest : A → Action B C) (w : World B)
      → IsQuiet act
      → ((a : A) → (act w).0 ≡ ok a → Ends P instruction (act w).1 (rest a (act w).1).1)
      → Ends P instruction w ((act >>= rest) w).1
  unfolding ◌>>=◌
  bind-Ends act rest w q k = continue-Ends (act w).0 (act w).1 rest (q w) k

-- the switch that a later ledger has is the one that was there
earlier-Disengaged :
    {B : Type 0} {u v : World B} → Quiet u v → Disengaged v.ledger → Disengaged u.ledger
earlier-Disengaged q d = record {
  row = d.row;
  stored = sym q.evolves.control ∙ d.stored;
  off = d.off;
}

module _ {B : Type 0} (broker : PaperBroker B) (new_york_date : ℕ → ℕ)
    (instruction : PaperOrderInstruction) (approval : PaperOrderApproval) where
  deliver-Quiet :
      (admitted : Admission) (attempt : PaperExecutionAttempt) (now : ℕ) (v : World B)
      → Quiet
          (record v { submitted = instruction ∷ v.submitted })
          (deliver broker new_york_date instruction approval admitted attempt now v).1
  unfolding deliver send handle ◌>>=◌
  deliver-Quiet admitted attempt now v =
      bind-IsQuiet
        (handle (ask (broker.submit_market_day_order instruction))
          (submission_failed broker new_york_date instruction approval now))
        (settle_submission broker new_york_date instruction approval admitted attempt now)
        (handle-IsQuiet _ _ (ask-IsQuiet (broker.submit_market_day_order instruction))
          (submission_failed-IsQuiet broker new_york_date instruction approval now))
        (settle_submission-IsQuiet broker new_york_date instruction approval admitted attempt now)
        (record v { submitted = instruction ∷ v.submitted })

  deliver-Ends :
      (P : World B → Type 0) (admitted : Admission) (attempt : PaperExecutionAttempt) (now : ℕ)
      (v : World B)
      → ((w' : World B) → Evolves v.ledger w'.ledger → P w')
      → Ends P instruction v
          (deliver broker new_york_date instruction approval admitted attempt now v).1
  deliver-Ends P admitted attempt now v k =
      let q = deliver-Quiet admitted attempt now v in (q.evolves, inr (q.unsent, k _ q.evolves))

  submit_reserved-Ends :
      (P : World B → Type 0) (admitted : Admission) (attempt : PaperExecutionAttempt) (v : World B)
      → ((clock : BrokerClockSnapshot)
          → InSession new_york_date clock instruction
            × Matching instruction approval clock.timestamp
            × Answered broker.get_clock clock
          → Disengaged v.ledger
          → (w' : World B) → Evolves v.ledger w'.ledger
          → P w')
      → Ends P instruction v
          (submit_reserved broker new_york_date instruction approval admitted attempt v).1
  unfolding submit_reserved
  submit_reserved-Ends P admitted attempt v k =
      let start = admitted.clock.timestamp in
      let refresh_quiet = refresh_clock-IsQuiet broker new_york_date instruction approval start in
      bind-Ends P instruction _ _ v refresh_quiet (λ clock returned.
        let gate_quiet =
          final_kill_switch_gate-IsQuiet broker new_york_date instruction approval
            clock.timestamp in
        bind-Ends P instruction _ _ _ gate_quiet (λ _ opened.
          deliver-Ends P admitted attempt clock.timestamp _ (λ w' evolves.
            k clock (refresh_clock-eq-ok broker new_york_date instruction approval start v returned)
              (earlier-Disengaged (refresh_quiet v) (
                final_kill_switch_gate-Disengaged broker new_york_date instruction approval
                  clock.timestamp _ opened))
              w'
              (Evolves-trans (refresh_quiet v).evolves
                (Evolves-trans (gate_quiet _).evolves evolves)))))

  dispatch-Ends :
      (P : World B → Type 0) (admitted : Admission) (attempt : PaperExecutionAttempt)
      (existing : Option BrokerOrderSnapshot) (v : World B)
      → ((clock : BrokerClockSnapshot)
          → InSession new_york_date clock instruction
            × Matching instruction approval clock.timestamp
            × Answered broker.get_clock clock
          → Disengaged v.ledger
          → (w' : World B) → Evolves v.ledger w'.ledger
          → P w')
      → Ends P instruction v
          (dispatch broker new_york_date instruction approval admitted attempt existing v).1
  unfolding dispatch
  dispatch-Ends P admitted attempt none v k = submit_reserved-Ends P admitted attempt v k
  dispatch-Ends P admitted attempt (some existing) v k =
      Quiet-Ends P instruction (
        adopt_existing-IsQuiet broker new_york_date instruction approval admitted attempt existing
          v)

  -- An order that a later ledger does not have is in no earlier one.
  earlier_fresh :
      {u v : World B}
      → Quiet u v
      → find_attempt instruction.client_order_id v.ledger.attempts ≡ none
      → find_attempt instruction.client_order_id u.ledger.attempts ≡ none
  earlier_fresh {u} q fresh =
      elim (Option-cases (find_attempt instruction.client_order_id u.ledger.attempts)) [
        | inl absent ↦ absent
        | inr (a, there) ↦
            let f = q.evolves.follows instruction.client_order_id a there in
            let here = f.found in cc
      ]

  -- Whatever the broker answers and whichever outages the ledger has, a submission evolves the
  -- ledger (no attempt is lost, each moves along the diagram of states, the kill switch stays as it
  -- is and events are only added), and either sends no order or sends its instruction once. When it
  -- sends, the settings permit paper execution; the durable kill switch is stored and off; the
  -- broker has given an environment, an account and a configuration that pass their checks, and
  -- positions and open orders that fit the instruction; on that account and those positions the
  -- risk rules approve the order; the broker has given an in-session clock on which the approval
  -- matches and neither has expired; no attempt had the client order id before, and afterwards the
  -- ledger has the attempt of this order under it.
  pub submit_approved_order_safe :
      (settings : Settings) (risk_config : RiskConfig) (w : World B)
      → Ends
          (Submitted broker new_york_date settings risk_config instruction approval w)
          instruction
          w
          (submit_approved_order broker new_york_date instruction approval settings risk_config w).1
  unfolding submit_approved_order reserve_admitted reserved_row
  submit_approved_order_safe settings risk_config w =
      let P = Submitted broker new_york_date settings risk_config instruction approval w in
      let admission_quiet =
        admission-IsQuiet broker new_york_date instruction approval settings risk_config in
      bind-Ends P instruction _ _ w admission_quiet (λ admitted passed.
        let facts =
          admission-eq-ok broker new_york_date instruction approval settings risk_config w passed in
        let approved = admitted.risk_approved in
        let now = admitted.clock.timestamp in
        let reserve_quiet = reserve_attempt-IsQuiet instruction approval approved now in
        bind-Ends P instruction _ _ _ reserve_quiet (λ attempt taken.
          let reserves = reserve_attempt-Reserves instruction approval approved now _ taken in
          let ask_quiet =
            ask-IsQuiet (broker.get_order_by_client_order_id instruction.client_order_id) in
          bind-Ends P instruction _ _ _ ask_quiet (λ existing _.
            dispatch-Ends P admitted attempt existing _ (λ clock current off w' evolves. record {
              permitted = facts.0;
              disengaged =
                  earlier-Disengaged (admission_quiet w)
                    (earlier-Disengaged (reserve_quiet _) (earlier-Disengaged (ask_quiet _) off));
              account = facts.1.0;
              accepted = facts.1.1;
              risk = facts.1.2;
              clock = clock;
              session = current.0;
              matching = current.1;
              read = current.2;
              fresh = earlier_fresh (admission_quiet w) reserves.fresh;
              risk_approved = approved;
              reserved_at = now;
              recorded =
                  (Evolves-trans (ask_quiet _).evolves evolves).follows instruction.client_order_id
                    _ reserves.found;
            }))))
