-- ===== src/Execution/Quiet.antt =====
-- Actions that send no order: whatever they raise, the ledger evolves. Closed under the ways in
-- which actions are composed, and so all the repository's but the kill switch's update.
use spy_market_agent.Prelude.{
  ℕ, String, ◌≡◌, refl, Bool, true, false, not, Option, arith, ◌∙◌, inl, inr, Bool-cases,
  if◌then◌else◌, Error, Result, ok, err, sqlite_error, execution_integrity,
}
use spy_market_agent.Text.{is_execution_id}
use spy_market_agent.Execution.Models.{
  AttemptStatus, PaperOrderInstruction, PaperOrderApproval, PaperOrderReceipt, is_execution_error,
  status_text,
}
use spy_market_agent.Execution.Ledger.Rows.{Ledger, reserved_row}
use spy_market_agent.Execution.Ledger.Receipts.{failure_target}
use spy_market_agent.Execution.Ledger.Evolution.{Evolves, Evolves-refl, Evolves-trans}
use spy_market_agent.Execution.Ledger.Transactions.{
  receipt_body-Evolves, unknown_body-Evolves, failure_body-Evolves, reserve_row-Reserves,
}
use spy_market_agent.Execution.Action.{
  World, Action, return_value, raise, from_result, ◌>>=◌, handle, suppressing, reading, transact,
  ask, continue, recover, settled, opened, first_outage, through, Outage, no_outage, unopened,
  invalid_schema, failing,
}
use spy_market_agent.Execution.Repository.{
  get_kill_switch_state, get_attempt, reserve_attempt, record_receipt, mark_submission_unknown,
  mark_failure, reservation_error,
}

pub record Quiet {B : Type 0} (w w' : World B) : Type 0 where
  pub evolves : Evolves w.ledger w'.ledger
  pub unsent : w'.submitted ≡ w.submitted

abbrev pub IsQuiet : {B A : Type 0} → Action B A → Type 0
IsQuiet {B} act = (w : World B) → Quiet w (act w).1

pub reservation_error-eq-ok :
    {A : Type 0} (r : Result A) {a : A} → reservation_error r ≡ ok a → r ≡ ok a
reservation_error-eq-ok r h = ground arith

module _ {B : Type 0} where
  pub Quiet-refl : (w : World B) → Quiet w w
  Quiet-refl w = record { evolves = Evolves-refl w.ledger; unsent = refl }

  pub Quiet-trans : {u v w : World B} → Quiet u v → Quiet v w → Quiet u w
  Quiet-trans h k = record {
    evolves = Evolves-trans h.evolves k.evolves;
    unsent = k.unsent ∙ h.unsent;
  }

  pub return_value-IsQuiet : {A : Type 0} (value : A) → IsQuiet {B = B} (return_value value)
  unfolding return_value
  return_value-IsQuiet value w = Quiet-refl w

  pub raise-IsQuiet : (A : Type 0) (error : Error) → IsQuiet {B = B} {A = A} (raise error)
  unfolding raise
  raise-IsQuiet A error w = Quiet-refl w

  pub from_result-IsQuiet : {A : Type 0} (r : Result A) → IsQuiet {B = B} (from_result r)
  unfolding from_result
  from_result-IsQuiet r w = Quiet-refl w

  continue-Quiet :
      {A C : Type 0} {w : World B} (r : Result A) (w' : World B) (rest : A → Action B C)
      → Quiet w w'
      → ((a : A) → IsQuiet (rest a))
      → Quiet w (continue r w' rest).1
  continue-Quiet (err e) w' rest h k = h
  continue-Quiet (ok a) w' rest h k = Quiet-trans h (k a w')

  recover-Quiet :
      {A : Type 0} {w : World B} (r : Result A) (w' : World B) (handler : Error → Action B A)
      → Quiet w w'
      → ((e : Error) → IsQuiet (handler e))
      → Quiet w (recover r w' handler).1
  recover-Quiet (err e) w' handler h k = Quiet-trans h (k e w')
  recover-Quiet (ok a) w' handler h k = h

  pub bind-IsQuiet :
      {A C : Type 0} (act : Action B A) (rest : A → Action B C)
      → IsQuiet act
      → ((a : A) → IsQuiet (rest a))
      → IsQuiet (act >>= rest)
  unfolding ◌>>=◌
  bind-IsQuiet act rest h k w = continue-Quiet (act w).0 (act w).1 rest (h w) k

  pub handle-IsQuiet :
      {A : Type 0} (act : Action B A) (handler : Error → Action B A)
      → IsQuiet act
      → ((e : Error) → IsQuiet (handler e))
      → IsQuiet (handle act handler)
  unfolding handle
  handle-IsQuiet act handler h k w = recover-Quiet (act w).0 (act w).1 handler (h w) k

  -- a test that either goes on or raises
  pub if-IsQuiet :
      {A : Type 0} (b : Bool) (x y : Action B A)
      → IsQuiet x
      → IsQuiet y
      → IsQuiet (if b then x else y)
  if-IsQuiet true x y h k = h
  if-IsQuiet false x y h k = k

  pub suppressing-IsQuiet :
      {A : Type 0} (act : Action B A) → IsQuiet act → IsQuiet (suppressing act)
  unfolding suppressing
  suppressing-IsQuiet act h =
      handle-IsQuiet _ _ (bind-IsQuiet act _ h (λ _. return_value-IsQuiet tt)) (λ e.
        if-IsQuiet (is_execution_error e) _ _ (return_value-IsQuiet tt)
          (raise-IsQuiet (Unit {0}) e))

  pub ask-IsQuiet : {A : Type 0} (call : B → Result A × B) → IsQuiet (ask call)
  unfolding ask
  ask-IsQuiet call w = record { evolves = Evolves-refl w.ledger; unsent = refl }

  through-Quiet :
      {A : Type 0} {w : World B} (o : Outage) (failure : Error) (ran : Result A × World B)
      → Quiet w ran.1
      → Quiet w (through o failure ran (opened w)).1
  through-Quiet no_outage failure ran h = h
  through-Quiet {w = w} unopened failure ran h = record {
    evolves = Evolves-refl w.ledger;
    unsent = refl;
  }
  through-Quiet {w = w} invalid_schema failure ran h = record {
    evolves = Evolves-refl w.ledger;
    unsent = refl;
  }
  through-Quiet {w = w} failing failure ran h = record {
    evolves = Evolves-refl w.ledger;
    unsent = refl;
  }

  pub reading-IsQuiet : {A : Type 0} (body : Ledger → Result A) → IsQuiet {B = B} (reading body)
  unfolding reading
  reading-IsQuiet body w =
      through-Quiet (first_outage w.outages) sqlite_error (body w.ledger, opened w)
        (record { evolves = Evolves-refl w.ledger; unsent = refl })

  settled-Quiet :
      {A : Type 0} (w : World B) (outcome : Result (Result A × Ledger))
      → ((r : Result A) (l : Ledger) → outcome ≡ ok (r, l) → Evolves w.ledger l)
      → Quiet w (settled outcome (opened w)).1
  settled-Quiet w (err e) h = record { evolves = Evolves-refl w.ledger; unsent = refl }
  settled-Quiet w (ok (r, l)) h = record { evolves = h r l refl; unsent = refl }

  pub transact-IsQuiet :
      {A : Type 0} (code : String) (body : Ledger → Result (Result A × Ledger))
      → ((l : Ledger) (r : Result A) (l' : Ledger) → body l ≡ ok (r, l') → Evolves l l')
      → IsQuiet {B = B} (transact code body)
  unfolding transact
  transact-IsQuiet code body h w =
      through-Quiet (first_outage w.outages) (execution_integrity code)
        (settled (body w.ledger) (opened w)) (settled-Quiet w (body w.ledger) (h w.ledger))

  pub get_kill_switch_state-IsQuiet : IsQuiet {B = B} get_kill_switch_state
  unfolding get_kill_switch_state
  get_kill_switch_state-IsQuiet = reading-IsQuiet _

  pub get_attempt-IsQuiet : (key : String) → IsQuiet {B = B} (get_attempt key)
  unfolding get_attempt
  get_attempt-IsQuiet key =
      if-IsQuiet (not (is_execution_id key)) _ _ (raise-IsQuiet _ _) (reading-IsQuiet _)

  pub record_receipt-IsQuiet :
      (receipt : PaperOrderReceipt) (status : AttemptStatus) (account : Option String) (now : ℕ)
      (event_type : String)
      → IsQuiet {B = B} (record_receipt receipt status account now event_type)
  unfolding record_receipt
  record_receipt-IsQuiet receipt status account now event_type = transact-IsQuiet _ _ (λ l _ _ h.
      receipt_body-Evolves receipt status account now event_type (status_text status) l h)

  pub mark_submission_unknown-IsQuiet :
      (key signal code : String) (now : ℕ) (event_type : String)
      → IsQuiet {B = B} (mark_submission_unknown key signal code now event_type)
  unfolding mark_submission_unknown
  mark_submission_unknown-IsQuiet key signal code now event_type =
      bind-IsQuiet _ _ (from_result-IsQuiet _) (λ _.
        transact-IsQuiet _ _ (λ l _ _ h. unknown_body-Evolves key signal code now event_type l h))

  pub mark_failure-IsQuiet :
      (key signal : String) (status : AttemptStatus) (code : String) (now : ℕ) (event_type : String)
      → IsQuiet {B = B} (mark_failure key signal status code now event_type)
  unfolding mark_failure
  mark_failure-IsQuiet key signal status code now event_type =
      elim (Bool-cases (failure_target status)) [
        | inl good ↦ rw good (
            bind-IsQuiet _ _ (from_result-IsQuiet _) (λ _.
              transact-IsQuiet _ _
                (λ l _ _ h. failure_body-Evolves key signal status code now event_type l good h)))
        | inr bad ↦ rw bad (raise-IsQuiet _ _)
      ]

  pub reserve_attempt-IsQuiet :
      (instruction : PaperOrderInstruction) (approval : PaperOrderApproval) (risk_approved : Bool)
      (now : ℕ)
      → IsQuiet {B = B} (reserve_attempt instruction approval risk_approved now)
  unfolding reserve_attempt
  reserve_attempt-IsQuiet instruction approval risk_approved now =
      let row = reserved_row instruction approval risk_approved now in
      transact-IsQuiet _ _
        (λ l _ _ h. (reserve_row-Reserves row now l (reservation_error-eq-ok _ h)).evolves)

pub ruleset quiet_laws = (
  return_value-IsQuiet, raise-IsQuiet, from_result-IsQuiet, bind-IsQuiet, handle-IsQuiet,
  if-IsQuiet, suppressing-IsQuiet, ask-IsQuiet, get_kill_switch_state-IsQuiet, get_attempt-IsQuiet,
  record_receipt-IsQuiet, mark_submission_unknown-IsQuiet, mark_failure-IsQuiet,
)
