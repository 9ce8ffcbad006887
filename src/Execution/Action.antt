-- ===== src/Execution/Action.antt =====
-- How the paper-execution code runs: against the ledger's file, and against the broker. Another
-- outcome of an opening of the file, given in advance, is an outage; a broker's state is `B`.
use spy_market_agent.Prelude.{
  String, List, [], ◌∷◌, if◌then◌else◌, Error, Result, ok, err, persistence_error, sqlite_error,
  execution_integrity,
}
use spy_market_agent.Execution.Models.{PaperOrderInstruction, is_execution_error}
use spy_market_agent.Execution.Ledger.Rows.{Ledger}

-- What one opening of the database meets: `connect_database` raises, `validate_schema_version`
-- raises, or SQLite raises before the commit.
pub data Outage : Type 0 where
  no_outage unopened invalid_schema failing : Outage

-- `submitted` holds what was sent to `submit_market_day_order`, the last first.
pub record World (B : Type 0) : Type 0 where
  pub ledger : Ledger
  pub broker : B
  pub submitted : List PaperOrderInstruction
  pub outages : List Outage

abbrev pub Action : Type 0 → Type 0 → Type 0
Action B A = World B → Result A × World B

abbrev pub first_outage : List Outage → Outage
first_outage [] = no_outage
first_outage (o ∷ _) = o

abbrev later_outages : List Outage → List Outage
later_outages [] = []
later_outages (_ ∷ os) = os

abbrev pub opened : {B : Type 0} → World B → World B
opened w = record w { outages = later_outages w.outages }

-- the tables after a transaction's body, and its result
abbrev pub settled : {B A : Type 0} → Result (Result A × Ledger) → World B → Result A × World B
settled (err e) w = (err e, w)
settled (ok (r, l)) w = (r, record w { ledger = l })

-- what an opening gives: what runs on it, or its outage
abbrev pub through :
    {B A : Type 0} → Outage → Error → Result A × World B → World B → Result A × World B
through no_outage failure ran w = ran
through unopened failure ran w = (err (persistence_error "database_unavailable"), w)
through invalid_schema failure ran w =
    (err (execution_integrity "paper_execution_ledger_unavailable"), w)
through failing failure ran w = (err failure, w)

-- after a call: the rest of the body, or the handler
abbrev pub continue : {B A C : Type 0} → Result A → World B → (A → Action B C) → Result C × World B
continue (err e) w rest = (err e, w)
continue (ok a) w rest = rest a w

abbrev pub recover : {B A : Type 0} → Result A → World B → (Error → Action B A) → Result A × World B
recover (err e) w handler = handler e w
recover (ok a) w handler = (ok a, w)

module _ {B : Type 0} where
  unfoldable pub return_value : {A : Type 0} → A → Action B A
  return_value value w = (ok value, w)

  unfoldable pub raise : {A : Type 0} → Error → Action B A
  raise error w = (err error, w)

  unfoldable pub from_result : {A : Type 0} → Result A → Action B A
  from_result r w = (r, w)

  infixl 5 ◌>>=◌ ◌>>◌
  unfoldable pub ◌>>=◌ : {A C : Type 0} → Action B A → (A → Action B C) → Action B C
  (act >>= rest) w = continue (act w).0 (act w).1 rest

  abbrev pub ◌>>◌ : {A C : Type 0} → Action B A → Action B C → Action B C
  act >> rest = act >>= λ _. rest

  -- `try: ... except`: the handler gives what each error becomes
  unfoldable pub handle : {A : Type 0} → Action B A → (Error → Action B A) → Action B A
  handle act handler w = recover (act w).0 (act w).1 handler

  -- `with suppress(PaperExecutionError)`
  unfoldable pub suppressing : {A : Type 0} → Action B A → Action B (Unit {0})
  unfolding raise return_value handle ◌>>=◌
  suppressing act =
      handle (act >> return_value tt)
        (λ e. if is_execution_error e then return_value tt else raise e)

  -- a read on a fresh connection
  unfoldable pub reading : {A : Type 0} → (Ledger → Result A) → Action B A
  reading body w =
      through (first_outage w.outages) sqlite_error (body w.ledger, opened w) (opened w)

  -- A transaction on a fresh connection: an error rolls it back, and an error of SQLite is the
  -- integrity error with the code.
  unfoldable pub transact :
      {A : Type 0} → String → (Ledger → Result (Result A × Ledger)) → Action B A
  transact code body w =
      through (first_outage w.outages) (execution_integrity code)
        (settled (body w.ledger) (opened w)) (opened w)

  -- a call of the broker
  unfoldable pub ask : {A : Type 0} → (B → Result A × B) → Action B A
  ask call w = ((call w.broker).0, record w { broker = (call w.broker).1 })

  -- `broker.submit_market_day_order(instruction)`
  unfoldable pub send : {A : Type 0} → PaperOrderInstruction → (B → Result A × B) → Action B A
  unfolding ask
  send instruction call w = ask call (record w { submitted = instruction ∷ w.submitted })
