-- ===== src/Execution/Returned.antt =====
-- What is known when a composed action returns.
use spy_market_agent.Prelude.{
  String, ◌≡◌, refl, ap, ◌∙◌, Bool, true, false, ◌≢◌, some, arith, inl, inr, Option-cases,
  if◌then◌else◌, Error, Result, ok, err,
}
use spy_market_agent.Execution.Models.{PaperExecutionControlState}
use spy_market_agent.Execution.Ledger.Rows.{Ledger, ControlRow}
use spy_market_agent.Execution.Action.{
  ask, World, Action, return_value, raise, from_result, ◌>>=◌, ◌>>◌, handle, reading, transact,
  opened, through, continue, recover, settled, Outage, no_outage, unopened, invalid_schema, failing,
  first_outage,
}
use spy_market_agent.Execution.Repository.{control_state, get_kill_switch_state}

module _ {B : Type 0} where
  continue_ok :
      {A C : Type 0} (r : Result A) (w : World B) (rest : A → Action B C) {c : C}
      → (continue r w rest).0 ≡ ok c
      → (a : A) × (r ≡ ok a) × ((rest a w).0 ≡ ok c)
  continue_ok (err e) w rest h = cc
  continue_ok (ok a) w rest h = (a, refl, h)

  pub bind-eq-ok :
      {A C : Type 0} (act : Action B A) (rest : A → Action B C) (w : World B) {c : C}
      → ((act >>= rest) w).0 ≡ ok c
      → (a : A) × ((act w).0 ≡ ok a) × ((rest a (act w).1).0 ≡ ok c)
  unfolding ◌>>=◌
  bind-eq-ok act rest w h = continue_ok (act w).0 (act w).1 rest h

  pub return_value-eq-ok :
      {A : Type 0} (value : A) (w : World B) {a : A} → (return_value value w).0 ≡ ok a → value ≡ a
  unfolding return_value
  return_value-eq-ok value w h = cc

  pub from_result-eq-ok :
      {A : Type 0} (r : Result A) (w : World B) {a : A} → (from_result r w).0 ≡ ok a → r ≡ ok a
  unfolding from_result
  from_result-eq-ok r w h = h

  pub ask-eq-ok :
      {A : Type 0} (call : B → Result A × B) (w : World B) {a : A}
      → (ask call w).0 ≡ ok a
      → (call w.broker).0 ≡ ok a
  unfolding ask
  ask-eq-ok call w h = h

  pub raise-neq-ok : {A : Type 0} (e : Error) (w : World B) {a : A} → (raise e w).0 ≢ ok a
  unfolding raise
  raise-neq-ok e w h = cc

  pub then_raise-neq-ok :
      {A C : Type 0} (act : Action B A) (e : Error) (w : World B) {c : C}
      → ((act >> raise e) w).0 ≢ ok c
  then_raise-neq-ok act e w h =
      let (a, _, raised) = bind-eq-ok act (λ _. raise e) w h in raise-neq-ok e _ raised

  recover_ok :
      {A : Type 0} (r : Result A) (w : World B) (handler : Error → Action B A) {a : A}
      → ((e : Error) (v : World B) → (handler e v).0 ≢ ok a)
      → (recover r w handler).0 ≡ ok a
      → r ≡ ok a
  recover_ok (err e) w handler never h = absurd (never e w h)
  recover_ok (ok a) w handler never h = h

  -- a handler that never returns
  pub handle-eq-ok :
      {A : Type 0} (act : Action B A) (handler : Error → Action B A) (w : World B) {a : A}
      → ((e : Error) (v : World B) → (handler e v).0 ≢ ok a)
      → (handle act handler w).0 ≡ ok a
      → (act w).0 ≡ ok a
  unfolding handle
  handle-eq-ok act handler w never h = recover_ok (act w).0 (act w).1 handler never h

  -- a test of which one branch never returns
  pub if_true-neq-ok :
      {A : Type 0} (b : Bool) (x y : Action B A) (w : World B) {a : A}
      → ((v : World B) → (x v).0 ≢ ok a)
      → ((if b then x else y) w).0 ≡ ok a
      → (b ≡ false) × ((y w).0 ≡ ok a)
  if_true-neq-ok true x y w never h = absurd (never w h)
  if_true-neq-ok false x y w never h = (refl, h)

  pub both-neq-ok :
      {A : Type 0} (b : Bool) (x y : Action B A) (w : World B) {a : A}
      → (x w).0 ≢ ok a
      → (y w).0 ≢ ok a
      → ((if b then x else y) w).0 ≢ ok a
  both-neq-ok true x y w h k = h
  both-neq-ok false x y w h k = k

  through_ok :
      {A : Type 0} (o : Outage) (failure : Error) (ran : Result A × World B) (w : World B) {a : A}
      → (through o failure ran w).0 ≡ ok a
      → through o failure ran w ≡ ran
  through_ok no_outage failure ran w h = refl
  through_ok unopened failure ran w h = cc
  through_ok invalid_schema failure ran w h = cc
  through_ok failing failure ran w h = cc

  pub reading-eq-ok :
      {A : Type 0} (body : Ledger → Result A) (w : World B) {a : A}
      → (reading body w).0 ≡ ok a
      → body w.ledger ≡ ok a
  unfolding reading
  reading-eq-ok body w h =
      let same = through_ok (first_outage w.outages) _ (body w.ledger, opened w) (opened w) h in cc

  settled_ok :
      {A : Type 0} (outcome : Result (Result A × Ledger)) (w : World B) {a : A}
      → (settled outcome w).0 ≡ ok a
      → (l : Ledger) × (outcome ≡ ok (ok a, l)) × ((settled outcome w).1 ≡ record w { ledger = l })
  settled_ok (err e) w h = cc
  settled_ok (ok (r, l)) w h = (l, cc, refl)

  -- a transaction that returns has committed
  pub transact-eq-ok :
      {A : Type 0} (code : String) (body : Ledger → Result (Result A × Ledger)) (w : World B)
      {a : A}
      → (transact code body w).0 ≡ ok a
      → (l : Ledger) × (body w.ledger ≡ ok (ok a, l))
        × ((transact code body w).1 ≡ record (opened w) { ledger = l })
  unfolding transact
  transact-eq-ok {A = A} code body w {a} h =
      let ran = settled (body w.ledger) (opened w) in
      let same = through_ok (first_outage w.outages) _ ran (opened w) h in
      let returned : ran.0 ≡ ok a = cc in
      let (l, e, f) = settled_ok (body w.ledger) (opened w) returned in
      (l, e, ap (λ (x : Result A × World B). x.1) same ∙ f)

-- the durable kill switch is there, and off
pub record Disengaged (l : Ledger) : Type 0 where
  pub row : ControlRow
  pub stored : l.control ≡ some row
  pub off : row.kill_switch_engaged ≡ 0

-- A state that reads as disengaged is that of a stored row.
pub control_state-Disengaged :
    (l : Ledger) {state : PaperExecutionControlState}
    → control_state l.control ≡ ok state
    → state.kill_switch_engaged ≡ false
    → Disengaged l
control_state-Disengaged l {state} h off = elim (Option-cases l.control) [
  | inl missing ↦ unfold control_state in ground arith
  | inr (row, stored) ↦ record {
    row = row;
    stored = stored;
    off = unfold control_state in ground arith;
  }
]

pub get_kill_switch_state-Disengaged :
    {B : Type 0} (w : World B) {state : PaperExecutionControlState}
    → (get_kill_switch_state w).0 ≡ ok state
    → state.kill_switch_engaged ≡ false
    → Disengaged w.ledger
unfolding get_kill_switch_state
get_kill_switch_state-Disengaged w h off =
    control_state-Disengaged w.ledger (reading-eq-ok _ w h) off
