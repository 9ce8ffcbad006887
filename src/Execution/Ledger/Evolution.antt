-- ===== src/Execution/Ledger/Evolution.antt =====
-- How the ledger evolves: the states that an attempt may pass through, and what no transaction
-- changes. Reserving, receipts and both markings evolve the ledger; so do sequences of them.
use spy_market_agent.Prelude.{
  String, ◌≡◌, refl, ap, sym, ◌∙◌, subst, false, some, List, [], ◌∷◌, ◌++◌, append_assoc, arith,
  eq_iff, str_eq, Bool-cases, inl, inr,
}
use spy_market_agent.Execution.Models.{
  AttemptStatus, reserved, accepted, broker_existing_order_found, reconciled, submission_unknown,
  blocked, rejected, PaperExecutionAttempt, PaperExecutionEvent,
}
use spy_market_agent.Execution.Ledger.Rows.{
  Ledger, find_attempt, update_attempt, session_taken, identifier_taken,
}
use spy_market_agent.Execution.Ledger.Lookup.{find_attempt-update_self, find_attempt-update_ne}

-- The moves between attempt states. `accepted`, `broker_existing_order_found`, `reconciled`,
-- `blocked` and `rejected` are left by none.
infix 40 ◌⟶◌
pub data ◌⟶◌ : AttemptStatus → AttemptStatus → Type 0 where
  accept : reserved ⟶ accepted
  adopt : reserved ⟶ broker_existing_order_found
  reconcile : reserved ⟶ reconciled
  resolve : submission_unknown ⟶ reconciled
  lose : reserved ⟶ submission_unknown
  lose_again : submission_unknown ⟶ submission_unknown
  block : reserved ⟶ blocked
  reject : reserved ⟶ rejected

infix 40 ◌⟶*◌
pub data ◌⟶*◌ : AttemptStatus → AttemptStatus → Type 0 where
  stay : {s : AttemptStatus} → s ⟶* s
  move : {s t u : AttemptStatus} → s ⟶ t → t ⟶* u → s ⟶* u

pub ⟶*-trans : {s t u : AttemptStatus} → s ⟶* t → t ⟶* u → s ⟶* u
⟶*-trans stay k = k
⟶*-trans (move h hs) k = move h (⟶*-trans hs k)

-- the columns that no update sets
pub record SameOrder (a b : PaperExecutionAttempt) : Type 0 where
  pub signal_id : a.signal_id ≡ b.signal_id
  pub client_order_id : a.client_order_id ≡ b.client_order_id
  pub approval_id : a.approval_id ≡ b.approval_id
  pub fingerprint : a.instruction_fingerprint ≡ b.instruction_fingerprint
  pub symbol : a.symbol ≡ b.symbol
  pub side : a.side ≡ b.side
  pub quantity : a.quantity ≡ b.quantity
  pub session : a.execution_session ≡ b.execution_session

pub record Follows (l' : Ledger) (key : String) (a : PaperExecutionAttempt) : Type 0 where
  pub row : PaperExecutionAttempt
  pub found : find_attempt key l'.attempts ≡ some row
  pub same : SameOrder a row
  pub moved : a.attempt_status ⟶* row.attempt_status

-- no two attempts share an identifier, or a symbol with an execution session
abbrev pub Distinct : List PaperExecutionAttempt → Type 0
Distinct [] = Unit
Distinct (a ∷ rest) =
    (session_taken a rest ≡ false) × (identifier_taken a rest ≡ false) × Distinct rest

-- from `l` to `l'` no attempt is lost, each moves along the diagram, and events are only added
pub record Evolves (l l' : Ledger) : Type 0 where
  pub follows :
      (key : String) (a : PaperExecutionAttempt)
      → find_attempt key l.attempts ≡ some a
      → Follows l' key a
  pub distinct : Distinct l.attempts → Distinct l'.attempts
  pub control : l'.control ≡ l.control
  pub audit : (new : List PaperExecutionEvent) × (l'.events ≡ new ++ l.events)

pub SameOrder-refl : (a : PaperExecutionAttempt) → SameOrder a a
SameOrder-refl a = ground arith

pub SameOrder-trans :
    {a b c : PaperExecutionAttempt} → SameOrder a b → SameOrder b c → SameOrder a c
SameOrder-trans h k = record {
  signal_id = h.signal_id ∙ k.signal_id;
  client_order_id = h.client_order_id ∙ k.client_order_id;
  approval_id = h.approval_id ∙ k.approval_id;
  fingerprint = h.fingerprint ∙ k.fingerprint;
  symbol = h.symbol ∙ k.symbol;
  side = h.side ∙ k.side;
  quantity = h.quantity ∙ k.quantity;
  session = h.session ∙ k.session;
}

pub Evolves-refl : (l : Ledger) → Evolves l l
Evolves-refl l = record {
  follows = λ key a h. record { row = a; found = h; same = SameOrder-refl a; moved = stay };
  distinct = λ d. d;
  control = refl;
  audit = ([], refl);
}

pub Evolves-trans : {l m n : Ledger} → Evolves l m → Evolves m n → Evolves l n
Evolves-trans {l} h k = record {
  follows = λ key a found.
      let f = h.follows key a found in
      let g = k.follows key f.row f.found in
      record {
        row = g.row;
        found = g.found;
        same = SameOrder-trans f.same g.same;
        moved = ⟶*-trans f.moved g.moved;
      };
  distinct = λ d. k.distinct (h.distinct d);
  control = k.control ∙ h.control;
  audit = (
    k.audit.0 ++ h.audit.0,
    k.audit.1
        ∙ ap (λ (es : List PaperExecutionEvent). k.audit.0 ++ es) h.audit.1
        ∙ sym (append_assoc k.audit.0 h.audit.0 l.events),
  );
}

-- An update keeps what the constraints are about.
module _ (change : PaperExecutionAttempt → PaperExecutionAttempt)
    (same : (a : PaperExecutionAttempt) → SameOrder a (change a)) (key : String) where
  taken-update :
      (row : PaperExecutionAttempt) (l : List PaperExecutionAttempt)
      → (session_taken row (update_attempt key change l) ≡ session_taken row l)
        × (identifier_taken row (update_attempt key change l) ≡ identifier_taken row l)
  unfolding session_taken identifier_taken update_attempt
  taken-update row [] = (refl, refl)
  taken-update row (x ∷ l) =
      let s = same x in
      let rest = taken-update row l in
      elim (Bool-cases (str_eq x.client_order_id key)) [
        | inl hit ↦ ground (
          arith, s.symbol, s.session, s.client_order_id, s.signal_id, s.approval_id, rest.0, rest.1,
        )
        | inr miss ↦ ground (arith, rest.0, rest.1)
      ]

  change_taken :
      (row : PaperExecutionAttempt) (l : List PaperExecutionAttempt)
      → (session_taken (change row) l ≡ session_taken row l)
        × (identifier_taken (change row) l ≡ identifier_taken row l)
  unfolding session_taken identifier_taken
  change_taken row [] = (refl, refl)
  change_taken row (x ∷ l) =
      let s = same row in
      let rest = change_taken row l in
      ground
        (arith, s.symbol, s.session, s.client_order_id, s.signal_id, s.approval_id, rest.0, rest.1)

  update-Distinct :
      (l : List PaperExecutionAttempt) → Distinct l → Distinct (update_attempt key change l)
  unfolding update_attempt
  update-Distinct [] d = tt
  update-Distinct (x ∷ l) (s, i, d) =
      let rest = update-Distinct l d in
      let u = taken-update x l in
      let c = change_taken x (update_attempt key change l) in
      elim (Bool-cases (str_eq x.client_order_id key)) [
        | inl hit ↦ rw hit (c.0 ∙ u.0 ∙ s, c.1 ∙ u.1 ∙ i, rest)
        | inr miss ↦ rw miss (u.0 ∙ s, u.1 ∙ i, rest)
      ]

-- one update with its event
module _ (change : PaperExecutionAttempt → PaperExecutionAttempt)
    (same : (a : PaperExecutionAttempt) → SameOrder a (change a)) (l : Ledger) (key : String)
    {prior : PaperExecutionAttempt} (found : find_attempt key l.attempts ≡ some prior)
    (moved : prior.attempt_status ⟶ (change prior).attempt_status) where
  keeps_key : (a : PaperExecutionAttempt) → (change a).client_order_id ≡ a.client_order_id
  keeps_key a = sym (same a).client_order_id

  updated_follows :
      (k : String) (a : PaperExecutionAttempt)
      → find_attempt k l.attempts ≡ some a
      → Follows (record l { attempts = update_attempt key change l.attempts }) k a
  updated_follows k a h = elim (Bool-cases (str_eq key k)) [
    | inl hit ↦
        let here : k ≡ key = sym ((eq_iff key k).0 hit) in
        let row : prior ≡ a = cc in
        record {
          row = change prior;
          found = rw here (find_attempt-update_self change keeps_key key l.attempts found);
          same = subst (λ (x : PaperExecutionAttempt). SameOrder x (change prior)) row (same prior);
          moved =
              subst
                (λ (x : PaperExecutionAttempt). x.attempt_status ⟶* (change prior).attempt_status)
                row (move moved stay);
        }
    | inr miss ↦ record {
      row = a;
      found = find_attempt-update_ne change keeps_key key k l.attempts miss ∙ h;
      same = SameOrder-refl a;
      moved = stay;
    }
  ]

  pub updated-Evolves :
      (event : PaperExecutionEvent)
      → Evolves l
          (record l { attempts = update_attempt key change l.attempts; events = event ∷ l.events })
  updated-Evolves event = record {
    follows = λ k a h.
        let f = updated_follows k a h in
        record { row = f.row; found = f.found; same = f.same; moved = f.moved };
    distinct = update-Distinct change same key l.attempts;
    control = refl;
    audit = (event ∷ [], refl);
  }
