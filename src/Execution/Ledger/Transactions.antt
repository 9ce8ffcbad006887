-- ===== src/Execution/Ledger/Transactions.antt =====
-- Each transaction evolves the ledger: its one update goes along the diagram of attempt states.
use spy_market_agent.Prelude.{
  ℕ, String, ◌≡◌, refl, subst, Bool, true, false, Option, none, some, List, [], ◌∷◌, arith, eq_iff,
  Bool-cases, inl, inr, ok, Result, Result-cases, eq_refl,
}
use spy_market_agent.Text.{nonblank_text}
use spy_market_agent.Execution.Models.{
  AttemptStatus, reserved, accepted, broker_existing_order_found, reconciled, submission_unknown,
  blocked, rejected, PaperOrderReceipt, PaperExecutionAttempt, text_value,
}
use spy_market_agent.Execution.Ledger.Rows.{
  Ledger, find_attempt, get_attempt_from, reserve_row, session_taken, identifier_taken,
  with_reserved,
}
use spy_market_agent.Execution.Ledger.Receipts.{
  receipt_body, with_update, mark_body, unknown_body, failure_body, with_receipt, with_failure,
  validate_receipt, receipt_transition, unknown_transition, failure_target, is_reserved,
}
use spy_market_agent.Execution.Ledger.Lookup.{get_attempt_from-found}
use spy_market_agent.Execution.Ledger.Evolution.{
  ◌⟶◌, accept, adopt, reconcile, resolve, lose, lose_again, block, reject, Evolves, SameOrder,
  SameOrder-refl, updated-Evolves, stay,
}

receipt_move : (s t : AttemptStatus) → receipt_transition s t ≡ true → s ⟶ t
receipt_move reserved accepted h = accept
receipt_move reserved broker_existing_order_found h = adopt
receipt_move reserved reconciled h = reconcile
receipt_move submission_unknown reconciled h = resolve
receipt_move _ _ h = cc

unknown_move : (s : AttemptStatus) → unknown_transition s ≡ true → s ⟶ submission_unknown
unknown_move reserved h = lose
unknown_move submission_unknown h = lose_again
unknown_move _ h = cc

failure_move : (s t : AttemptStatus) → is_reserved s ≡ true → failure_target t ≡ true → s ⟶ t
failure_move reserved blocked h k = block
failure_move reserved rejected h k = reject
failure_move reserved _ h k = cc
failure_move _ _ h k = cc

with_receipt_same :
    (receipt : PaperOrderReceipt) (status : AttemptStatus) (account : Option String) (now : ℕ)
    (a : PaperExecutionAttempt)
    → SameOrder a (with_receipt receipt status account now a)
with_receipt_same receipt status account now a = ground arith

with_failure_same :
    (status : AttemptStatus) (code : String) (now : ℕ) (a : PaperExecutionAttempt)
    → SameOrder a (with_failure status code now a)
with_failure_same status code now a = ground arith

validate_receipt-eq-ok :
    (receipt : PaperOrderReceipt) (prior : PaperExecutionAttempt) (status : AttemptStatus)
    {u : Unit {0}}
    → validate_receipt receipt prior status ≡ ok u
    → receipt_transition prior.attempt_status status ≡ true
unfolding validate_receipt
validate_receipt-eq-ok receipt prior status h =
    elim (Bool-cases (receipt_transition prior.attempt_status status)) [
      | inl good ↦ good
      | inr bad ↦ ground arith
    ]

module _ (receipt : PaperOrderReceipt) (status : AttemptStatus) (account : Option String) (now : ℕ)
    (event_type reason : String) (l : Ledger) (prior : PaperExecutionAttempt) where
  -- the tables after the receipt
  abbrev pub received : Ledger
  received =
      with_update (with_receipt receipt status account now) receipt.client_order_id prior status
        event_type reason (("broker_status", text_value receipt.broker_order_status) ∷ []) now l

  pub receipt_body-eq-ok :
      {r : Result PaperExecutionAttempt} {l' : Ledger}
      → get_attempt_from l receipt.client_order_id ≡ ok prior
      → receipt_body receipt status account now event_type reason l ≡ ok (r, l')
      → (validate_receipt receipt prior status ≡ ok tt) × (received ≡ l')
  receipt_body-eq-ok {r} {l'} e h = elim (Result-cases (validate_receipt receipt prior status)) [
    | inl (u, v) ↦
        elim (Result-cases (nonblank_text event_type "invalid_event_type" "unsafe_event_type")) [
          | inl (t, n) ↦ elim (Result-cases (get_attempt_from received receipt.client_order_id)) [
            | inl (updated, f) ↦ (v, unfold receipt_body in ground arith)
            | inr (x, f) ↦ unfold receipt_body in ground arith
          ]
          | inr (x, n) ↦ unfold receipt_body in ground arith
        ]
    | inr (x, v) ↦ unfold receipt_body in ground arith
  ]

-- recording a receipt
pub receipt_body-Evolves :
    (receipt : PaperOrderReceipt) (status : AttemptStatus) (account : Option String) (now : ℕ)
    (event_type reason : String) (l : Ledger) {r : Result PaperExecutionAttempt} {l' : Ledger}
    → receipt_body receipt status account now event_type reason l ≡ ok (r, l')
    → Evolves l l'
receipt_body-Evolves receipt status account now event_type reason l {r} {l'} h =
    elim (Result-cases (get_attempt_from l receipt.client_order_id)) [
      | inl (prior, e) ↦
          let (good, same) =
            receipt_body-eq-ok receipt status account now event_type reason l prior e h in
          subst (Evolves l) same (
            updated-Evolves (with_receipt receipt status account now)
              (with_receipt_same receipt status account now) l receipt.client_order_id
              (get_attempt_from-found l receipt.client_order_id e)
              (receipt_move prior.attempt_status status
                (validate_receipt-eq-ok receipt prior status good))
              _)
      | inr (x, e) ↦ unfold receipt_body in ground arith
    ]

mark_body-eq-ok :
    (key signal : String) (status : AttemptStatus) (allowed : PaperExecutionAttempt → Bool)
    (refusal code : String) (now : ℕ) (event_type : String) (l : Ledger)
    (prior : PaperExecutionAttempt) {r : Result PaperExecutionAttempt} {l' : Ledger}
    → get_attempt_from l key ≡ ok prior
    → mark_body key signal status allowed refusal code now event_type l ≡ ok (r, l')
    → with_update (with_failure status code now) key prior status event_type code [] now l ≡ l'
mark_body-eq-ok key signal status allowed refusal code now event_type l prior e h =
    elim (Result-cases (nonblank_text event_type "invalid_event_type" "unsafe_event_type")) [
      | inl (t, n) ↦ unfold mark_body in ground arith
      | inr (x, n) ↦ unfold mark_body in ground arith
    ]

-- a marking whose allowed priors may move to its status
mark_body-Evolves :
    (key signal : String) (status : AttemptStatus) (allowed : PaperExecutionAttempt → Bool)
    (refusal code : String) (now : ℕ) (event_type : String) (l : Ledger)
    {r : Result PaperExecutionAttempt} {l' : Ledger}
    → ((a : PaperExecutionAttempt) → allowed a ≡ true → a.attempt_status ⟶ status)
    → mark_body key signal status allowed refusal code now event_type l ≡ ok (r, l')
    → Evolves l l'
mark_body-Evolves key signal status allowed refusal code now event_type l {r} {l'} moves h =
    elim (Result-cases (get_attempt_from l key)) [
      | inl (prior, e) ↦ elim (Bool-cases (allowed prior)) [
        | inl good ↦
            subst (Evolves l)
              (mark_body-eq-ok key signal status allowed refusal code now event_type l prior e h)
              (updated-Evolves (with_failure status code now) (with_failure_same status code now) l
                key (get_attempt_from-found l key e) (moves prior good) _)
        | inr bad ↦ unfold mark_body in ground arith
      ]
      | inr (x, e) ↦ unfold mark_body in ground arith
    ]

pub unknown_body-Evolves :
    (key signal code : String) (now : ℕ) (event_type : String) (l : Ledger)
    {r : Result PaperExecutionAttempt} {l' : Ledger}
    → unknown_body key signal code now event_type l ≡ ok (r, l')
    → Evolves l l'
unfolding unknown_body
unknown_body-Evolves key signal code now event_type l h =
    mark_body-Evolves key signal submission_unknown
      (λ prior. unknown_transition prior.attempt_status) "invalid_submission_unknown_transition"
      code now event_type l (λ a. unknown_move a.attempt_status) h

pub failure_body-Evolves :
    (key signal : String) (status : AttemptStatus) (code : String) (now : ℕ) (event_type : String)
    (l : Ledger) {r : Result PaperExecutionAttempt} {l' : Ledger}
    → failure_target status ≡ true
    → failure_body key signal status code now event_type l ≡ ok (r, l')
    → Evolves l l'
unfolding failure_body
failure_body-Evolves key signal status code now event_type l target h =
    mark_body-Evolves key signal status (λ prior. is_reserved prior.attempt_status)
      "invalid_failure_transition" code now event_type l
      (λ a good. failure_move a.attempt_status status good target) h

-- A reservation finds no attempt under its key, and leaves its row there.
pub record Reserves (row : PaperExecutionAttempt) (l l' : Ledger) : Type 0 where
  pub fresh : find_attempt row.client_order_id l.attempts ≡ none
  pub found : find_attempt row.client_order_id l'.attempts ≡ some row
  pub evolves : Evolves l l'

not_taken-fresh :
    (row : PaperExecutionAttempt) (attempts : List PaperExecutionAttempt)
    → identifier_taken row attempts ≡ false
    → find_attempt row.client_order_id attempts ≡ none
unfolding identifier_taken find_attempt
not_taken-fresh row [] h = refl
not_taken-fresh row (x ∷ l) h = ground (
  arith,
  not_taken-fresh row l,
  eq_iff x.client_order_id row.client_order_id,
  eq_iff row.client_order_id x.client_order_id,
)

with_reserved-Reserves :
    (row : PaperExecutionAttempt) (now : ℕ) (l : Ledger)
    → session_taken row l.attempts ≡ false
    → identifier_taken row l.attempts ≡ false
    → Reserves row l (with_reserved row now l)
unfolding find_attempt
with_reserved-Reserves row now l unused free =
    let fresh = not_taken-fresh row l.attempts free in
    record {
      fresh = fresh;
      found = ground (arith, eq_refl row.client_order_id);
      evolves = record {
        follows = λ key a h. record {
          row = a;
          found = ground (arith, eq_iff row.client_order_id key);
          same = SameOrder-refl a;
          moved = stay;
        };
        distinct = λ d. (unused, free, d);
        control = refl;
        audit = (_ ∷ [], refl);
      };
    }

reserve_row-eq-ok :
    (row : PaperExecutionAttempt) (now : ℕ) (l : Ledger) {a : PaperExecutionAttempt}
    {r : Result PaperExecutionAttempt} {l' : Ledger}
    → get_attempt_from (with_reserved row now l) row.client_order_id ≡ ok a
    → reserve_row row now l ≡ ok (r, l')
    → ((session_taken row l.attempts ≡ false) × (identifier_taken row l.attempts ≡ false))
      × (with_reserved row now l ≡ l')
unfolding reserve_row
reserve_row-eq-ok row now l e h = ground arith

pub reserve_row-Reserves :
    (row : PaperExecutionAttempt) (now : ℕ) (l : Ledger) {r : Result PaperExecutionAttempt}
    {l' : Ledger}
    → reserve_row row now l ≡ ok (r, l')
    → Reserves row l l'
reserve_row-Reserves row now l {r} {l'} h =
    elim (Result-cases (get_attempt_from (with_reserved row now l) row.client_order_id)) [
      | inl (a, e) ↦
          let ((unused, free), same) = reserve_row-eq-ok row now l e h in
          subst (Reserves row l) same (with_reserved-Reserves row now l unused free)
      | inr (x, e) ↦ unfold reserve_row in ground arith
    ]
