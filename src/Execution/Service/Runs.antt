-- ===== src/Execution/Service/Runs.antt =====
-- Sequences of submissions, reconciliations and of whatever else happens in between that leaves the
-- attempts and the sent orders alone: the broker's own moves, updates of the kill switch, outages.
use spy_market_agent.Prelude.{
  ℕ, String, ◌≡◌, ◌≢◌, refl, sym, subst, ap, ◌∙◌, inl, inr, false, none, some, List, [], ◌∷◌, All,
}
use spy_market_agent.Risk.Models.{RiskConfig}
use spy_market_agent.Execution.Models.{
  AttemptStatus, PaperOrderInstruction, PaperOrderApproval, PaperExecutionAttempt, Settings,
}
use spy_market_agent.Execution.Ledger.Rows.{Ledger, find_attempt}
use spy_market_agent.Execution.Ledger.Receipts.{unknown_transition}
use spy_market_agent.Execution.Ledger.Evolution.{
  ◌⟶*◌, stay, move, ⟶*-trans, accept, adopt, reconcile, resolve, lose, lose_again, block, reject,
  SameOrder, SameOrder-refl, SameOrder-trans, Follows, Evolves, Distinct,
}
use spy_market_agent.Execution.Action.{World}
use spy_market_agent.Execution.Service.Broker.{PaperBroker}
use spy_market_agent.Execution.Service.Submission.{submit_approved_order}
use spy_market_agent.Execution.Service.Reconciliation.{reconcile_by_client_order_id}
use spy_market_agent.Execution.Service.Quiet.{reconcile_by_client_order_id-IsQuiet}
use spy_market_agent.Execution.Service.Outcome.{submit_approved_order_safe, Submitted, Ends}

module _ {B : Type 0} (broker : PaperBroker B) (new_york_date : ℕ → ℕ) where
  pub data Step : World B → World B → Type 0 where
    submits :
        (instruction : PaperOrderInstruction) (approval : PaperOrderApproval) (settings : Settings)
        (risk_config : RiskConfig) (w : World B)
        → Step w
            (submit_approved_order broker new_york_date instruction approval settings risk_config
              w).1
    reconciles :
        (now : ℕ) (key : String) (w : World B)
        → Step w (reconcile_by_client_order_id broker now key w).1
    elsewhere :
        (w w' : World B)
        → w'.ledger.attempts ≡ w.ledger.attempts
        → w'.submitted ≡ w.submitted
        → Step w w'

  pub data Runs : World B → World B → Type 0 where
    done : {w : World B} → Runs w w
    after : {u v w : World B} → Step u v → Runs v w → Runs u w

-- each order sent has a client id of its own
abbrev pub SentOnce : List PaperOrderInstruction → Type 0
SentOnce [] = Unit
SentOnce (i ∷ sent) =
    All (λ (j : PaperOrderInstruction). j.client_order_id ≢ i.client_order_id) sent × SentOnce sent

abbrev Recorded : List PaperExecutionAttempt → PaperOrderInstruction → Type 0
Recorded attempts i =
    (a : PaperExecutionAttempt) × (find_attempt i.client_order_id attempts ≡ some a)

-- what a step keeps of the attempts
record Tracks (l l' : Ledger) : Type 0 where
  follows :
      (key : String) (a : PaperExecutionAttempt)
      → find_attempt key l.attempts ≡ some a
      → Follows l' key a
  distinct : Distinct l.attempts → Distinct l'.attempts

Evolves-Tracks : {l l' : Ledger} → Evolves l l' → Tracks l l'
Evolves-Tracks h = record { follows = h.follows; distinct = h.distinct }

same-Tracks : (l l' : Ledger) → l'.attempts ≡ l.attempts → Tracks l l'
same-Tracks l l' e = record {
  follows = λ key a h. record {
    row = a;
    found = ap (λ (as' : List PaperExecutionAttempt). find_attempt key as') e ∙ h;
    same = SameOrder-refl a;
    moved = stay;
  };
  distinct = λ d. subst Distinct (sym e) d;
}

Tracks-trans : {l m n : Ledger} → Tracks l m → Tracks m n → Tracks l n
Tracks-trans h k = record {
  follows = λ key a found.
      let f = h.follows key a found in
      let g = k.follows key f.row f.found in
      record {
        row = g.row;
        found = g.found;
        same = SameOrder-trans f.same g.same;
        moved = ⟶*-trans f.moved g.moved;
      };
  distinct = λ d. k.distinct (h.distinct d);
}

-- Recorded orders stay recorded.
Tracks-Recorded :
    {l l' : Ledger}
    → Tracks l l'
    → (sent : List PaperOrderInstruction) → All (Recorded l.attempts) sent
    → All (Recorded l'.attempts) sent
Tracks-Recorded t [] h = tt
Tracks-Recorded t (i ∷ sent) ((a, found), h) =
    let f = t.follows i.client_order_id a found in ((f.row, f.found), Tracks-Recorded t sent h)

-- An order without an attempt is none of the recorded ones.
fresh_differs :
    (l : Ledger) (i : PaperOrderInstruction) (sent : List PaperOrderInstruction)
    → find_attempt i.client_order_id l.attempts ≡ none
    → All (Recorded l.attempts) sent
    → All (λ (j : PaperOrderInstruction). j.client_order_id ≢ i.client_order_id) sent
fresh_differs l i [] fresh h = tt
fresh_differs l i (j ∷ sent) fresh ((a, found), h) = (λ same. cc, fresh_differs l i sent fresh h)

-- the invariant, for worlds
abbrev Sound : {B : Type 0} → World B → Type 0
Sound w = SentOnce w.submitted × All (Recorded w.ledger.attempts) w.submitted

keeps_Sound :
    {B : Type 0} (w w' : World B)
    → Tracks w.ledger w'.ledger
    → w'.submitted ≡ w.submitted
    → Sound w
    → Sound w'
keeps_Sound w w' t e (once, recorded) =
    subst
      (λ (sent : List PaperOrderInstruction).
        SentOnce sent × All (Recorded w'.ledger.attempts) sent)
      (sym e) (once, Tracks-Recorded t w.submitted recorded)

module _ {B : Type 0} (broker : PaperBroker B) (new_york_date : ℕ → ℕ) where
  Step-Tracks : {w w' : World B} → Step broker new_york_date w w' → Tracks w.ledger w'.ledger
  Step-Tracks (submits instruction approval settings risk_config w) =
      Evolves-Tracks
        (submit_approved_order_safe broker new_york_date instruction approval settings risk_config
          w).0
  Step-Tracks (reconciles now key w) =
      Evolves-Tracks (reconcile_by_client_order_id-IsQuiet broker now key w).evolves
  Step-Tracks (elsewhere w w' e f) = same-Tracks w.ledger w'.ledger e

  sends-Sound :
      (instruction : PaperOrderInstruction) (approval : PaperOrderApproval) (settings : Settings)
      (risk_config : RiskConfig) (w w' : World B)
      → Ends
          (Submitted broker new_york_date settings risk_config instruction approval w)
          instruction
          w
          w'
      → Sound w
      → Sound w'
  sends-Sound instruction approval settings risk_config w w' (evolves, inl unsent) sound =
      keeps_Sound w w' (Evolves-Tracks evolves) unsent sound
  sends-Sound instruction approval settings risk_config w w' (evolves, inr (sent, s))
        (once, recorded) =
      let later = Tracks-Recorded (Evolves-Tracks evolves) w.submitted recorded in
      let differs = fresh_differs w.ledger instruction w.submitted s.fresh recorded in
      subst
        (λ (is : List PaperOrderInstruction). SentOnce is × All (Recorded w'.ledger.attempts) is)
        (sym sent) ((differs, once), ((s.recorded.row, s.recorded.found), later))

  Step-Sound : {w w' : World B} → Step broker new_york_date w w' → Sound w → Sound w'
  Step-Sound (submits instruction approval settings risk_config w) sound =
      sends-Sound instruction approval settings risk_config w _
        (submit_approved_order_safe broker new_york_date instruction approval settings risk_config
          w)
        sound
  Step-Sound (reconciles now key w) sound =
      let q = reconcile_by_client_order_id-IsQuiet broker now key w in
      keeps_Sound w (reconcile_by_client_order_id broker now key w).1 (Evolves-Tracks q.evolves)
        q.unsent sound
  Step-Sound (elsewhere w w' e f) sound =
      keeps_Sound w w' (same-Tracks w.ledger w'.ledger e) f sound

  run-Sound : {w w' : World B} → Runs broker new_york_date w w' → Sound w → Sound w'
  run-Sound done sound = sound
  run-Sound (after s run) sound = run-Sound run (Step-Sound s sound)

  run-Tracks : {w w' : World B} → Runs broker new_york_date w w' → Tracks w.ledger w'.ledger
  run-Tracks done = same-Tracks _ _ refl
  run-Tracks (after s run) = Tracks-trans (Step-Tracks s) (run-Tracks run)

  -- Over any run from a world in which nothing was sent, no two orders sent to the broker share a
  -- client order id, and each of them has an attempt in the ledger.
  pub run_sends_once :
      {w w' : World B}
      → w.submitted ≡ []
      → Runs broker new_york_date w w'
      → SentOnce w'.submitted
        × All
            (λ (i : PaperOrderInstruction).
              (a : PaperExecutionAttempt) × (find_attempt i.client_order_id w'.ledger.attempts
                ≡ some a))
            w'.submitted
  run_sends_once {w} e run = run-Sound run (
      subst (λ (is : List PaperOrderInstruction). SentOnce is × All (Recorded w.ledger.attempts) is)
        (sym e) (tt, tt))

  -- Over any run, the attempts keep their unique identifiers, and no two of them come to share a
  -- symbol and an execution session.
  pub run_keeps-Distinct :
      {w w' : World B}
      → Runs broker new_york_date w w'
      → Distinct w.ledger.attempts
      → Distinct w'.ledger.attempts
  run_keeps-Distinct run = (run-Tracks run).distinct

  final_stays : {s t : AttemptStatus} → unknown_transition s ≡ false → s ⟶* t → t ≡ s
  final_stays final stay = refl
  final_stays final (move accept _) = cc
  final_stays final (move adopt _) = cc
  final_stays final (move reconcile _) = cc
  final_stays final (move resolve _) = cc
  final_stays final (move lose _) = cc
  final_stays final (move lose_again _) = cc
  final_stays final (move block _) = cc
  final_stays final (move reject _) = cc

  -- Over any run, an attempt that is neither reserved nor of unknown outcome stays in the ledger
  -- under its client order id, with its status and its order.
  pub run_keeps_final :
      {w w' : World B} (key : String) (a : PaperExecutionAttempt)
      → Runs broker new_york_date w w'
      → find_attempt key w.ledger.attempts ≡ some a
      → unknown_transition a.attempt_status ≡ false
      → (row : PaperExecutionAttempt) × (find_attempt key w'.ledger.attempts ≡ some row)
        × (row.attempt_status ≡ a.attempt_status)
        × SameOrder a row
  run_keeps_final key a run found final =
      let f = (run-Tracks run).follows key a found in
      (f.row, f.found, final_stays final f.moved, f.same)
