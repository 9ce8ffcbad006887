-- ===== src/Execution/Ledger/Lookup.antt =====
-- Lookups in the attempts after an update.
use spy_market_agent.Prelude.{
  String, ◌≡◌, refl, false, some, List, [], ◌∷◌, arith, eq_iff, str_eq, ok,
}
use spy_market_agent.Execution.Models.{PaperExecutionAttempt}
use spy_market_agent.Execution.Ledger.Rows.{
  Ledger, find_attempt, update_attempt, attempt_from_row, get_attempt_from,
}

pub find_attempt-key :
    (key : String) (l : List PaperExecutionAttempt) {a : PaperExecutionAttempt}
    → find_attempt key l ≡ some a
    → a.client_order_id ≡ key
unfolding find_attempt
find_attempt-key key [] h = cc
find_attempt-key key (x ∷ l) {a} h =
    ground (arith, eq_iff x.client_order_id key, find_attempt-key key l {a = a})

module _ (change : PaperExecutionAttempt → PaperExecutionAttempt)
    (keeps_key : (a : PaperExecutionAttempt) → (change a).client_order_id ≡ a.client_order_id) where
  pub find_attempt-update_self :
      (key : String) (l : List PaperExecutionAttempt) {a : PaperExecutionAttempt}
      → find_attempt key l ≡ some a
      → find_attempt key (update_attempt key change l) ≡ some (change a)
  unfolding find_attempt update_attempt
  find_attempt-update_self key [] h = cc
  find_attempt-update_self key (x ∷ l) {a} h =
      ground
        (arith, keeps_key x, eq_iff x.client_order_id key, find_attempt-update_self key l {a = a})

  pub find_attempt-update_ne :
      (key other : String) (l : List PaperExecutionAttempt)
      → str_eq key other ≡ false
      → find_attempt other (update_attempt key change l) ≡ find_attempt other l
  unfolding find_attempt update_attempt
  find_attempt-update_ne key other [] h = refl
  find_attempt-update_ne key other (x ∷ l) h = ground (
    arith,
    keeps_key x,
    find_attempt-update_ne key other l,
    eq_iff x.client_order_id key,
    eq_iff x.client_order_id other,
    eq_iff key other,
  )

-- a read that succeeds has found the row
pub get_attempt_from-found :
    (l : Ledger) (key : String) {a : PaperExecutionAttempt}
    → get_attempt_from l key ≡ ok a
    → find_attempt key l.attempts ≡ some a
unfolding get_attempt_from attempt_from_row
get_attempt_from-found l key h = ground arith
