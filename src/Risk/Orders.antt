-- ===== src/Risk/Orders.antt =====
-- risk/models.py: the order that is put to the rules and the decision that comes back.
use spy_market_agent.Prelude.{
  ℕ, String, Bool, true, false, not, ◌&&◌, ◌||◌, List, [], ◌∷◌, leb, str_eq, Result, ok, risk_input,
  raise_if, ◌>>◌,
}
use spy_market_agent.Prelude.Int.{ℤ, pos, eqb_ℤ}
use spy_market_agent.Decimal
use spy_market_agent.Decimal.{Decimal, zero_decimal}
use spy_market_agent.Risk.Models.{
  ReasonCode, approved_reason, has_code, has_duplicates, buy_side, sell_side, require_decimal,
  require_positive_decimal, require_non_negative_int, require_positive_int,
}

pub record ProposedOrder : Type 0 where
  pub sequence_number : ℤ
  pub symbol : String
  pub side : String
  pub quantity : ℤ
  pub signal_session : ℕ
  pub execution_session : ℕ
  pub target_position : ℤ
  pub reference_open : Decimal
  pub estimated_execution_price : Decimal
  pub estimated_commission : Decimal
  pub estimated_cash_change : Decimal
  pub current_cash : Decimal
  pub current_shares : ℤ

-- `side in (BUY_SIDE, SELL_SIDE)`
abbrev pub is_order_side : String → Bool
is_order_side s = str_eq s buy_side || str_eq s sell_side

-- `value in (0, 1)`
abbrev pub is_target_position : ℤ → Bool
is_target_position t = eqb_ℤ t (pos 0) || eqb_ℤ t (pos 1)

unfoldable pub make_proposed_order : ProposedOrder → Result ProposedOrder
unfolding require_decimal require_positive_decimal require_non_negative_int require_positive_int
make_proposed_order o = do
  require_positive_int o.sequence_number "invalid_sequence_number"
  raise_if (str_eq o.symbol "") (risk_input "invalid_symbol")
  raise_if (not (is_order_side o.side)) (risk_input "invalid_order_side")
  require_positive_int o.quantity "invalid_quantity"
  raise_if (leb o.execution_session o.signal_session) (risk_input "execution_not_after_signal")
  raise_if (not (is_target_position o.target_position)) (risk_input "invalid_target_position")
  raise_if (str_eq o.side buy_side && not (eqb_ℤ o.target_position (pos 1)))
      (risk_input "invalid_target_transition")
  raise_if (str_eq o.side sell_side && not (eqb_ℤ o.target_position (pos 0)))
      (risk_input "invalid_target_transition")
  require_positive_decimal o.reference_open "non_positive_reference_open"
  require_positive_decimal o.estimated_execution_price "non_positive_estimated_execution_price"
  require_decimal o.estimated_commission "negative_estimated_commission"
  require_decimal o.current_cash "negative_current_cash"
  require_non_negative_int o.current_shares "invalid_current_shares"
  raise_if (str_eq o.side buy_side && Decimal.le zero_decimal o.estimated_cash_change)
      (risk_input "invalid_buy_cash_change")
  raise_if (str_eq o.side sell_side && Decimal.le o.estimated_cash_change zero_decimal)
      (risk_input "invalid_sell_cash_change")
  ok o

pub record RiskDecision : Type 0 where
  pub order_sequence_number : ℤ
  pub approved : Bool
  pub reason_codes : List ReasonCode
  pub evaluated_session : ℕ
  pub projected_cash : Decimal
  pub projected_shares : ℤ
  pub projected_market_value : Decimal
  pub projected_equity : Decimal

-- `reason_codes != (APPROVED_REASON,)`
abbrev pub is_approval_codes : List ReasonCode → Bool
is_approval_codes (approved_reason ∷ []) = true
is_approval_codes _ = false

abbrev pub is_empty : List ReasonCode → Bool
is_empty [] = true
is_empty (_ ∷ _) = false

unfoldable pub make_risk_decision : RiskDecision → Result RiskDecision
unfolding require_decimal require_non_negative_int require_positive_int has_code has_duplicates
make_risk_decision d = do
  require_positive_int d.order_sequence_number "invalid_order_sequence_number"
  raise_if (is_empty d.reason_codes) (risk_input "invalid_reason_codes")
  raise_if (has_duplicates d.reason_codes) (risk_input "duplicate_reason_codes")
  raise_if (d.approved && not (is_approval_codes d.reason_codes))
      (risk_input "invalid_approval_reason_codes")
  raise_if (not d.approved && has_code approved_reason d.reason_codes)
      (risk_input "invalid_rejection_reason_codes")
  require_decimal d.projected_cash "negative_projected_cash"
  require_non_negative_int d.projected_shares "invalid_projected_shares"
  require_decimal d.projected_market_value "negative_projected_market_value"
  require_decimal d.projected_equity "negative_projected_equity"
  raise_if
      (not (Decimal.eq d.projected_equity (Decimal.add d.projected_cash d.projected_market_value)))
      (risk_input "projected_equity_mismatch")
  ok d
