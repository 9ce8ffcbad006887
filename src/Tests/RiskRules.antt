-- ===== src/Tests/RiskRules.antt =====
-- risk/rules.py on a buy of ten shares at 100.00, with 10 and 20 basis points of costs.
use spy_market_agent.Prelude.{◌≡◌, refl, true, false, ◌*◌, ◌^◌, arith, ok, Result, [], ◌∷◌}
use spy_market_agent.Prelude.Int.{ℤ, pos, negsuc}
use spy_market_agent.Decimal
use spy_market_agent.Decimal.{Decimal, from_int, one_decimal}
use spy_market_agent.Risk.Models.{
  RiskConfig, make_risk_config, PortfolioState, make_portfolio_state, supported_symbol, buy_side,
  require_decimal, require_positive_int, has_code, same_code, approved_reason,
  maximum_position_exceeded, insufficient_cash, leverage_forbidden, is_negative,
}
use spy_market_agent.Risk.Orders.{ProposedOrder, RiskDecision, make_risk_decision}
use spy_market_agent.Risk.Approval.{IsApproved, evaluate_order_risk_sound}
use spy_market_agent.Risk.Rejection.{IsRejection, evaluate_order_risk_rejects}
use spy_market_agent.Risk.Returns.{Returns, CoversExit, evaluate_order_risk-Returns}
use spy_market_agent.Risk.Rules.{
  CostAssumptions, evaluate_order_risk, cost_rate_from_assumptions, quotient, revalidated,
  decide_preliminary, preliminary_reasons, costing, estimates_match, evaluate_projection, conclude,
  buy_projection, buy_reasons, weight_reasons, unchanged_projection, from_keys,
}

abbrev pub thousandths : ℤ → Decimal
thousandths n = record { coefficient = n; scale = 3 }

abbrev pub config : RiskConfig
config = record {
  supported = supported_symbol;
  allow_short_selling = false;
  allow_leverage = false;
  allow_fractional_shares = false;
  maximum_position_weight = one_decimal;
}

abbrev pub costs : CostAssumptions
costs = record {
  commission_bps_per_side = from_int (pos 10);
  slippage_bps_per_side = from_int (pos 20);
}

abbrev pub flat_portfolio : ℤ → PortfolioState
flat_portfolio cash = record {
  session = 738000;
  cash = from_int cash;
  shares = pos 0;
  reference_price = from_int (pos 100);
  market_value = from_int (pos 0);
  equity = from_int cash;
}

abbrev pub buy_ten : ℤ → ProposedOrder
buy_ten cash = record {
  sequence_number = pos 1;
  symbol = supported_symbol;
  side = buy_side;
  quantity = pos 10;
  signal_session = 737999;
  execution_session = 738000;
  target_position = pos 1;
  reference_open = from_int (pos 100);
  estimated_execution_price = thousandths (pos 100200);
  estimated_commission = thousandths (pos 1002);
  estimated_cash_change = thousandths (negsuc 1003001);
  current_cash = from_int cash;
  current_shares = pos 0;
}

unfoldable pub evaluated : Unit {0}
unfolding evaluate_order_risk cost_rate_from_assumptions quotient revalidated decide_preliminary
    preliminary_reasons costing estimates_match evaluate_projection conclude buy_projection
    buy_reasons weight_reasons unchanged_projection from_keys make_risk_decision
    make_portfolio_state make_risk_config require_decimal require_positive_int has_code same_code
    Decimal.divide Decimal.add Decimal.sub Decimal.mul Decimal.negate Decimal.lt Decimal.le
    Decimal.eq
evaluated = tt

abbrev pub evaluation : ℤ → Result RiskDecision
evaluation cash = evaluate_order_risk (buy_ten cash) (flat_portfolio cash) config costs

-- 10 * 100.2 and the commission of 1.002 leave 8996.998.
abbrev pub after_buy : RiskDecision
after_buy = record {
  order_sequence_number = pos 1;
  approved = true;
  reason_codes = approved_reason ∷ [];
  evaluated_session = 738000;
  projected_cash = record { coefficient = pos (8996998 * 10 ^ 69); scale = 72 };
  projected_shares = pos 10;
  projected_market_value = from_int (pos 1000);
  projected_equity = record { coefficient = pos (9996998 * 10 ^ 69); scale = 72 };
}

pub evaluation-after_buy : evaluation (pos 10000) ≡ ok after_buy
unfolding evaluated
evaluation-after_buy = refl

-- With 1000 in cash the order is short by 3.002.
abbrev refused : RiskDecision
refused = record {
  order_sequence_number = pos 1;
  approved = false;
  reason_codes = insufficient_cash ∷ leverage_forbidden ∷ maximum_position_exceeded ∷ [];
  evaluated_session = 738000;
  projected_cash = from_int (pos 1000);
  projected_shares = pos 0;
  projected_market_value = from_int (pos 0);
  projected_equity = from_int (pos 1000);
}

evaluation-refused : evaluation (pos 1000) ≡ ok refused
unfolding evaluated
evaluation-refused = refl

evaluate_order_risk_sound_example :
    (cr : Decimal) × (sr : Decimal) × (cost_rate_from_assumptions
        (from_int (pos 10))
        "negative_commission_bps_per_side"
      ≡ ok cr)
    × (cost_rate_from_assumptions (from_int (pos 20)) "negative_slippage_bps_per_side" ≡ ok sr)
    × IsApproved (buy_ten (pos 10000)) (flat_portfolio (pos 10000)) config cr sr after_buy
evaluate_order_risk_sound_example =
    evaluate_order_risk_sound (buy_ten (pos 10000)) (flat_portfolio (pos 10000)) config costs
      evaluation-after_buy refl

evaluate_order_risk_rejects_example :
    IsRejection (buy_ten (pos 1000)) (flat_portfolio (pos 1000)) refused
evaluate_order_risk_rejects_example =
    evaluate_order_risk_rejects (buy_ten (pos 1000)) (flat_portfolio (pos 1000)) config costs
      evaluation-refused refl

covers : CoversExit (buy_ten (pos 1000)) (flat_portfolio (pos 1000)) costs
covers = record { at = λ cr sr e f selling. cc }

flat_valid : make_portfolio_state (flat_portfolio (pos 1000)) ≡ ok (flat_portfolio (pos 1000))
unfolding evaluated
flat_valid = refl

config_valid : make_risk_config config ≡ ok config
unfolding evaluated
config_valid = refl

costs_valid :
    (is_negative costs.commission_bps_per_side ≡ false)
    × (is_negative costs.slippage_bps_per_side ≡ false)
unfolding evaluated
costs_valid = (refl, refl)

evaluate_order_risk-Returns_example : Returns (evaluation (pos 1000))
evaluate_order_risk-Returns_example =
    evaluate_order_risk-Returns (buy_ten (pos 1000)) (flat_portfolio (pos 1000)) config costs
      flat_valid config_valid costs_valid.0 costs_valid.1 (omega arith) covers
