-- ===== src/Risk/Decisions.antt =====
-- What a constructed decision satisfies, and how the ends of `evaluate_order_risk` decide.
use spy_market_agent.Prelude.{◌≡◌, refl, ap, Bool, true, false, List, [], ◌∷◌, arith, ok}
use spy_market_agent.Prelude.Int.{pos, ◌≤ℤ◌}
use spy_market_agent.Decimal
use spy_market_agent.Decimal.{Decimal}
use spy_market_agent.Risk.Models.{
  ReasonCode, approved_reason, has_code, has_duplicates, is_negative, PortfolioState,
}
use spy_market_agent.Risk.Orders.{ProposedOrder, RiskDecision, make_risk_decision}
use spy_market_agent.Risk.Rules.{
  Projection, from_keys, remove_code, flag, unchanged_projection, conclude,
}

-- the checks of `RiskDecision.__post_init__` that the figures pass
pub record FiguresAreSound (d : RiskDecision) : Type 0 where
  pub cash : is_negative d.projected_cash ≡ false
  pub shares : pos 0 ≤ℤ d.projected_shares
  pub market_value : is_negative d.projected_market_value ≡ false
  pub equity : is_negative d.projected_equity ≡ false
  pub balance :
      Decimal.eq d.projected_equity (Decimal.add d.projected_cash d.projected_market_value) ≡ true
  pub distinct : has_duplicates d.reason_codes ≡ false
  pub sequence_number : pos 1 ≤ℤ d.order_sequence_number

pub make_risk_decision-eq-ok :
    (r : RiskDecision) {d : RiskDecision}
    → make_risk_decision r ≡ ok d
    → (r ≡ d) × FiguresAreSound r
unfolding make_risk_decision
make_risk_decision-eq-ok r h = ground arith

-- the decision that `conclude` builds when no code was collected
abbrev pub approval : ProposedOrder → Projection → RiskDecision
approval o p = record {
  order_sequence_number = o.sequence_number;
  approved = true;
  reason_codes = approved_reason ∷ [];
  evaluated_session = o.execution_session;
  projected_cash = p.cash;
  projected_shares = p.shares;
  projected_market_value = p.market_value;
  projected_equity = p.equity;
}

-- the decision that leaves the portfolio as it is
abbrev pub rejection : ProposedOrder → PortfolioState → List ReasonCode → RiskDecision
rejection o s codes = record {
  order_sequence_number = o.sequence_number;
  approved = false;
  reason_codes = from_keys codes;
  evaluated_session = o.execution_session;
  projected_cash = s.cash;
  projected_shares = s.shares;
  projected_market_value = s.market_value;
  projected_equity = s.equity;
}

pub unchanged_projection-eq-ok :
    (o : ProposedOrder) (s : PortfolioState) (codes : List ReasonCode) {d : RiskDecision}
    → unchanged_projection o.sequence_number o.execution_session s codes ≡ ok d
    → (rejection o s codes ≡ d) × FiguresAreSound (rejection o s codes)
unfolding unchanged_projection
unchanged_projection-eq-ok o s codes h = make_risk_decision-eq-ok (rejection o s codes) h

pub conclude-approved :
    (o : ProposedOrder) (s : PortfolioState) (p : Projection) (codes : List ReasonCode)
    {d : RiskDecision}
    → conclude o s p codes ≡ ok d
    → d.approved ≡ true
    → (codes ≡ []) × (approval o p ≡ d) × FiguresAreSound (approval o p)
unfolding conclude
conclude-approved o s p [] h yes' =
    let found = make_risk_decision-eq-ok (approval o p) h in (refl, found.0, found.1)
conclude-approved o s p (c ∷ cs) h yes' =
    let found = unchanged_projection-eq-ok o s (c ∷ cs) h in
    cc (ap (λ (x : RiskDecision). x.approved) found.0)

pub flag-eq-nil :
    (b : Bool) (c : ReasonCode) (rest : List ReasonCode)
    → flag b c rest ≡ []
    → (b ≡ false) × (rest ≡ [])
flag-eq-nil b c rest h = ground arith

-- removing duplicates leaves none, and no code that was not there

remove_code-lacks :
    (c d : ReasonCode) (cs : List ReasonCode)
    → has_code d cs ≡ false
    → has_code d (remove_code c cs) ≡ false
unfolding remove_code has_code
remove_code-lacks c d [] h = refl
remove_code-lacks c d (e ∷ cs) h = ground (arith, remove_code-lacks c d cs)

remove_code-lacks_self :
    (c : ReasonCode) (cs : List ReasonCode) → has_code c (remove_code c cs) ≡ false
unfolding remove_code has_code
remove_code-lacks_self c [] = refl
remove_code-lacks_self c (e ∷ cs) = ground (arith, remove_code-lacks_self c cs)

remove_code-distinct :
    (c : ReasonCode) (cs : List ReasonCode)
    → has_duplicates cs ≡ false
    → has_duplicates (remove_code c cs) ≡ false
unfolding remove_code has_duplicates
remove_code-distinct c [] h = refl
remove_code-distinct c (e ∷ cs) h =
    ground (arith, remove_code-distinct c cs, remove_code-lacks c e cs)

pub from_keys-distinct : (cs : List ReasonCode) → has_duplicates (from_keys cs) ≡ false
unfolding from_keys has_duplicates
from_keys-distinct [] = refl
from_keys-distinct (c ∷ cs) = ground (
  arith,
  from_keys-distinct cs,
  remove_code-distinct c (from_keys cs),
  remove_code-lacks_self c (from_keys cs),
)

pub from_keys-lacks :
    (d : ReasonCode) (cs : List ReasonCode)
    → has_code d cs ≡ false
    → has_code d (from_keys cs) ≡ false
unfolding from_keys has_code
from_keys-lacks d [] h = refl
from_keys-lacks d (c ∷ cs) h =
    ground (arith, from_keys-lacks d cs, remove_code-lacks c d (from_keys cs))
