-- ===== src/Backtest/Affordable.antt =====
-- `maximum_affordable_buy_quantity` of backtesting/costs.py against its description.
use native.Mathlib.Nat.{one-le-pow, lt-div-mul-add, div-mul-le_self, mul_assoc}
use spy_market_agent.Prelude.{
  ℕ, zero, suc, ◌+◌, ◌*◌, ◌/◌, ◌^◌, ◌≤◌, ◌<◌, ◌≡◌, refl, inl, inr, true, false, some, arith, ok,
  Result-cases, Option-cases, ltb, subst, ap, ◌∙◌,
}
use spy_market_agent.Prelude.Int.{ℤ, pos, negsuc, ◌*ℤ◌, ◌+ℤ◌, ◌≤ℤ◌, neg_part, pos-mul, pos-add}
use spy_market_agent.Decimal
use spy_market_agent.Decimal.{Decimal, zero_decimal, one_decimal, lt, le, floor_divide}
use spy_market_agent.Decimal.Sign.{lt_zero-IsNonNeg}
use spy_market_agent.Risk.Models.{is_negative}
use spy_market_agent.Risk.Rules.{CostAssumptions}
use spy_market_agent.Backtest.Models.{commission_rate, slippage_rate, make_cost_assumptions}
use spy_market_agent.Backtest.Costs.{whole_shares, per_share_cash, maximum_affordable_buy_quantity}
use spy_market_agent.Backtest.Inversion.{make_cost_assumptions-eq-ok}

-- `n` times `a`, without rounding
abbrev pub times : ℤ → Decimal → Decimal
times n a = record { coefficient = n *ℤ a.coefficient; scale = a.scale }

-- the greatest number of shares of which the cash pays the exact price
pub record IsGreatest (cash price : Decimal) (q : ℤ) : Type 0 where
  pub nonneg : pos 0 ≤ℤ q
  pub pays : lt cash (times q price) ≡ false
  pub next : lt cash (times (q +ℤ pos 1) price) ≡ true

floor_divide_magnitudes :
    (n s m t : ℕ) (q : ℤ)
    → floor_divide
        (record { coefficient = pos n; scale = s })
        (record { coefficient = pos (suc m); scale = t })
      ≡ some q
    → (q ≡ pos (n * 10 ^ t / (suc m * 10 ^ s)))
unfolding floor_divide
floor_divide_magnitudes n s m t q h = ground arith

-- comparing magnitudes
lt_of_magnitudes :
    (n s m t : ℕ)
    → lt (record { coefficient = pos n; scale = s }) (record { coefficient = pos m; scale = t })
      ≡ ltb (n * 10 ^ t) (m * 10 ^ s)
unfolding lt
lt_of_magnitudes n s m t = rw (pos-mul n (10 ^ t), pos-mul m (10 ^ s)) (ground arith)

below_next : (n d : ℕ) → 0 < d → n < (n / d + 1) * d
below_next n d p = omega (arith, lt-div-mul-add {a = n} {b = d} p)

positive-product : (m d : ℕ) → 0 < d → 0 < suc m * d
positive-product m d p = omega arith

quotient-pays :
    (n s m t : ℕ)
    → let k = n * 10 ^ t / (suc m * 10 ^ s) in
      lt
        (record { coefficient = pos n; scale = s })
        (record { coefficient = pos (k * suc m); scale = t })
      ≡ false
quotient-pays n s m t =
    let k = n * 10 ^ t / (suc m * 10 ^ s) in
    let bound : k * suc m * 10 ^ s ≤ n * 10 ^ t =
      rw (mul_assoc k (suc m) (10 ^ s)) (div-mul-le_self (n * 10 ^ t) (suc m * 10 ^ s)) in
    rw (lt_of_magnitudes n s (k * suc m) t) (ground arith)

quotient-next :
    (n s m t : ℕ)
    → let k = n * 10 ^ t / (suc m * 10 ^ s) in
      lt
        (record { coefficient = pos n; scale = s })
        (record { coefficient = pos ((k + 1) * suc m); scale = t })
      ≡ true
quotient-next n s m t =
    let k = n * 10 ^ t / (suc m * 10 ^ s) in
    let p = positive-product m (10 ^ s) (one-le-pow s 10 (omega arith)) in
    let bound : n * 10 ^ t < (k + 1) * suc m * 10 ^ s =
      rw (mul_assoc (k + 1) (suc m) (10 ^ s)) (below_next (n * 10 ^ t) (suc m * 10 ^ s) p) in
    rw (lt_of_magnitudes n s ((k + 1) * suc m) t) (ground arith)

positive_coefficient :
    (c : ℤ) (s : ℕ)
    → le (record { coefficient = c; scale = s }) zero_decimal ≡ false
    → (m : ℕ) × (c ≡ pos (suc m))
unfolding le lt
positive_coefficient (pos zero) s k = ground arith
positive_coefficient (pos (suc m)) s k = (m, refl)
positive_coefficient (negsuc m) s k = ground arith

coefficients-IsGreatest :
    (n c : ℤ) (s t : ℕ) (q : ℤ)
    → neg_part n ≡ 0
    → (m : ℕ) × (c ≡ pos (suc m))
    → floor_divide (record { coefficient = n; scale = s }) (record { coefficient = c; scale = t })
      ≡ some q
    → IsGreatest (record { coefficient = n; scale = s }) (record { coefficient = c; scale = t }) q
coefficients-IsGreatest (negsuc n) c s t q k m e = absurd (omega arith)
coefficients-IsGreatest (pos n) c s t q h (m, same) e =
    let k = n * 10 ^ t / (suc m * 10 ^ s) in
    let found = floor_divide_magnitudes n s m t q (
      subst
        (λ (d : ℤ).
          floor_divide (record { coefficient = pos n; scale = s })
            (record { coefficient = d; scale = t })
          ≡ some q)
        same e) in
    record {
      nonneg = rw found (omega arith);
      pays = rw (found, same, pos-mul k (suc m)) (quotient-pays n s m t);
      next = rw (found, same, pos-add k 1, pos-mul (k + 1) (suc m)) (quotient-next n s m t);
    }

floor_divide-IsGreatest :
    (cash price : Decimal) (q : ℤ)
    → is_negative cash ≡ false
    → le price zero_decimal ≡ false
    → floor_divide cash price ≡ some q
    → IsGreatest cash price q
floor_divide-IsGreatest cash price q h p f =
    coefficients-IsGreatest cash.coefficient price.coefficient cash.scale price.scale q
      (lt_zero-IsNonNeg cash h) (positive_coefficient price.coefficient price.scale p) f

whole_shares-IsGreatest :
    (cash price : Decimal) {q : ℤ}
    → is_negative cash ≡ false
    → whole_shares cash price ≡ ok q
    → IsGreatest cash price q
whole_shares-IsGreatest cash price {q} h k = elim (Option-cases (floor_divide cash price)) [
  | inl none_found ↦ unfold whole_shares in ground arith
  | inr (n, found) ↦
      let (same, p) : (n ≡ q) × (le price zero_decimal ≡ false) =
        unfold whole_shares in (ground arith, ground arith) in
      subst (IsGreatest cash price) same (floor_divide-IsGreatest cash price n h p found)
]

-- What `maximum_affordable_buy_quantity` returns is not negative, and is the greatest number of
-- shares of which the cash pays the price of one, which is the reference price times one and the
-- slippage rate, times one and the commission rate, each rounded to the decimal context: that many
-- cost no more than the cash, computed exactly, and one more share would cost more.
pub maximum_affordable_buy_quantity-IsGreatest :
    (cash reference : Decimal) (costs : CostAssumptions) {q : ℤ}
    → maximum_affordable_buy_quantity cash reference costs ≡ ok q
    → (slipped : Decimal) × (rate : Decimal) × (slippage_rate costs ≡ ok slipped)
      × (commission_rate costs ≡ ok rate)
      × IsGreatest cash
          (Decimal.mul
            (Decimal.mul reference (Decimal.add one_decimal slipped))
            (Decimal.add one_decimal rate))
          q
unfolding maximum_affordable_buy_quantity
maximum_affordable_buy_quantity-IsGreatest cash reference costs {q} h =
    elim (Result-cases (make_cost_assumptions costs)) [
      | inr (x, k) ↦ ground arith
      | inl (c, k) ↦
          let same = make_cost_assumptions-eq-ok costs k in
          elim (Result-cases (slippage_rate c)) [
            | inr (x, ks) ↦ ground arith
            | inl (s, ks) ↦ elim (Result-cases (commission_rate c)) [
              | inr (x, kr) ↦ ground arith
              | inl (r, kr) ↦ (
                s,
                r,
                ap slippage_rate same ∙ ks,
                ap commission_rate same ∙ kr,
                whole_shares-IsGreatest cash (per_share_cash reference s r) (ground arith)
                    (ground arith),
              )
            ]
          ]
    ]
