-- ===== src/Decimal/Idempotent.antt =====
-- Rounding keeps what is positive, and changes a value once: a rounded value is left as it is.
use native.Mathlib.Nat.{
  pow-succ', pow-le-pow_right, one-le-pow, mul_assoc, mul-lt-mul_of_pos_right, le-div_iff_mul-le,
  div-lt_iff_lt-mul, mul-div_cancel, mul-mod_left,
}
use spy_market_agent.Prelude.{
  ℕ, zero, suc, ◌+◌, ◌-◌, ◌*◌, ◌/◌, ◌^◌, ◌≤◌, ◌<◌, ◌≡◌, refl, inl, inr, arith, ltb, ap, Bool-cases,
  ◌∙◌, sym, subst,
}
use spy_market_agent.Prelude.Int.{ℤ, pos, negsuc, neg_ℤ, pos_part, neg_part}
use spy_market_agent.Decimal.{
  Decimal, half_even, round_magnitude, round_coefficient, round, digit_count, exact_neg, add,
  negate, sub, exact_add,
}
use spy_market_agent.Decimal.Digits.{tens-add, tens-reflect, HasDigits, digit_count-HasDigits}

-- at most 28 significant digits
pub record IsShort (n : ℕ) : Type 0 where
  pub head : ℕ
  pub zeros : ℕ
  pub same : n ≡ head * 10 ^ zeros
  pub below : head < 10 ^ 28

half_even-exact : (x p : ℕ) → 0 < p → half_even (x * p) p ≡ x
unfolding half_even
half_even-exact x p h = rw (mul-div_cancel x h, mul-mod_left x p) (ground arith)

half_even-bounds : (n p : ℕ) → (n / p ≤ half_even n p) × (half_even n p ≤ n / p + 1)
unfolding half_even
half_even-bounds n p = (ground arith, ground arith)

tens-pos : (k : ℕ) → 0 < 10 ^ k
tens-pos k = one-le-pow k 10 (omega arith)

round_magnitude-small : (n e : ℕ) → digit_count n ≡ suc e → suc e ≤ 28 → round_magnitude n ≡ n
unfolding round_magnitude
round_magnitude-small n e h k = rw h (ground arith)

round_magnitude-large :
    (n e : ℕ)
    → digit_count n ≡ suc e
    → 28 < suc e
    → round_magnitude n ≡ half_even n (10 ^ (suc e - 28)) * 10 ^ (suc e - 28)
unfolding round_magnitude
round_magnitude-large n e h k = rw h (ground arith)

product_positive : (m n : ℕ) → 0 < m → 0 < n → 0 < m * n
product_positive zero n h k = absurd (omega arith)
product_positive (suc m) n h k = omega arith

-- more than 28 digits: the leading ones, of which there are exactly 28
module _ (n e : ℕ) (digits : HasDigits n e) (large : 28 < suc e) where
  head_bounds : let p = 10 ^ (suc e - 28) in (10 ^ 27 ≤ n / p) × (n / p < 10 ^ 28)
  head_bounds =
      let p = 10 ^ (suc e - 28) in
      let cut : 27 + (suc e - 28) ≡ e = omega arith in
      let all : 28 + (suc e - 28) ≡ suc e = omega arith in
      let low : 10 ^ 27 * p ≡ 10 ^ e =
        sym (tens-add 27 (suc e - 28)) ∙ ap (λ (k : ℕ). 10 ^ k) cut in
      let high : 10 ^ 28 * p ≡ 10 ^ suc e =
        sym (tens-add 28 (suc e - 28)) ∙ ap (λ (k : ℕ). 10 ^ k) all in
      (
        (le-div_iff_mul-le (tens-pos (suc e - 28))).1
            (omega (arith, low, digits.reaches (omega arith))),
        (div-lt_iff_lt-mul (tens-pos (suc e - 28))).1 (omega (arith, high, digits.below)),
      )

  rounded_head : IsShort (half_even n (10 ^ (suc e - 28)) * 10 ^ (suc e - 28))
  rounded_head =
      let p = 10 ^ (suc e - 28) in
      let h = half_even n p in
      elim (Bool-cases (ltb h (10 ^ 28))) [
        | inl less ↦ record { head = h; zeros = suc e - 28; same = refl; below = ground arith }
        | inr carried ↦
            let (low, high) = head_bounds in
            let (under, over) = half_even-bounds n p in
            let ten : h ≡ 10 ^ 28 = ground arith in
            record {
              head = 10 ^ 27;
              zeros = suc (suc e - 28);
              same = omega (arith, ap (λ (k : ℕ). k * p) ten, pow-succ' 10 (suc e - 28));
              below = omega arith;
            }
      ]

  rounded_positive : 0 < half_even n (10 ^ (suc e - 28)) * 10 ^ (suc e - 28)
  rounded_positive =
      let (low, high) = head_bounds in
      let (under, over) = half_even-bounds n (10 ^ (suc e - 28)) in
      product_positive (half_even n (10 ^ (suc e - 28))) (10 ^ (suc e - 28)) (omega arith)
        (tens-pos (suc e - 28))

round_magnitude-IsShort : (n : ℕ) → IsShort (round_magnitude n)
round_magnitude-IsShort n =
    let (e, count, digits) = digit_count-HasDigits n in
    elim (Bool-cases (ltb 28 (suc e))) [
      | inl large ↦
          let l : 28 < suc e = ground arith in
          subst IsShort (sym (round_magnitude-large n e count l)) (rounded_head n e digits l)
      | inr small ↦
          let s : suc e ≤ 28 = ground arith in
          record {
            head = n;
            zeros = 0;
            same = round_magnitude-small n e count s ∙ omega arith;
            below = omega (arith, digits.below, pow-le-pow_right {n = 10} (omega arith) s);
          }
    ]

pub round_magnitude-positive : (n : ℕ) → 0 < n → 0 < round_magnitude n
round_magnitude-positive n p =
    let (e, count, digits) = digit_count-HasDigits n in
    elim (Bool-cases (ltb 28 (suc e))) [
      | inl large ↦
          let l : 28 < suc e = ground arith in
          rw (round_magnitude-large n e count l) (rounded_positive n e digits l)
      | inr small ↦ rw (round_magnitude-small n e count (ground arith)) p
    ]

scaled_below : (h b p : ℕ) → h < b → 0 < p → h * p < b * p
scaled_below h b p less positive = mul-lt-mul_of_pos_right less positive

-- a short number of more than 28 digits ends in the zeros that rounding would write
short-divides :
    (n e : ℕ) → IsShort n → HasDigits n e → 28 < suc e → (x : ℕ) × (n ≡ x * 10 ^ (suc e - 28))
short-divides n e s digits large =
    let k = s.zeros in
    let cut = suc e - 28 in
    let bound : 10 ^ e < 10 ^ (28 + k) = omega (
      arith,
      digits.reaches (omega arith),
      s.same,
      tens-add 28 k,
      scaled_below s.head (10 ^ 28) (10 ^ k) s.below (tens-pos k),
    ) in
    let less : e < 28 + k = tens-reflect e (28 + k) bound in
    let split : k ≡ k - cut + cut = omega arith in
    (
      s.head * 10 ^ (k - cut),
      s.same
          ∙ ap (λ (j : ℕ). s.head * 10 ^ j) split
          ∙ ap (λ (j : ℕ). s.head * j) (tens-add (k - cut) cut)
          ∙ sym (mul_assoc s.head (10 ^ (k - cut)) (10 ^ cut)),
    )

round_magnitude-short : (n : ℕ) → IsShort n → round_magnitude n ≡ n
round_magnitude-short n s =
    let (e, count, digits) = digit_count-HasDigits n in
    elim (Bool-cases (ltb 28 (suc e))) [
      | inl large ↦
          let l : 28 < suc e = ground arith in
          let p = 10 ^ (suc e - 28) in
          let (x, same) = short-divides n e s digits l in
          round_magnitude-large n e count l
          ∙ ap (λ (m : ℕ). half_even m p * p) same
          ∙ ap (λ (m : ℕ). m * p) (half_even-exact x p (tens-pos (suc e - 28)))
          ∙ sym same
      | inr small ↦ round_magnitude-small n e count (ground arith)
    ]

pub round_magnitude-again : (n : ℕ) → round_magnitude (round_magnitude n) ≡ round_magnitude n
round_magnitude-again n = round_magnitude-short (round_magnitude n) (round_magnitude-IsShort n)

round_coefficient-again : (c : ℤ) → round_coefficient (round_coefficient c) ≡ round_coefficient c
unfolding round_coefficient
round_coefficient-again (pos n) = ap pos (round_magnitude-again n)
round_coefficient-again (negsuc n) =
    negated (round_magnitude (suc n)) (round_magnitude-positive (suc n) (omega arith))
      (round_magnitude-again (suc n))
  where
    negated :
        (m : ℕ) → 0 < m → round_magnitude m ≡ m → round_coefficient (neg_ℤ (pos m)) ≡ neg_ℤ (pos m)
    negated zero p h = absurd (omega arith)
    negated (suc m) p h = ap (λ (k : ℕ). neg_ℤ (pos k)) h

negated_magnitude : (r n : ℕ) → neg_ℤ (pos r) ≡ negsuc n → r ≡ suc n
negated_magnitude zero n h = ground arith
negated_magnitude (suc r) n h = ap neg_part h

negated_again : (c : ℤ) → round_coefficient c ≡ c → round_coefficient (neg_ℤ c) ≡ neg_ℤ c
unfolding round_coefficient
negated_again (pos zero) h = h
negated_again (pos (suc n)) h = ap (λ (k : ℕ). neg_ℤ (pos k)) (ap pos_part h)
negated_again (negsuc n) h = ap pos (negated_magnitude (round_magnitude (suc n)) n h)

round-neg_round : (d : Decimal) → round (exact_neg (round d)) ≡ exact_neg (round d)
unfolding round exact_neg
round-neg_round d =
    ap (λ (c : ℤ). record { coefficient = c; scale = d.scale })
      (negated_again (round_coefficient d.coefficient) (round_coefficient-again d.coefficient))

-- The negative of a sum is not rounded a second time.
pub negate-add : (a b : Decimal) → negate (add a b) ≡ exact_neg (add a b)
negate-add a b = unfold negate add in round-neg_round (exact_add a b)

add-exact_neg : (c d : Decimal) → add c (exact_neg d) ≡ sub c d
add-exact_neg c d = unfold add sub in refl

-- Adding the negative of a sum is subtracting the sum.
pub add-negate-add : (c a b : Decimal) → add c (negate (add a b)) ≡ sub c (add a b)
add-negate-add c a b = ap (add c) (negate-add a b) ∙ add-exact_neg c (add a b)
