-- ===== src/Decimal/Digits.antt =====
-- The count of decimal digits, and what it says of powers of ten.
use native.Mathlib.Nat.{pow-succ', pow-le-pow_right, mul_assoc}
use spy_market_agent.Prelude.{
  ℕ, zero, suc, ◌+◌, ◌*◌, ◌/◌, ◌^◌, ◌≤◌, ◌<◌, ◌≡◌, refl, inl, inr, arith, ltb, ap, Bool-cases, ◌∙◌,
  sym,
}
use spy_market_agent.Decimal.{count_digits, digit_count}

pub tens-add : (m n : ℕ) → 10 ^ (m + n) ≡ 10 ^ m * 10 ^ n
tens-add zero n = let e : zero + n ≡ n = omega arith in omega (arith, ap (λ (k : ℕ). 10 ^ k) e)
tens-add (suc m) n =
    let e : suc m + n ≡ suc (m + n) = omega arith in
    ap (λ (k : ℕ). 10 ^ k) e
    ∙ pow-succ' 10 (m + n)
    ∙ ap (λ (k : ℕ). 10 * k) (tens-add m n)
    ∙ sym (mul_assoc 10 (10 ^ m) (10 ^ n))
    ∙ ap (λ (k : ℕ). k * 10 ^ n) (sym (pow-succ' 10 m))

-- powers of ten compare as their exponents do
pub tens-reflect : (m n : ℕ) → 10 ^ m < 10 ^ n → m < n
tens-reflect m n h = elim (Bool-cases (ltb m n)) [
  | inl less ↦ ground arith
  | inr more ↦
      let up : 10 ^ n ≤ 10 ^ m = pow-le-pow_right (omega arith) (ground arith) in
      absurd (omega arith)
]

-- n has e + 1 digits
pub record HasDigits (n e : ℕ) : Type 0 where
  pub below : n < 10 ^ suc e
  pub reaches : 0 < e → 10 ^ e ≤ n

next_digit : (n e : ℕ) → 10 ≤ n → HasDigits (n / 10) e → HasDigits n (suc e)
next_digit n zero h d = record { below = omega (arith, d.below); reaches = λ p. omega (arith) }
next_digit n (suc e) h d = record {
  below = omega (arith, d.below, pow-succ' 10 (suc (suc e)));
  reaches = λ p. omega (arith, d.reaches (omega arith), pow-succ' 10 (suc e));
}

count_digits-HasDigits :
    (fuel n : ℕ) → n ≤ fuel → (e : ℕ) × (count_digits fuel n ≡ suc e) × HasDigits n e
unfolding count_digits
count_digits-HasDigits zero n h =
    (0, refl, record { below = omega arith; reaches = λ p. absurd (omega arith) })
count_digits-HasDigits (suc fuel) n h = elim (Bool-cases (ltb n 10)) [
  | inl small ↦
      (0, ground arith, record { below = ground arith; reaches = λ p. absurd (omega arith) })
  | inr large ↦
      let (e, same, digits) = count_digits-HasDigits fuel (n / 10) (ground arith) in
      (suc e, ground arith, next_digit n e (ground arith) digits)
]

pub digit_count-HasDigits : (n : ℕ) → (e : ℕ) × (digit_count n ≡ suc e) × HasDigits n e
unfolding digit_count
digit_count-HasDigits n = count_digits-HasDigits n n (omega arith)
