-- ===== src/Research/Slices.antt =====
-- The slices of the labels in research/folds.py, for bounds that are not negative.
use spy_market_agent.Prelude.{
  ℕ, zero, suc, ◌-◌, ◌+◌, ◌≤◌, ◌≡◌, refl, sym, ap, ◌∙◌, List, [], ◌∷◌, length, take, drop, arith,
  ◌⊎◌, inl, inr, Bool-cases,
}
use spy_market_agent.Prelude.Int.{ℤ, pos, ◌+ℤ◌, ◌-ℤ◌, ◌≤ℤ◌, pos_part, neg_part, ltb_ℤ, int_laws}
use spy_market_agent.Research.Windows.{FoldPolicy, boundary_exclusion_sessions}
use spy_market_agent.Research.Folds.{
  LabelRow, slice_bound, rows_between, min_ℤ, assessment_start_of, remaining_of,
}

length-drop : (n : ℕ) (rows : List LabelRow) → length (drop n rows) ≡ length rows - n
length-drop zero rows = omega arith
length-drop (suc n) [] = omega arith
length-drop (suc n) (r ∷ rows) = omega (arith, length-drop n rows)

take-past : (n : ℕ) (rows : List LabelRow) → length rows ≤ n → take n rows ≡ rows
take-past zero [] h = refl
take-past (suc n) [] h = refl
take-past zero (r ∷ rows) h = absurd (omega arith)
take-past (suc n) (r ∷ rows) h =
    ap (λ (rs : List LabelRow). r ∷ rs) (take-past n rows (omega arith))

neg_none : (b : ℤ) → pos 0 ≤ℤ b → neg_part b ≡ 0
neg_none b h = ground arith

whole_of : (b : ℤ) → pos 0 ≤ℤ b → b ≡ pos (pos_part b)
whole_of b h = ground arith

bound_kept : (count : ℕ) (b : ℤ) → pos 0 ≤ℤ b → slice_bound count b ≡ pos_part b
bound_kept count b h = ground arith

between_kept :
    (start end : ℤ) (rows : List LabelRow)
    → pos 0 ≤ℤ start
    → pos 0 ≤ℤ end
    → rows_between start end rows
      ≡ take (pos_part end - pos_part start) (drop (pos_part start) rows)
between_kept start end rows h k =
    rw (bound_kept (length rows) start h) (rw (bound_kept (length rows) end k) refl)

-- the end of a window of `w` rows from row `s` on, of `n` rows in all
abbrev window_end : ℕ → ℕ → ℕ → ℤ
window_end n s w = pos s +ℤ min_ℤ (pos w) (pos n -ℤ pos s)

window_end-cases :
    (n s w : ℕ)
    → (pos 0 ≤ℤ window_end n s w)
      × ((pos_part (window_end n s w) - s ≡ w)
          ⊎ ((n - s ≤ pos_part (window_end n s w) - s) × (n - s ≤ w)))
unfolding ◌+ℤ◌ ◌-ℤ◌
window_end-cases n s w = elim (Bool-cases (ltb_ℤ (pos n -ℤ pos s) (pos w))) [
  | inl fewer ↦ (ground arith, inr (ground arith, ground arith))
  | inr enough ↦ (ground arith, inl (ground arith))
]

window_rows :
    (s w : ℕ) (rows : List LabelRow)
    → rows_between (pos s) (window_end (length rows) s w) rows ≡ take w (drop s rows)
window_rows s w rows =
    let (above, outcome) = window_end-cases (length rows) s w in
    let m = pos_part (window_end (length rows) s w) - s in
    between_kept (pos s) (window_end (length rows) s w) rows (omega arith) above ∙ elim outcome [
      | inl same ↦ ap (λ (k : ℕ). take k (drop s rows)) same
      | inr (past, wide) ↦
          take-past m (drop s rows) (omega (arith, length-drop s rows))
          ∙ sym (take-past w (drop s rows) (omega (arith, length-drop s rows)))
    ]

-- the first row that is assessed, when the training ends before row `t`
abbrev pub assessed_from : ℤ → ℕ
assessed_from t = pos_part t + boundary_exclusion_sessions

module _ (p : FoldPolicy) (t : ℤ) (labels : List LabelRow)
    (boundary : p.boundary_sessions ≡ pos boundary_exclusion_sessions) (nonneg : pos 0 ≤ℤ t) where
  pub start_at : assessment_start_of p t ≡ pos (assessed_from t)
  start_at = omega (int_laws, neg_none t nonneg, ap pos_part boundary, ap neg_part boundary)

  pub training_rows : rows_between (pos 0) t labels ≡ take (pos_part t) labels
  training_rows =
      between_kept (pos 0) t labels (omega arith) nonneg
      ∙ ap (λ (n : ℕ). take n labels) {y = pos_part t} (omega arith)

  pub boundary_rows :
      rows_between t (assessment_start_of p t) labels
      ≡ take boundary_exclusion_sessions (drop (pos_part t) labels)
  boundary_rows =
      ap (λ (e : ℤ). rows_between t e labels) start_at
      ∙ (between_kept t (pos (assessed_from t)) labels nonneg (omega arith)
          ∙ ap (λ (n : ℕ). take n (drop (pos_part t) labels)) {y = 6} (omega arith))

  -- the rows of a fold to assess are as many as the window takes of those that are left
  pub assessment_rows :
      pos 0 ≤ℤ p.assessment_window_rows
      → let start = assessment_start_of p t in
        rows_between start
          (start +ℤ min_ℤ p.assessment_window_rows (remaining_of p t labels))
          labels
        ≡ take (pos_part p.assessment_window_rows) (drop (assessed_from t) labels)
  assessment_rows wide =
      ap
        (λ (s : ℤ).
          rows_between s (s +ℤ min_ℤ p.assessment_window_rows (pos (length labels) -ℤ s)) labels)
        start_at
      ∙ (ap
            (λ (w : ℤ).
              rows_between (pos (assessed_from t))
                (pos (assessed_from t) +ℤ min_ℤ w (pos (length labels) -ℤ pos (assessed_from t)))
                labels)
            (whole_of p.assessment_window_rows wide)
          ∙ window_rows (assessed_from t) (pos_part p.assessment_window_rows) labels)
