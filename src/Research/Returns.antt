-- ===== src/Research/Returns.antt =====
-- The loop of research/folds.py ends: a round for each row of the labels, and one more, are enough.
use spy_market_agent.Prelude.{
  ℕ, zero, suc, ◌-◌, String, Bool, ◌≤◌, ◌≡◌, ◌≢◌, refl, ap, subst, ◌∙◌, inl, inr, Bool-cases,
  Result-cases, true, false, List, [], ◌∷◌, Option, some, none, length, take, drop, arith, Result,
  ok, err, ◌>>◌, walk_forward_split,
}
use spy_market_agent.Prelude.Int.{ℤ, pos, ◌+ℤ◌, ◌≤ℤ◌, pos_part, neg_part, ltb_ℤ, int_laws}
use spy_market_agent.Research.Windows.{
  FoldPolicy, make_fold_policy, WalkForwardFold, SessionWindow, make_walk_forward_manifest,
}
use spy_market_agent.Research.Isolation.{validate_phase2_final_test_isolation}
use spy_market_agent.Research.Folds.{
  LabelRow, Supervised, DatasetLineage, session_window, build_fold, fold_at, fold_loop, before_rest,
  fold_round, remaining_of, slice_bound, rows_between, assessment_start_of, manifest_of,
  walk_labels, construct_walk_forward_manifest, min_ℤ, validated_labels,
}

-- the checks of the policy's validator that the loop rests on
pub record IsPolicy (p : FoldPolicy) : Type 0 where
  pub boundary : p.boundary_sessions ≡ pos 6
  pub initial : pos 756 ≤ℤ p.minimum_initial_training_rows
  pub step : pos 1 ≤ℤ p.step_rows

pub make_fold_policy-eq-ok :
    (p : FoldPolicy) {q : FoldPolicy} → make_fold_policy p ≡ ok q → (p ≡ q) × IsPolicy p
unfolding make_fold_policy
make_fold_policy-eq-ok p h =
    (ground arith, record { boundary = ground arith; initial = ground arith; step = ground arith })

-- the loop has ended, with a value or a raise
abbrev pub Ends : {A : Type 0} → Option (Result A) → Type 0
Ends {A} o = (r : Result A) × (o ≡ some r)

drop-nil : (n : ℕ) (rows : List LabelRow) → length rows ≤ n → drop n rows ≡ []
drop-nil zero [] h = refl
drop-nil (suc n) [] h = refl
drop-nil zero (r ∷ rows) h = absurd (omega arith)
drop-nil (suc n) (r ∷ rows) h = drop-nil n rows (omega arith)

take-nil : (n : ℕ) → take {A = LabelRow} n [] ≡ []
take-nil zero = refl
take-nil (suc n) = refl

pub rows_between-nil :
    (start end : ℤ) (rows : List LabelRow)
    → pos (length rows) ≤ℤ start
    → rows_between start end rows ≡ []
rows_between-nil start end rows h =
    let from_row = slice_bound (length rows) start in
    ap (take (slice_bound (length rows) end - from_row)) (drop-nil from_row rows (ground arith))
    ∙ take-nil (slice_bound (length rows) end - from_row)

empty_window-err :
    (empty_code short_code : String) (minimum : ℤ) {w : SessionWindow}
    → session_window [] empty_code short_code minimum ≢ ok w
unfolding session_window
empty_window-err empty_code short_code minimum h = ground arith

build_fold-assessed :
    (p : FoldPolicy) (k : ℕ) (train boundary : List LabelRow) {f : WalkForwardFold}
    → build_fold p k train boundary [] ≢ ok f
unfolding build_fold
build_fold-assessed p k train boundary {f} h =
    elim (Result-cases (
      session_window [] "empty_assessment_window" "assessment_window_too_short"
        p.minimum_final_assessment_rows)) [
          | inl (w, e) ↦ empty_window-err _ _ _ {w = w} e
          | inr (x, e) ↦ ground arith
        ]

before_rest-Returns :
    (f : WalkForwardFold) (rest : Option (Result (List WalkForwardFold)))
    → Ends rest
    → Ends (before_rest f rest)
unfolding before_rest
before_rest-Returns f (some (err e)) h = (err e, refl)
before_rest-Returns f (some (ok fs)) h = (ok (f ∷ fs), refl)
before_rest-Returns f none (r, h) = ground arith

fold_round-Ends :
    (over : Bool) (fold : Result WalkForwardFold) (rest : Option (Result (List WalkForwardFold)))
    → ((f : WalkForwardFold) → over ≡ false → fold ≡ ok f → Ends rest)
    → Ends (fold_round over fold rest)
unfolding fold_round
fold_round-Ends true fold rest h = (ok [], refl)
fold_round-Ends false (err e) rest h = (err e, refl)
fold_round-Ends false (ok f) rest h = before_rest-Returns f rest (h f refl refl)

module _ (p : FoldPolicy) (labels : List LabelRow) (policy : IsPolicy p) where
  -- a fold that is built has rows to assess, so that its training does not reach the last row
  fold_at-short :
      (k : ℕ) (t : ℤ) {f : WalkForwardFold}
      → fold_at p labels k t ≡ ok f
      → pos 0 ≤ℤ t
      → pos (length labels) ≤ℤ t
      → ⊥
  fold_at-short k t {f} built h past =
      let start = assessment_start_of p t in
      let rows = min_ℤ p.assessment_window_rows (remaining_of p t labels) in
      let beyond : pos (length labels) ≤ℤ start =
        omega (int_laws, ap pos_part policy.boundary, ap neg_part policy.boundary) in
      build_fold-assessed p k (rows_between (pos 0) t labels) (rows_between t start labels) {f = f}
        (subst
          (λ (rs : List LabelRow).
            build_fold p k (rows_between (pos 0) t labels) (rows_between t start labels) rs ≡ ok f)
          (rows_between-nil start (start +ℤ rows) labels beyond) built)

  pub fold_loop-Ends :
      (fuel k : ℕ) (t : ℤ)
      → pos 0 ≤ℤ t
      → pos (length labels) ≤ℤ t +ℤ pos fuel
      → Ends (fold_loop (suc fuel) p labels k t)
  unfolding fold_loop
  fold_loop-Ends zero k t h enough =
      fold_round-Ends (ltb_ℤ (remaining_of p t labels) p.minimum_final_assessment_rows)
        (fold_at p labels k t) (fold_loop zero p labels (suc k) (t +ℤ p.step_rows))
        (λ f over built. absurd (fold_at-short k t built h (omega int_laws)))
  fold_loop-Ends (suc fuel) k t h enough =
      fold_round-Ends (ltb_ℤ (remaining_of p t labels) p.minimum_final_assessment_rows)
        (fold_at p labels k t) (fold_loop (suc fuel) p labels (suc k) (t +ℤ p.step_rows))
        (λ f over built.
          fold_loop-Ends fuel (suc k) (t +ℤ p.step_rows) (omega (int_laws, policy.step))
            (omega (int_laws, policy.step)))

manifest_of-Ends :
    (n : ℕ) (walked : Option (Result (List WalkForwardFold)))
    → Ends walked
    → Ends (manifest_of n walked)
unfolding manifest_of
manifest_of-Ends n (some (err e)) h = (err e, refl)
manifest_of-Ends n (some (ok fs)) h =
    (make_walk_forward_manifest (record { supervised_row_count = n; folds = fs }), refl)
manifest_of-Ends n none (r, h) = ground arith

walk_labels-Ends :
    (p : FoldPolicy) (labels : Result (List LabelRow)) → IsPolicy p → Ends (walk_labels p labels)
unfolding walk_labels
walk_labels-Ends p (err e) policy = (err e, refl)
walk_labels-Ends p (ok labels) policy =
    let start = p.minimum_initial_training_rows in
    let walked =
      fold_loop-Ends p labels policy (length labels) 0 start (omega (arith, policy.initial))
        (omega (int_laws, policy.initial)) in
    let (r, e) =
      manifest_of-Ends (length labels) (fold_loop (suc (length labels)) p labels 0 start) walked in
    elim (Bool-cases (ltb_ℤ (remaining_of p start labels) p.minimum_final_assessment_rows)) [
      | inl short ↦ (err (walk_forward_split "insufficient_walk_forward_rows"), rw short refl)
      | inr long ↦ (r, rw long e)
    ]

-- The loop of `construct_walk_forward_manifest` ends: under a policy that its validator accepts, and
-- for any dataset, as many rounds as the labels have rows, and one more, are enough for the call to
-- return a manifest or to raise.
pub construct_walk_forward_manifest-Ends :
    (supervised : Supervised) (lineage : DatasetLineage) (p : FoldPolicy)
    → make_fold_policy p ≡ ok p
    → Ends (construct_walk_forward_manifest supervised lineage p)
unfolding construct_walk_forward_manifest
construct_walk_forward_manifest-Ends supervised lineage p h =
    walk_labels-Ends p
      (validate_phase2_final_test_isolation (lineage.dataset_id ∷ [])
        >> validated_labels supervised lineage)
      (make_fold_policy-eq-ok p h).1
