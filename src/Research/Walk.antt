-- ===== src/Research/Walk.antt =====
-- The manifest of research/folds.py is the expanding walk over the labels, fold by fold.
use spy_market_agent.Prelude.{
  ℕ, zero, suc, ◌≡◌, refl, sym, ap, subst, ◌∙◌, ◌⊎◌, inl, inr, Bool-cases, Bool, true, false, List,
  [], ◌∷◌, Option, some, none, length, take, drop, arith, Result, ok, err, ◌>>◌,
}
use spy_market_agent.Prelude.Int.{ℤ, pos, ◌+ℤ◌, ◌-ℤ◌, ◌≤ℤ◌, ◌<ℤ◌, ltb_ℤ, pos_part, int_laws}
use spy_market_agent.Research.Windows.{
  boundary_exclusion_sessions, FoldPolicy, make_fold_policy, WalkForwardFold, WalkForwardManifest,
  make_walk_forward_manifest,
}
use spy_market_agent.Research.Folds.{
  LabelRow, Supervised, DatasetLineage, build_fold, fold_at, fold_loop, before_rest, fold_round,
  remaining_of, manifest_of, walk_labels, construct_walk_forward_manifest, validated_labels,
}
use spy_market_agent.Research.Isolation.{validate_phase2_final_test_isolation}
use spy_market_agent.Research.Returns.{IsPolicy, make_fold_policy-eq-ok}
use spy_market_agent.Research.Slices.{
  assessed_from, start_at, training_rows, boundary_rows, assessment_rows,
}
use spy_market_agent.Research.Sealed.{IsSealed, build_fold-IsSealed}

same_fold :
    (p : FoldPolicy) (k : ℕ) {a a' b b' c c' : List LabelRow}
    → a ≡ a'
    → b ≡ b'
    → c ≡ c'
    → build_fold p k a b c ≡ build_fold p k a' b' c'
same_fold p k ea eb ec = cc

-- the rows that are left to assess, when the training ends before row `t`
abbrev pub rows_left : List LabelRow → ℤ → ℤ
rows_left labels t = pos (length labels) -ℤ pos (assessed_from t)

-- Folds number `k` and later, where the training of fold `k` ends before row `t`: fold after fold
-- as long as enough rows are left to assess. A fold trains on all rows before `t`, excludes the next
-- six and assesses the rows after those, as many as the window takes.
pub data Walk (p : FoldPolicy) (labels : List LabelRow)
    : ℕ → ℤ → List WalkForwardFold → Type 0 where
  over :
      (k : ℕ) (t : ℤ) → rows_left labels t <ℤ p.minimum_final_assessment_rows → Walk p labels k t []
  then_fold :
      (k : ℕ) (t : ℤ) (f : WalkForwardFold) (fs : List WalkForwardFold)
      → p.minimum_final_assessment_rows ≤ℤ rows_left labels t
      → IsSealed p k
          (take (pos_part t) labels)
          (take boundary_exclusion_sessions (drop (pos_part t) labels))
          (take (pos_part p.assessment_window_rows) (drop (assessed_from t) labels))
          f
      → Walk p labels (suc k) (t +ℤ p.step_rows) fs
      → Walk p labels k t (f ∷ fs)

before_rest-eq-ok :
    (f : WalkForwardFold) (rest : Option (Result (List WalkForwardFold)))
    {fs : List WalkForwardFold}
    → before_rest f rest ≡ some (ok fs)
    → (gs : List WalkForwardFold) × (rest ≡ some (ok gs)) × (f ∷ gs ≡ fs)
unfolding before_rest
before_rest-eq-ok f none h = ground arith
before_rest-eq-ok f (some (err e)) h = ground arith
before_rest-eq-ok f (some (ok gs)) h = (gs, refl, ground arith)

fold_round-eq-ok :
    (stop : Bool) (fold : Result WalkForwardFold) (rest : Option (Result (List WalkForwardFold)))
    {fs : List WalkForwardFold}
    → fold_round stop fold rest ≡ some (ok fs)
    → ((stop ≡ true) × ([] ≡ fs))
      ⊎ ((f : WalkForwardFold) × (gs : List WalkForwardFold) × (stop ≡ false)
          × (fold ≡ ok f)
          × (rest ≡ some (ok gs))
          × (f ∷ gs ≡ fs))
unfolding fold_round
fold_round-eq-ok true fold rest h = inl (refl, ground arith)
fold_round-eq-ok false (err e) rest h = ground arith
fold_round-eq-ok false (ok f) rest h =
    let (gs, e, same) = before_rest-eq-ok f rest h in inr (f, gs, refl, refl, e, same)

-- the slices of a fold that is built are those of the walk
fold_at-IsSealed :
    (p : FoldPolicy) (labels : List LabelRow) (k : ℕ) (t : ℤ) {f : WalkForwardFold}
    → IsPolicy p
    → pos 0 ≤ℤ p.assessment_window_rows
    → pos 0 ≤ℤ t
    → fold_at p labels k t ≡ ok f
    → IsSealed p k
        (take (pos_part t) labels)
        (take boundary_exclusion_sessions (drop (pos_part t) labels))
        (take (pos_part p.assessment_window_rows) (drop (assessed_from t) labels))
        f
fold_at-IsSealed p labels k t {f} policy wide nonneg built =
    build_fold-IsSealed p k (take (pos_part t) labels)
      (take boundary_exclusion_sessions (drop (pos_part t) labels))
      (take (pos_part p.assessment_window_rows) (drop (assessed_from t) labels)) {f = f}
      (sym (
          same_fold p k (training_rows p t labels policy.boundary nonneg)
            (boundary_rows p t labels policy.boundary nonneg)
            (assessment_rows p t labels policy.boundary nonneg wide))
        ∙ built)

module _ (p : FoldPolicy) (labels : List LabelRow) (policy : IsPolicy p)
    (wide : pos 0 ≤ℤ p.assessment_window_rows) where
  fold_loop-Walk :
      (fuel k : ℕ) (t : ℤ) {fs : List WalkForwardFold}
      → pos 0 ≤ℤ t
      → fold_loop fuel p labels k t ≡ some (ok fs)
      → Walk p labels k t fs
  unfolding fold_loop
  fold_loop-Walk zero k t nonneg h = ground arith
  fold_loop-Walk (suc fuel) k t {fs} nonneg h =
      let stop = ltb_ℤ (remaining_of p t labels) p.minimum_final_assessment_rows in
      let left : remaining_of p t labels ≡ rows_left labels t =
        ap (λ (s : ℤ). pos (length labels) -ℤ s) (start_at p t labels policy.boundary nonneg) in
      elim (fold_round-eq-ok stop (fold_at p labels k t)
        (fold_loop fuel p labels (suc k) (t +ℤ p.step_rows)) h) [
          | inl (stopped, same) ↦ subst (Walk p labels k t) same (
              over k t
                (subst (λ (r : ℤ). r <ℤ p.minimum_final_assessment_rows) left (ground arith)))
          | inr (f, gs, goes, built, later, same) ↦
              let next =
                fold_loop-Walk fuel (suc k) (t +ℤ p.step_rows) (omega (int_laws, policy.step))
                  later in
              subst (Walk p labels k t) same (
                then_fold k t f gs
                  (subst (λ (r : ℤ). p.minimum_final_assessment_rows ≤ℤ r) left (ground arith))
                  (fold_at-IsSealed p labels k t policy wide nonneg built) next)
        ]

manifest_of-eq-ok :
    (n : ℕ) (walked : Option (Result (List WalkForwardFold))) {m : WalkForwardManifest}
    → manifest_of n walked ≡ some (ok m)
    → (walked ≡ some (ok m.folds)) × (m.supervised_row_count ≡ n)
unfolding manifest_of make_walk_forward_manifest
manifest_of-eq-ok n none h = ground arith
manifest_of-eq-ok n (some (err e)) h = ground arith
manifest_of-eq-ok n (some (ok fs)) h = (ground arith, ground arith)

walk_labels-Walk :
    (p : FoldPolicy) (labels : Result (List LabelRow)) {m : WalkForwardManifest}
    → IsPolicy p
    → pos 0 ≤ℤ p.assessment_window_rows
    → walk_labels p labels ≡ some (ok m)
    → (rows : List LabelRow) × (labels ≡ ok rows)
      × (m.supervised_row_count ≡ length rows)
      × Walk p rows 0 p.minimum_initial_training_rows m.folds
unfolding walk_labels
walk_labels-Walk p (err e) policy wide h = ground arith
walk_labels-Walk p (ok rows) {m} policy wide h =
    let start = p.minimum_initial_training_rows in
    elim (Bool-cases (ltb_ℤ (remaining_of p start rows) p.minimum_final_assessment_rows)) [
      | inl short ↦ ground arith
      | inr long ↦
          let (walked, count) =
            manifest_of-eq-ok (length rows) (fold_loop (suc (length rows)) p rows 0 start) {m = m}
              (ground arith) in
          (
            rows,
            refl,
            count,
            fold_loop-Walk p rows policy wide (suc (length rows)) 0 start
                (omega (arith, policy.initial)) walked,
          )
    ]

validated_labels-eq-ok :
    (s : Supervised) (lineage : DatasetLineage) {rows : List LabelRow}
    → validate_phase2_final_test_isolation (lineage.dataset_id ∷ []) >> validated_labels s lineage
      ≡ ok rows
    → s.labels ≡ rows
unfolding validated_labels validate_phase2_final_test_isolation
validated_labels-eq-ok s lineage h = ground arith

-- Under a policy that its validator accepts, with an assessment window that is not negative, a
-- manifest that `construct_walk_forward_manifest` returns is the expanding walk over the labels: the
-- folds are numbered from zero; fold by fold, the training is all rows before its end, which starts
-- at the least number of training rows and moves by the step, the next six rows are excluded, and
-- the rows after them are assessed, up to the window's size; the walk goes on exactly as long as
-- enough rows are left to assess; and in every fold the exit session of every training label is
-- before every prediction session of the assessment.
pub construct_walk_forward_manifest-Walk :
    (supervised : Supervised) (lineage : DatasetLineage) (p : FoldPolicy) {m : WalkForwardManifest}
    → make_fold_policy p ≡ ok p
    → pos 0 ≤ℤ p.assessment_window_rows
    → construct_walk_forward_manifest supervised lineage p ≡ some (ok m)
    → (m.supervised_row_count ≡ length supervised.labels)
      × Walk p supervised.labels 0 p.minimum_initial_training_rows m.folds
unfolding construct_walk_forward_manifest
construct_walk_forward_manifest-Walk supervised lineage p {m} valid wide h =
    let (rows, found, count, walk) =
      walk_labels-Walk p
        (validate_phase2_final_test_isolation (lineage.dataset_id ∷ [])
          >> validated_labels supervised lineage)
        (make_fold_policy-eq-ok p valid).1 wide h in
    let same = validated_labels-eq-ok supervised lineage found in
    (
      count ∙ ap length (sym same),
      subst (λ (ls : List LabelRow). Walk p ls 0 p.minimum_initial_training_rows m.folds) (sym same)
          walk,
    )
