-- ===== src/Research/Sealed.antt =====
-- The folds of research/folds.py do not leak: no label of the training reaches the assessment.
use spy_market_agent.Prelude.{
  ℕ, ◌≡◌, refl, sym, subst, inl, inr, Option-cases, Result-cases, true, List, length, map, arith,
  ok, String,
}
use spy_market_agent.Prelude.Int.{ℤ, pos, ◌≤ℤ◌}
use spy_market_agent.Prelude.Sessions.{
  is_increasing, first, last, is_before, first-bound, last-bound, Before, apart,
}
use spy_market_agent.Research.Windows.{
  FoldPolicy, SessionWindow, make_session_window, WalkForwardFold, make_walk_forward_fold,
}
use spy_market_agent.Research.Folds.{LabelRow, session_window, window_of, check_classes, build_fold}

pub make_session_window-eq-ok :
    (w : SessionWindow) {v : SessionWindow}
    → make_session_window w ≡ ok v
    → (w ≡ v)
      × (is_increasing w.prediction_sessions ≡ true)
      × (is_increasing w.exit_sessions ≡ true)
unfolding make_session_window
make_session_window-eq-ok w h = (ground arith, ground arith, ground arith)

session_window-eq-ok :
    (rows : List LabelRow) (empty_code short_code : String) (minimum : ℤ) {w : SessionWindow}
    → session_window rows empty_code short_code minimum ≡ ok w
    → (make_session_window (window_of rows) ≡ ok w) × (minimum ≤ℤ pos (length rows))
unfolding session_window
session_window-eq-ok rows empty_code short_code minimum h = (ground arith, ground arith)

pub make_walk_forward_fold-eq-ok :
    (f : WalkForwardFold) {g : WalkForwardFold}
    → make_walk_forward_fold f ≡ ok g
    → (f ≡ g)
      × (length f.boundary_excluded_sessions ≡ 6)
      × (is_before (last f.training.exit_sessions) (first f.assessment.prediction_sessions) ≡ true)
      × (is_before (last f.training.prediction_sessions) (first f.boundary_excluded_sessions)
          ≡ true)
unfolding make_walk_forward_fold
make_walk_forward_fold-eq-ok f h = (ground arith, ground arith, ground arith, ground arith)

-- two increasing lists, the one's last before the other's first
ends-apart :
    (early late : List ℕ)
    → is_increasing early ≡ true
    → is_increasing late ≡ true
    → is_before (last early) (first late) ≡ true
    → Before early late
ends-apart early late h k e = elim (Option-cases (last early)) [
  | inl no_last ↦ ground arith
  | inr (b, eb) ↦ elim (Option-cases (first late)) [
    | inl no_first ↦ ground arith
    | inr (a, ea) ↦
        apart b a early late (ground arith) (last-bound early b h eb) (first-bound late a k ea)
  ]
]

-- the fold number `k` over its three slices of the labels
pub record IsSealed (p : FoldPolicy) (k : ℕ) (train boundary assess : List LabelRow)
    (f : WalkForwardFold) : Type 0 where
  pub index : f.fold_index ≡ k
  pub training : f.training ≡ window_of train
  pub excluded : f.boundary_excluded_sessions ≡ map (λ (r : LabelRow). r.session) boundary
  pub assessment : f.assessment ≡ window_of assess
  pub six : length boundary ≡ 6
  pub trained : p.minimum_initial_training_rows ≤ℤ pos (length train)
  pub assessed : p.minimum_final_assessment_rows ≤ℤ pos (length assess)
  pub sealed :
      Before
        (map (λ (r : LabelRow). r.exit_session) train)
        (map (λ (r : LabelRow). r.session) assess)

pub build_fold-IsSealed :
    (p : FoldPolicy) (k : ℕ) (train boundary assess : List LabelRow) {f : WalkForwardFold}
    → build_fold p k train boundary assess ≡ ok f
    → IsSealed p k train boundary assess f
unfolding build_fold
build_fold-IsSealed p k train boundary assess {f} h =
    elim (Result-cases (
      session_window train "empty_training_window" "training_window_too_short"
        p.minimum_initial_training_rows)) [
          | inr (x, e) ↦ ground arith
          | inl (t, et) ↦
              elim (Result-cases (
                session_window assess "empty_assessment_window" "assessment_window_too_short"
                  p.minimum_final_assessment_rows)) [
                    | inr (x, e) ↦ ground arith
                    | inl (a, ea) ↦ elim (Result-cases (check_classes p t a)) [
                      | inr (x, e) ↦ ground arith
                      | inl (u, ec) ↦
                          let (wt, lt) =
                            session_window-eq-ok train _ _ p.minimum_initial_training_rows {w = t}
                              et in
                          let (wa, la) =
                            session_window-eq-ok assess _ _ p.minimum_final_assessment_rows {w = a}
                              ea in
                          let (st, _, exits) = make_session_window-eq-ok (window_of train) wt in
                          let (sa, predictions, _) =
                            make_session_window-eq-ok (window_of assess) wa in
                          let g : WalkForwardFold = record {
                            fold_index = k;
                            training = t;
                            boundary_excluded_sessions = map (λ (r : LabelRow). r.session) boundary;
                            assessment = a;
                          } in
                          let made : make_walk_forward_fold g ≡ ok f = ground arith in
                          let (same, six, before, _) = make_walk_forward_fold-eq-ok g made in
                          subst (IsSealed p k train boundary assess) same (record {
                            index = refl;
                            training = sym st;
                            excluded = refl;
                            assessment = sym sa;
                            six = ground arith;
                            trained = lt;
                            assessed = la;
                            sealed =
                                ends-apart (map (λ (r : LabelRow). r.exit_session) train)
                                  (map (λ (r : LabelRow). r.session) assess) exits predictions
                                  (subst
                                    (λ (w : SessionWindow).
                                      is_before (last w.exit_sessions)
                                        (first (window_of assess).prediction_sessions)
                                      ≡ true)
                                    (sym st)
                                    (subst
                                      (λ (w : SessionWindow).
                                        is_before (last t.exit_sessions)
                                          (first w.prediction_sessions)
                                        ≡ true)
                                      (sym sa) before));
                          })
                    ]
                  ]
        ]
