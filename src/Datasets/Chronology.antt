-- ===== src/Datasets/Chronology.antt =====
-- The three partitions do not leak: no label of one reaches into a later one.
use spy_market_agent.Prelude.{
  ◌≤◌, ◌<◌, ◌≡◌, subst, inl, inr, List, [], ◌∷◌, All, Result-cases, arith, ok,
}
use spy_market_agent.Prelude.Sessions.{Before, apart}
use spy_market_agent.Datasets.Spec.{ChronologicalSplitSpec, make_chronological_split_spec}
use spy_market_agent.Datasets.Timeline.{LabelRow, sessions, exit_sessions}
use spy_market_agent.Datasets.Partitions.{
  Bounds, ChronologicalPartitions, make_chronological_partitions,
}
use spy_market_agent.Datasets.Splits.{
  SupervisedDataset, build_partition, train_bounds, validation_bounds, test_bounds,
  split_supervised_dataset,
}
use spy_market_agent.Datasets.Purged.{IsInside, IsPurged, build_partition-IsPurged}

-- rows inside earlier bounds exit before those inside later ones are predicted
exits-below :
    (b : Bounds) (rows : List LabelRow)
    → All (IsInside b) rows
    → All (λ x. x ≤ b.end_session) (exit_sessions rows)
exits-below b [] h = tt
exits-below b (r ∷ rows) h = (h.0.1, exits-below b rows h.1)

sessions-above :
    (b : Bounds) (rows : List LabelRow)
    → All (IsInside b) rows
    → All (λ x. b.start_session ≤ x) (sessions rows)
sessions-above b [] h = tt
sessions-above b (r ∷ rows) h = (h.0.0, sessions-above b rows h.1)

sealed-off :
    (b c : Bounds) (early late : List LabelRow)
    → b.end_session < c.start_session
    → All (IsInside b) early
    → All (IsInside c) late
    → Before (exit_sessions early) (sessions late)
sealed-off b c early late h k l =
    apart b.end_session c.start_session (exit_sessions early) (sessions late) h
      (exits-below b early k) (sessions-above c late l)

-- three partitions, none of which looks into a later one
pub record IsSplit (dataset : SupervisedDataset) (spec : ChronologicalSplitSpec)
    (c : ChronologicalPartitions) : Type 0 where
  pub train : IsPurged dataset (train_bounds spec) c.train
  pub validation : IsPurged dataset (validation_bounds spec) c.validation
  pub test : IsPurged dataset (test_bounds spec) c.test
  pub train_validation : Before (exit_sessions c.train.labels) (sessions c.validation.labels)
  pub validation_test : Before (exit_sessions c.validation.labels) (sessions c.test.labels)
  pub train_test : Before (exit_sessions c.train.labels) (sessions c.test.labels)

spec-ordered :
    (spec : ChronologicalSplitSpec)
    → make_chronological_split_spec spec ≡ ok spec
    → (spec.train_end_session < spec.validation_start_session)
      × (spec.validation_start_session ≤ spec.validation_end_session)
      × (spec.validation_end_session < spec.test_start_session)
unfolding make_chronological_split_spec
spec-ordered spec h = (ground arith, ground arith, ground arith)

make_chronological_partitions-eq-ok :
    (c : ChronologicalPartitions) {d : ChronologicalPartitions}
    → make_chronological_partitions c ≡ ok d
    → c ≡ d
unfolding make_chronological_partitions
make_chronological_partitions-eq-ok c h = ground arith

-- Under a split specification that passes its validation, the partitions that
-- `split_supervised_dataset` returns are the rows of the dataset whose session and whose exit session
-- lie inside the bounds of train, validation and test; in each, the rows kept and the rows counted as
-- excluded are together the rows whose session lies inside the bounds; the features are those of the
-- labels, session by session; and every exit session of a partition is before every session of a
-- later one, so that no label looks into it.
pub split_supervised_dataset-IsSplit :
    (dataset : SupervisedDataset) (spec : ChronologicalSplitSpec) {c : ChronologicalPartitions}
    → make_chronological_split_spec spec ≡ ok spec
    → split_supervised_dataset dataset spec ≡ ok c
    → IsSplit dataset spec c
unfolding split_supervised_dataset
split_supervised_dataset-IsSplit dataset spec {c} valid h =
    elim (Result-cases (build_partition dataset spec "train" (train_bounds spec))) [
      | inr (x, e) ↦ ground arith
      | inl (t, et) ↦
          elim (Result-cases (build_partition dataset spec "validation" (validation_bounds spec))) [
            | inr (x, e) ↦ ground arith
            | inl (v, ev) ↦
                elim (Result-cases (build_partition dataset spec "test" (test_bounds spec))) [
                  | inr (x, e) ↦ ground arith
                  | inl (w, ew) ↦
                      let made : ChronologicalPartitions = record {
                        train = t;
                        validation = v;
                        test = w;
                        split = spec;
                      } in
                      let same = make_chronological_partitions-eq-ok made {d = c} (ground arith) in
                      let train =
                        build_partition-IsPurged dataset spec "train" (train_bounds spec) et in
                      let validation =
                        build_partition-IsPurged dataset spec "validation" (validation_bounds spec)
                          ev in
                      let test =
                        build_partition-IsPurged dataset spec "test" (test_bounds spec) ew in
                      let (a, b, d) = spec-ordered spec valid in
                      subst (IsSplit dataset spec) same (record {
                        train = train;
                        validation = validation;
                        test = test;
                        train_validation =
                            sealed-off (train_bounds spec) (validation_bounds spec) t.labels
                              v.labels a train.inside validation.inside;
                        validation_test =
                            sealed-off (validation_bounds spec) (test_bounds spec) v.labels w.labels
                              d validation.inside test.inside;
                        train_test =
                            sealed-off (train_bounds spec) (test_bounds spec) t.labels w.labels
                              (omega arith) train.inside test.inside;
                      })
                ]
          ]
    ]
