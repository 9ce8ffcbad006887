-- ===== src/Strategies/Signals.antt =====
-- What a set of signals that passed its validation is.
use spy_market_agent.Prelude.{
  ℕ, suc, String, ◌≡◌, refl, ap, subst, ◌≤◌, ◌<◌, inl, inr, true, false, List, [], ◌∷◌, map, Option,
  none, some, All, arith, ok, Result-cases,
}
use spy_market_agent.Prelude.Sessions.{
  first, last, is_increasing, sorted-increasing, first-bound, last-bound, All-weaken,
  All-weaken_above, is_same-some,
}
use spy_market_agent.Decimal
use spy_market_agent.Decimal.{Decimal, zero_decimal, one_decimal}
use spy_market_agent.Strategies.Models.{
  SignalRow, StrategySignalSet, make_strategy_signal_set, market_index,
  validate_strictly_increasing, check_adjacent, check_sessions, check_targets, check_bounds,
  check_split, target_of,
}

-- A signal is acted on in the market session that follows its own.
pub record IsNext (market : List ℕ) (r : SignalRow) : Type 0 where
  pub place : ℕ
  pub signal : market_index r.signal_session market ≡ some place
  pub execution : market_index r.execution_session market ≡ some (suc place)
  pub later : r.signal_session < r.execution_session

-- long exactly when the probability reaches the threshold
pub record IsTarget (threshold : Decimal) (r : SignalRow) : Type 0 where
  pub at_least : Decimal.lt r.probability_positive zero_decimal ≡ false
  pub at_most : Decimal.lt one_decimal r.probability_positive ≡ false
  pub target : r.target_position ≡ target_of threshold r.probability_positive

pub record IsSignalSet (s : StrategySignalSet) : Type 0 where
  pub market : is_increasing s.market_sessions ≡ true
  pub in_order : is_increasing (map (λ (r : SignalRow). r.signal_session) s.rows) ≡ true
  pub following : All (IsNext s.market_sessions) s.rows
  pub targets : All (IsTarget s.strategy_threshold) s.rows
  pub from_start :
      All (λ n. s.split.test_start_session ≤ n) (map (λ (r : SignalRow). r.signal_session) s.rows)
  pub to_end :
      All (λ n. n ≤ s.split.test_end_session) (map (λ (r : SignalRow). r.execution_session) s.rows)

check_adjacent-eq-ok :
    (a b : Option ℕ) {u : Unit {0}}
    → check_adjacent a b ≡ ok u
    → (i : ℕ) × (a ≡ some i) × (b ≡ some (suc i))
unfolding check_adjacent
check_adjacent-eq-ok none b h = ground arith
check_adjacent-eq-ok (some i) none h = ground arith
check_adjacent-eq-ok (some i) (some j) h = (i, refl, ap some (ground arith))

check_sessions-All :
    (market : List ℕ) (rows : List SignalRow) {u : Unit {0}}
    → check_sessions market rows ≡ ok u
    → All (IsNext market) rows
unfolding check_sessions
check_sessions-All market [] h = tt
check_sessions-All market (r ∷ rows) {u} h =
    elim (Result-cases (
      check_adjacent (market_index r.signal_session market)
        (market_index r.execution_session market))) [
          | inr (x, e) ↦ ground arith
          | inl (v, e) ↦
              let (i, s, t) =
                check_adjacent-eq-ok (market_index r.signal_session market)
                  (market_index r.execution_session market) {u = v} e in
              (
                record { place = i; signal = s; execution = t; later = ground arith },
                check_sessions-All market rows {u = u} (ground arith),
              )
        ]

check_targets-All :
    (threshold : Decimal) (rows : List SignalRow) {u : Unit {0}}
    → check_targets threshold rows ≡ ok u
    → All (IsTarget threshold) rows
unfolding check_targets
check_targets-All threshold [] h = tt
check_targets-All threshold (r ∷ rows) {u} h = (
  record { at_least = ground arith; at_most = ground arith; target = ground arith },
  check_targets-All threshold rows {u = u} (ground arith),
)

validate_strictly_increasing-eq-ok :
    (values : List ℕ) (a b : String) {u : Unit {0}}
    → validate_strictly_increasing values a b ≡ ok u
    → is_increasing values ≡ true
unfolding validate_strictly_increasing
validate_strictly_increasing-eq-ok values a b h =
    sorted-increasing values (ground arith) (ground arith)

-- the sessions of the rows, in order and between the ends that the set names
record IsBounded (s : StrategySignalSet) : Type 0 where
  signals : is_increasing (map (λ (r : SignalRow). r.signal_session) s.rows) ≡ true
  executions : is_increasing (map (λ (r : SignalRow). r.execution_session) s.rows) ≡ true
  starts : first (map (λ (r : SignalRow). r.signal_session) s.rows) ≡ some s.first_signal_session
  stops : last (map (λ (r : SignalRow). r.execution_session) s.rows) ≡ some s.last_execution_session

check_bounds-IsBounded :
    (s : StrategySignalSet) {u : Unit {0}} → check_bounds s ≡ ok u → IsBounded s
unfolding check_bounds
check_bounds-IsBounded s h =
    let signals = map (λ (r : SignalRow). r.signal_session) s.rows in
    let executions = map (λ (r : SignalRow). r.execution_session) s.rows in
    elim (Result-cases (
      validate_strictly_increasing signals "duplicate_signal_sessions"
        "unordered_signal_sessions")) [
          | inr (x, e) ↦ ground arith
          | inl (v, e) ↦
              elim (Result-cases (
                validate_strictly_increasing executions "duplicate_execution_sessions"
                  "unordered_execution_sessions")) [
                    | inr (x, k) ↦ ground arith
                    | inl (w, k) ↦ record {
                      signals = validate_strictly_increasing-eq-ok signals _ _ {u = v} e;
                      executions = validate_strictly_increasing-eq-ok executions _ _ {u = w} k;
                      starts = is_same-some (first signals) s.first_signal_session (ground arith);
                      stops =
                          is_same-some (last executions) s.last_execution_session (ground arith);
                    }
                  ]
        ]

check_split-eq-ok :
    (s : StrategySignalSet) {u : Unit {0}}
    → check_split s ≡ ok u
    → (s.split.test_start_session ≤ s.first_signal_session)
      × (s.last_execution_session ≤ s.split.test_end_session)
unfolding check_split
check_split-eq-ok s h = (ground arith, ground arith)

-- the checks of the set, each of which returned
record PassesChecks (s : StrategySignalSet) : Type 0 where
  market :
      validate_strictly_increasing s.market_sessions "duplicate_market_sessions"
        "unordered_market_sessions"
      ≡ ok tt
  bounds : check_bounds s ≡ ok tt
  sessions : check_sessions s.market_sessions s.rows ≡ ok tt
  split : check_split s ≡ ok tt
  targets : check_targets s.strategy_threshold s.rows ≡ ok tt

make_strategy_signal_set-eq-ok :
    (version : String) (s : StrategySignalSet) {t : StrategySignalSet}
    → make_strategy_signal_set version s ≡ ok t
    → (s ≡ t) × PassesChecks s
unfolding make_strategy_signal_set
make_strategy_signal_set-eq-ok version s h = (
  ground arith,
  record {
    market = ground arith;
    bounds = ground arith;
    sessions = ground arith;
    split = ground arith;
    targets = ground arith;
  },
)

-- A set of signals that passes its validation has its signals in strictly increasing sessions; each
-- is executed in the market session that immediately follows its own, and no earlier; signals start
-- no earlier and executions end no later than the test split; and each target is long exactly when
-- its probability, which is between zero and one, reaches the threshold.
pub make_strategy_signal_set-IsSignalSet :
    (version : String) (s : StrategySignalSet) {t : StrategySignalSet}
    → make_strategy_signal_set version s ≡ ok t
    → IsSignalSet t
make_strategy_signal_set-IsSignalSet version s h =
    let (same, c) = make_strategy_signal_set-eq-ok version s h in
    let b = check_bounds-IsBounded s c.bounds in
    let (start, end) = check_split-eq-ok s c.split in
    let signals = map (λ (r : SignalRow). r.signal_session) s.rows in
    let executions = map (λ (r : SignalRow). r.execution_session) s.rows in
    subst IsSignalSet same (record {
      market = validate_strictly_increasing-eq-ok s.market_sessions _ _ c.market;
      in_order = b.signals;
      following = check_sessions-All s.market_sessions s.rows c.sessions;
      targets = check_targets-All s.strategy_threshold s.rows c.targets;
      from_start =
          All-weaken s.split.test_start_session s.first_signal_session signals start
            (first-bound signals s.first_signal_session b.signals b.starts);
      to_end =
          All-weaken_above s.last_execution_session s.split.test_end_session executions end
            (last-bound executions s.last_execution_session b.executions b.stops);
    })

pub make_strategy_signal_set-kept :
    (version : String) (s : StrategySignalSet) {t : StrategySignalSet}
    → make_strategy_signal_set version s ≡ ok t
    → s ≡ t
make_strategy_signal_set-kept version s h = (make_strategy_signal_set-eq-ok version s h).0
