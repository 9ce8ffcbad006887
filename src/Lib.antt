-- ===== src/Lib.antt =====
-- spy-market-agent: research on one instrument, backtests of its signals, and the execution of
-- approved orders on a paper account. This library models the part that decides about orders, fills
-- them in a backtest and sends them to a broker, and the part that divides the data for research:
-- the chronological split, the walk-forward folds, the signals of the strategy, the backtest engine
-- with its costs, the risk rules, and the ledger of paper orders with the service between it and the
-- broker. Paths are from the repository's root.
--
-- How the parts interact. An instruction is made from an order that the risk rules approved, and a
-- person approves the instruction. `submit_approved_order` checks the settings, the broker's
-- account, the clock, the approval, the kill switch and the market state, evaluates the risk rules
-- again on the account as it is, reserves an attempt in the ledger, asks the broker for an order
-- with this client id, checks clock, approval and kill switch again, sends the order, and records
-- the receipt or the failure. `reconcile_by_client_order_id` settles attempts of unknown outcome.
-- The split and the folds divide the labelled rows before any model is fitted. The strategy makes a
-- target position of each probability of the final test, to be reached in the next market session.
-- The backtest engine puts an order to the same risk rules for each signal that changes the
-- position, and fills what they approve.
--
-- Which file models what:
-- - Prelude: Booleans, native numbers, signed integers, lists, and `Result`, whose errors are the
--   exception classes with their codes. Messages are left out.
-- - Decimal: Python's decimal arithmetic in the default context, 28 digits, half to even, as exact
--   computation on a coefficient and a scale. It is the language's library; the signs of zeros,
--   exponent limits and special values are left out.
-- - Text: src/spy_market_agent/run_ids.py, execution/identifiers.py (`require_sha256`) and the text
--   checks of the execution package, on code points.
-- - Risk: src/spy_market_agent/risk/models.py in Risk/Models and Risk/Orders (the validated
--   records), risk/rules.py in Risk/Rules (`evaluate_order_risk`, each branch); the proofs are in
--   Risk/Decisions, Inversion, Approval, Returns and Rejection.
-- - Backtest: src/spy_market_agent/backtesting/models.py (its checks, the configuration and the fill)
--   in Backtest/Models, costs.py in Backtest/Costs, and the loop of engine.py in Backtest/Engine,
--   from `_propose_order` to the row of the portfolio. Steps, Account, Records, Estimates,
--   Affordable, Agreement, Entrance and Liveness have the theorems, Inversion what the checks
--   establish.
-- - Datasets: src/spy_market_agent/datasets/models.py (`validate_label_timeline`) in
--   Datasets/Timeline, and splits.py: the specification in Spec, the partitions in Partitions, and
--   `split_supervised_dataset` in Splits; Purged and Chronology have the theorems.
-- - Strategies: src/spy_market_agent/strategies/models.py (the set of signals and its validation) in
--   Strategies/Models, and signal_policy.py in Strategies/Policy; Signals and Causal have the
--   theorems.
-- - Research: src/spy_market_agent/research/models.py (policy, window, fold and manifest) in
--   Research/Windows, `validate_phase2_final_test_isolation` of leakage.py in Research/Isolation, and
--   folds.py in Research/Folds; the theorems are in Slices, Returns, Sealed and Walk.
-- - Execution/Models and Execution/Validated: src/spy_market_agent/execution/models.py.
-- - Execution/Ledger: the tables of persistence/schema.py and the transactions of
--   execution/repository.py, as functions from tables to tables (Rows, Receipts); Lookup, Evolution
--   and Transactions have their laws. A row is held decoded.
-- - Execution/Action: how a call runs. The world has the ledger, the broker's state, the orders
--   sent, and the outages that the openings of the database will meet, given in advance: that the
--   file cannot be opened, that its schema is refused, or that SQLite fails before the commit.
-- - Execution/Repository: the methods of SQLitePaperExecutionRepository; Execution/Quiet, Returned,
--   Recorded and Switch: what they guarantee.
-- - Execution/Service: execution/approvals.py and the `_assert_` methods (Gates), the broker of
--   execution/protocols.py (Broker), submit_approved_order with its except clauses (Submission),
--   reconcile_by_client_order_id (Reconciliation) and preview_submission (Preview) of
--   execution/service.py; Quiet, Passed, Outcome, Runs and Receipt have their theorems.
--
-- Parameters: the broker is a record of functions on a state of any type, each of which may raise
-- anything, so no theorem assumes anything of it; the date in New York of a UTC time, and the
-- fingerprint of an instruction's content, are functions.
--
-- Bounds: the loops of the source are over finite lists and are recursions on them, but for two. The
-- count of a coefficient's decimal digits runs on the coefficient as fuel, which is enough since each
-- round divides it by ten. The `while True` of `construct_walk_forward_manifest` runs on the number
-- of rows and one more, which is proved to be enough. Integers are Python's, unbounded.
--
-- Not modelled: the listing and counting methods of the repository, two processes at work on the
-- ledger between the steps of one submission, type checks of dynamic values, the Alpaca adapter; the
-- data frames, floats and metrics of the backtest and its audit replay; the revalidation of
-- evaluations and market data; the values of features and returns; the identifiers and lineage of
-- partitions and folds; and the other research, data, dashboard and reporting packages.
pub mod Prelude
pub mod Decimal
pub mod Text
pub mod Risk
pub mod Backtest
pub mod Datasets
pub mod Research
pub mod Strategies
pub mod Execution
mod Tests
