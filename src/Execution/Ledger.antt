-- ===== src/Execution/Ledger.antt =====
-- execution/repository.py: the tables, and the transactions on them.
pub mod Rows
pub mod Receipts
pub mod Lookup
pub mod Evolution
pub mod Transactions
