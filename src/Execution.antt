-- ===== src/Execution.antt =====
-- execution: the paper-order ledger and the service that submits approved orders.
pub mod Models
pub mod Ledger
pub mod Action
pub mod Validated
pub mod Repository
pub mod Quiet
pub mod Returned
pub mod Recorded
pub mod Switch
pub mod Service
