-- ===== src/Execution/Service.antt =====
-- execution/service.py and execution/approvals.py.
pub mod Gates
pub mod Broker
pub mod Submission
pub mod Reconciliation
pub mod Quiet
pub mod Passed
pub mod Outcome
pub mod Runs
pub mod Receipt
pub mod Preview
