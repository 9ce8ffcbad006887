-- ===== src/Risk.antt =====
-- risk: the long-only SPY rules (src/spy_market_agent/risk).
pub mod Models
pub mod Orders
pub mod Rules
pub mod Decisions
pub mod Inversion
pub mod Approval
pub mod Rejection
pub mod Returns
