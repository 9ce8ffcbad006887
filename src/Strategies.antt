-- ===== src/Strategies.antt =====
-- strategies: the long-or-cash signals (src/spy_market_agent/strategies).
pub mod Models
pub mod Policy
pub mod Signals
pub mod Causal
