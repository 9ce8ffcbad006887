-- ===== src/Backtest.antt =====
-- backtesting: the costs of an order, the fill, and the engine's walk over the signals
-- (src/spy_market_agent/backtesting).
pub mod Models
pub mod Costs
pub mod Engine
pub mod Inversion
pub mod Steps
pub mod Account
pub mod Records
pub mod Affordable
pub mod Estimates
pub mod Agreement
pub mod Entrance
pub mod Liveness
