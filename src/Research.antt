-- ===== src/Research.antt =====
-- research: the walk-forward folds (src/spy_market_agent/research/folds.py).
pub mod Windows
pub mod Isolation
pub mod Folds
pub mod Slices
pub mod Returns
pub mod Sealed
pub mod Walk
