-- ===== src/Datasets.antt =====
-- datasets: the labels' timeline and the chronological split (src/spy_market_agent/datasets).
pub mod Spec
pub mod Timeline
pub mod Partitions
pub mod Splits
pub mod Purged
pub mod Chronology
