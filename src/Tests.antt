-- ===== src/Tests.antt =====
-- Concrete inputs on which the code is run and the theorems are applied.
mod RiskRules
mod Scenario
mod Executed
mod PaperExecution
mod Previews
mod Backtests
mod Walks
mod Signals
mod Splits
