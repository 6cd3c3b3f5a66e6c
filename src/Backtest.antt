-- ===== src/Backtest.antt =====
-- backtest/split.rs and the costs of backtest/engine.rs.
mod Split
pub mod Ambiguity
pub mod Costs
pub mod CostLaws
pub mod SplitLaws
mod Tests
unfoldable pub use Split.*
