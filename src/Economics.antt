-- ===== src/Economics.antt =====
-- economics/: the break-even calculator, the cost model, the expected value of a trade and the
-- economic gate.
pub mod Viability
pub mod CostModel
pub mod Laws
mod Tests
