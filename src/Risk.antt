-- ===== src/Risk.antt =====
-- risk.rs: the kill switch and the risk engine, which every new position must pass.
pub mod Engine
pub mod Entry
pub mod Session
pub mod Latch
mod Tests
