-- ===== src/Monitor.antt =====
-- exit_monitor.rs: the task that watches open positions for an exit.
mod Stale
mod Watch
mod Tick
pub mod Laws
mod Tests
