-- ===== src/Collector.antt =====
-- collector/wallet_monitor.rs: what is known of a wallet from its swaps.
mod Lots
mod Wallet
pub mod Fuel
mod Tests
