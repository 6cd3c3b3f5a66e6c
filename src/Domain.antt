-- ===== src/Domain.antt =====
-- domain/: the data that the components exchange, and the life of an order.
pub mod Trade
pub mod Order
pub mod Slippage
pub mod Position
pub mod Wallet
pub mod Market
mod Tests
