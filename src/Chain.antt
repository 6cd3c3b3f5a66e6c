-- ===== src/Chain.antt =====
-- execution/reconcile.rs and `reconcile_signature`: the outcome of a transaction as the chain has it.
mod Json
mod Outcome
mod Swap
mod Signature
pub mod Held
pub mod Lamports
pub mod Verified
mod Tests
unfoldable pub use Json.*
unfoldable pub use Outcome.*
unfoldable pub use Swap.*
unfoldable pub use Signature.*
