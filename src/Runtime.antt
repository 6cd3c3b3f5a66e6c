-- ===== src/Runtime.antt =====
-- runtime.rs: exits, and reconciliation with the chain.
mod Types
mod Exit
mod Settle
mod Execute
mod Steps
mod Plan
pub mod Guard
mod Booked
mod Traced
mod Early
mod Record
mod Reconciled
mod Pending
mod Holdings
pub mod Fates
pub mod Settled
pub mod Counts
pub mod Confirmed
pub mod Sample
mod Tests
mod PendingTests
unfoldable pub use Types.*
unfoldable pub use Exit.*
unfoldable pub use Execute.*
unfoldable pub use Record.*
unfoldable pub use Reconciled.*
unfoldable pub use Pending.*
unfoldable pub use Holdings.*
