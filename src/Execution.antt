-- ===== src/Execution.antt =====
-- execution/: the policy that a provider's transaction has to meet, the executors and their prices.
mod Alt
mod Policy
mod Quoting
mod Paper
pub mod Deterministic
pub mod AltLaws
pub mod PolicyLaws
pub mod Loading
pub mod Layout
pub mod PaperLaws
pub mod Injection
mod Tests
mod FillTests
unfoldable pub use Alt.*
unfoldable pub use Policy.*
unfoldable pub use Quoting.*
unfoldable pub use Paper.*
