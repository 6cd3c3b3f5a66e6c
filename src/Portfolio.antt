-- ===== src/Portfolio.antt =====
-- portfolio/mod.rs: position accounting. A method returns its result and the portfolio after it.
mod Book
mod Unwind
pub mod Entry
pub mod Exit
pub mod Chain
pub mod Units
pub mod Quantity
pub mod HighWater
mod Tests
unfoldable pub use Book.*
unfoldable pub use Unwind.*
