-- ===== src/SmartMoney.antt =====
-- smart_money/: the score and tier of a wallet, and the consensus of wallets on a token.
mod Classifier
mod Tracker
pub mod Score
pub mod Distinct
pub mod Consensus
mod Tests
unfoldable pub use Classifier.*
unfoldable pub use Tracker.*
