-- ===== src/Storage.antt =====
-- storage/state.rs: the tables of the database, its statements and transactions, and the methods of
-- `StateStore`.
mod Sql
mod Orders
mod Records
pub mod Atomic
pub mod Unique
pub mod Throughout
pub mod Keys
mod Tests
unfoldable pub use Sql.*
unfoldable pub use Orders.*
unfoldable pub use Records.*
