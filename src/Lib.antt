-- ===== src/Lib.antt =====
-- solana_bot: a model, with proofs, of the trading core of the Solana smart-money bot.
--
-- The bot follows profitable wallets. A signal about a token is scored (src/strategy/signal.rs)
-- from the wallets behind it (src/smart_money), its market and its safety; the economic gate
-- (src/economics) and the risk engine (src/risk.rs) decide whether to enter; an executor
-- (src/execution) quotes, checks and fills the swap; the order (src/domain/trade.rs) records how
-- far it came; the portfolio (src/portfolio) books the fill, is compared with the wallet on chain,
-- and tells the risk engine what is exposed; open positions are watched for an exit
-- (src/strategy/exit.rs). Past signals are split into periods for backtests
-- (src/backtest/split.rs).
--
-- Files and the code they model:
--   Prelude     what the components share: results, words, maps, and the interfaces below
--   Config      src/config/types.rs: the sections that the other components read
--   Domain      src/domain: orders with their states, fills, positions, wallets, markets
--   Economics   src/economics: break-even calculator, expected value, economic gate
--   Portfolio   src/portfolio/mod.rs: Book is entries, Unwind is exits, marks and reconciliation
--   Storage     src/storage/state.rs: tables, statements, transactions and the methods of the store
--   Runtime     src/runtime.rs: the exit pipeline from the stored position to the stored fill (Exit,
--               Settle, Execute), and the reconciliation of orders (Pending, Record, Reconciled) and
--               of positions (Holdings) with the chain
--   Chain       src/execution/reconcile.rs and reconcile_signature of src/execution/jupiter.rs
--   Collector   src/collector/wallet_monitor.rs: the lots of a wallet, first in first out
--   Monitor     src/exit_monitor.rs: one tick, with the reconciliation of stale orders
--   Risk        src/risk.rs: kill switch, limits, session counters
--   Strategy    src/strategy: exit reasons and signal evaluation
--   Execution   src/execution: Alt and Policy are policy.rs, Quoting is executor.rs, Paper and Deterministic are
--               the files of these names
--   SmartMoney  src/smart_money: the score of a wallet and the consensus of wallets
--   Backtest    src/backtest: Split is split.rs, the periods of a backtest; Costs and Ambiguity are the
--               cost assumptions and the ambiguous candles of engine.rs and data.rs
--
-- State and operations. A method with `&mut self` takes the state and returns it beside its result,
-- also where it fails. `Result` and `Option` are values, and `?` is the bind of a do block. The
-- text of an error is a constructor where the code formats it. A `HashMap` is an association list
-- of which only lookups and updates by key are observed. Locks and `async` are left out: a call
-- runs as a whole.
--
-- Interfaces. `Decimal` (the crate rust_decimal) is a record of operations; the laws a theorem
-- needs of them are named in its statement (`IsOrdered`, `IsSigned`), so that it holds whatever the
-- rounding; `IsChronological` says of instants that they are totally ordered. Overflow and division
-- by zero, where the crate panics, have no result of their own. `Chrono` gives instants, the
-- distance between two of them in nanoseconds, and whole minutes and seconds of a distance.
-- Prelude/Fixed.antt has an instance of both, at which the tests run. Public keys, base64 and the
-- nodes of the chain are the interfaces `Sdk` and `Rpc` of Execution/Alt.antt; a node's answer
-- depends on a state that every call may change. The clock and fresh identifiers are arguments.
--
-- The database. A store has its tables, those to which an open transaction would return, and a
-- function that says which statement of the connection fails and how: a theorem over all stores
-- covers every failure. A statement that fails leaves an open transaction as it is; only a COMMIT that
-- fails may also be rolled back by the database, as the store says. (SQLite may roll back at another
-- statement too, for a full disk, an input or output error, missing memory or an interrupt; that is not
-- modelled.) What a restart finds are the tables without the open transaction. The JSON texts of the values are the interfaces `Serde` and `Notes`.
--
-- The runtime. `World` is the executor, the store and the portfolio in memory. A closure that runs in
-- a transaction returns, beside its result, the order that it captures by reference. `Formats`
-- stands for the texts of messages and for the SHA-256 in the key of an exit.
--
-- Machine integers are natural numbers with the bounds of Prelude/Words.antt: saturating and
-- checked operations are written out, and arithmetic without checks wraps as in a release build. One
-- loop takes fuel, that of `record_sell` in Collector/Lots.antt: as many rounds as there are lots,
-- which Collector/Fuel.antt shows to be enough. Every other loop is over a list or a number.
--
-- Not modelled: loading and validating the configuration, the opening of the database file, the process
-- and its loops (src/main.rs, and the entries of src/runtime.rs), the HTTP and RPC clients
-- (src/data, src/execution/jupiter.rs), the collectors (src/collector) but
-- for the lots,
-- the historical data sets (src/historical), the simulation of signals and the statistics of a backtest (src/backtest),
-- and the reports; they are input and output around the components above or have a state that only
-- they use.
pub mod Prelude
pub mod Config
pub mod Economics
pub mod Domain
pub mod Portfolio
pub mod Risk
pub mod Strategy
pub mod Execution
pub mod SmartMoney
pub mod Backtest
pub mod Storage
pub mod Runtime
pub mod Chain
pub mod Monitor
pub mod Collector
