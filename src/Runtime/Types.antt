-- ===== src/Runtime/Types.antt =====
-- runtime.rs: what an exit returns, the errors inside its transaction, and the texts that it leaves.
use solana_bot.Prelude.{ℕ, Bool, Option, none, some, String, true, false, string_eq, ◌==◌}
use solana_bot.Domain.Trade.{Fill, TransitionError}
use solana_bot.Execution.{ExecutionError, Moment}
use solana_bot.Portfolio.{Portfolio, PortfolioError}
use solana_bot.Storage.{Store, StorageError, Db, caught}

-- The errors of the closures that run in a transaction.
pub data Failure : Type 0 where
  database : StorageError → Failure
  accounting : PortfolioError → Failure
  illegal : TransitionError → Failure
  no_base_mint_failure : Failure

-- The texts that the code formats.
pub data Message : Type 0 where
  store_read_failed inflight_check_failed history_read_failed reservation_failed :
      StorageError → Message
  no_position_for : String → Message
  position_not_open quantity_not_trusted already_in_flight no_base_price missing_decimals : Message
  no_base_mint conversion_failed duplicate_exit impact_limit : Message
  quote_failed execution_failed : ExecutionError → Message
  impact_exceeds : (impact limit : ℕ) → Message
  atomic_persistence_failed transactional_persistence_failed : Failure → Message
  paper_signature : String → Message

pub data ExitExecResult (D T : Type 0) : Type 0 where
  exit_confirmed : Fill D T → ExitExecResult D T
  exit_unknown : ExitExecResult D T
  exit_failed exit_skipped : Message → ExitExecResult D T

-- The text of a message, and the hexadecimal SHA-256 of the four parts of an exit's key.
pub record Formats : Type 0 where
  pub shown : Message → String
  pub exit_idempotency_key : String → ℕ → String → ℕ → String

-- The clock at the places where an exit reads it, and the fresh identifier of its order.
pub record ExitTimes (T : Type 0) : Type 0 where
  pub started : T
  pub written : T
  pub applied : T
  pub moment : Moment T
  pub order_id : String

pub record World (S J D T : Type 0) : Type 0 where
  pub executor : S
  pub store : Store J T
  pub portfolio : Portfolio D T

-- `as_deref() == as_deref()`
abbrev pub same_id : Option String → Option String → Bool
same_id none none = true
same_id (some a) (some b) = a == b
same_id _ _ = false

module _ {J T E A : Type 0} where
  -- `?` and `match` on a call of the store.
  abbrev pub within : (StorageError → E) → Db J T StorageError A → Db J T E A
  within f m s = caught f (m s)
