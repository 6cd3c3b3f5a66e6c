-- ===== src/Runtime/Pending.antt =====
-- runtime.rs: `entries_blocked_by` and `reconcile_pending_orders`, which settle what a previous
-- process left.
use solana_bot.Prelude.{
  ℕ, Bool, true, false, Option, none, some, List, [], ◌∷◌, String, Result, ok, err, if◌then◌else◌,
  wrapping_add, u32_max,
}
use solana_bot.Prelude.Int.{pos, ◌*ℤ◌, ltb_ℤ, ℤ}
use solana_bot.Prelude.Decimal.{Decimal}
use solana_bot.Prelude.Chrono.{Chrono, since}
use solana_bot.Config.{Config}
use solana_bot.Domain.Trade.{OrderRecord, OrderState, failed, expired}
use solana_bot.Execution.{ExecutionError, transaction}
use solana_bot.Storage.{Store, StorageError, Db, Serde, incomplete_orders, update_order}
use solana_bot.Chain.{ChainSwapOutcome, Node, ChainTexts, reconcile_signature}
use solana_bot.Runtime.Types.{Failure, Formats, paper_signature}
use solana_bot.Runtime.Execute.{advanced, with_error}
use solana_bot.Runtime.Record.{RecordTimes}
use solana_bot.Runtime.Reconciled.{record_reconciled_fill}

pub record ReconcileSummary : Type 0 where
  pub confirmed_orders : ℕ
  pub failed_orders : ℕ
  pub expired_orders : ℕ
  pub unresolved_orders : ℕ
  pub positions_reconciled : ℕ
  pub positions_adjusted : ℕ
  pub positions_closed : ℕ
  pub onchain_errors : ℕ

-- `ReconcileSummary::default`
abbrev pub no_summary : ReconcileSummary
no_summary = record {
  confirmed_orders = 0;
  failed_orders = 0;
  expired_orders = 0;
  unresolved_orders = 0;
  positions_reconciled = 0;
  positions_adjusted = 0;
  positions_closed = 0;
  onchain_errors = 0;
}

abbrev pub bump : ℕ → ℕ
bump n = wrapping_add u32_max n 1

abbrev pub one_confirmed : ReconcileSummary → ReconcileSummary
one_confirmed x = record x { confirmed_orders = bump x.confirmed_orders }

abbrev pub one_failed : ReconcileSummary → ReconcileSummary
one_failed x = record x { failed_orders = bump x.failed_orders }

abbrev pub one_expired : ReconcileSummary → ReconcileSummary
one_expired x = record x { expired_orders = bump x.expired_orders }

abbrev pub one_unresolved : ReconcileSummary → ReconcileSummary
one_unresolved x = record x { unresolved_orders = bump x.unresolved_orders }

-- The store and the node behind the calls.
pub record Site (N J T : Type 0) : Type 0 where
  pub node : N
  pub store : Store J T

-- What is read of the executor, and the clock.
pub record Operator (T : Type 0) : Type 0 where
  pub live : Bool
  pub owner : Option String
  pub now : T
  pub times : RecordTimes T

abbrev pub any_left :
    {D T : Type 0} → Result StorageError (List (OrderRecord D T)) → Result StorageError Bool
any_left (ok []) = ok false
any_left (ok (o ∷ os)) = ok true
any_left (err e) = err e

module _ {J T : Type 0} (D : Type 0) ⦃serde : Serde J D T⦄ where
  unfoldable pub entries_blocked_by : Db J T StorageError Bool
  entries_blocked_by s = (any_left (incomplete_orders {D = D} s).0, (incomplete_orders {D = D} s).1)

-- `age > Duration::seconds(n)`
abbrev pub older_than : {T : Type 0} ⦃c : Chrono T⦄ → T → T → ℤ → Bool
older_than now then_at secs = ltb_ℤ (pos 1_000_000_000 *ℤ secs) (since now then_at)

module _ {N J T : Type 0} where
  abbrev pub updated_as :
      {A : Type 0}
      → A
      → Result StorageError (Unit {0}) × Store J T
      → Site N J T
      → Result StorageError A × Site N J T
  updated_as x (ok _, s) site = (ok x, record site { store = s })
  updated_as x (err e, s) site = (err e, record site { store = s })

module _ {N J D T : Type 0} ⦃serde : Serde J D T⦄ where
  -- The error, the step and the update of an order, with the summary where the update worked.
  unfoldable pub mark_order :
      OrderRecord D T
      → String
      → OrderState
      → T
      → ReconcileSummary
      → Site N J T
      → Result StorageError ReconcileSummary × Site N J T
  mark_order order text next written summary site =
      updated_as summary (update_order (advanced (with_error order text) next) written site.store)
        site

module _ {N J D T : Type 0} ⦃serde : Serde J D T⦄ ⦃d : Decimal D⦄ ⦃c : Chrono T⦄ ⦃node : Node N⦄
    ⦃texts : ChainTexts⦄ ⦃formats : Formats⦄ (config : Config D) (op : Operator T) where
  abbrev pub counted_fill :
      ReconcileSummary
      → Result Failure Bool × Store J T
      → Site N J T
      → Result StorageError ReconcileSummary × Site N J T
  counted_fill summary (ok true, s) site = (ok (one_confirmed summary), record site { store = s })
  counted_fill summary (ok false, s) site = (ok (one_unresolved summary), record site { store = s })
  counted_fill summary (err e, s) site = (ok (one_unresolved summary), record site { store = s })

  -- What the chain says of a signature.
  unfoldable pub after_signature :
      OrderRecord D T
      → String
      → ReconcileSummary
      → Result ExecutionError (Option ChainSwapOutcome)
      → Site N J T
      → Result StorageError ReconcileSummary × Site N J T
  after_signature order sig summary (ok (some outcome)) site =
      counted_fill summary
        (record_reconciled_fill config.economics.sol_price_usd order outcome sig op.times
          site.store)
        site
  after_signature order sig summary (ok none) site =
      if older_than op.now order.created_at config.rpc.unknown_after_secs
      then mark_order order "signature never appeared on-chain within the expiry window" expired
          op.times.written (one_expired summary) site
      else (ok (one_unresolved summary), site)
  after_signature order sig summary (err (transaction detail)) site =
      mark_order order detail failed op.times.written (one_failed summary) site
  after_signature order sig summary (err e) site = (ok (one_unresolved summary), site)

  -- A live order with a signature: its owner, its route and its amount.
  abbrev pub settle_route :
      OrderRecord D T
      → String
      → ReconcileSummary
      → Site N J T
      → Option String
      → Option String
      → Option String
      → Option ℕ
      → Result StorageError ReconcileSummary × Site N J T
  settle_route order sig summary site (some owner) (some input) (some output) (some expected) =
      let answer = reconcile_signature site.node sig input output owner expected in
      after_signature order sig summary answer.0 (record site { node = answer.1 })
  settle_route order sig summary site _ _ _ _ = (ok (one_unresolved summary), site)

  -- The match on the signature and on whether the executor is live.
  abbrev pub settle_match :
      OrderRecord D T
      → ReconcileSummary
      → Site N J T
      → Option String
      → Bool
      → Result StorageError ReconcileSummary × Site N J T
  settle_match order summary site none false =
      mark_order order "paper order never completed execution" failed op.times.written
        (one_failed summary) site
  settle_match order summary site none true =
      if older_than op.now order.created_at config.rpc.unknown_after_secs
      then mark_order order "order expired without ever being submitted" failed op.times.written
          (one_failed summary) site
      else (ok (one_unresolved summary), site)
  settle_match order summary site (some sig) false =
      mark_order order (formats.shown (paper_signature sig)) failed op.times.written
        (one_failed summary) site
  settle_match order summary site (some sig) true =
      settle_route order sig summary site op.owner order.input_mint order.output_mint
        order.input_amount_atomic

  unfoldable pub settle_pending :
      OrderRecord D T
      → ReconcileSummary
      → Site N J T
      → Result StorageError ReconcileSummary × Site N J T
  settle_pending order summary site = settle_match order summary site order.signature op.live

  -- The loop; an error of an update ends it.
  unfoldable pub settle_all :
      List (OrderRecord D T)
      → Result StorageError ReconcileSummary × Site N J T
      → Result StorageError ReconcileSummary × Site N J T
  settle_all [] (r, site) = (r, site)
  settle_all (order ∷ rest) (err e, site) = (err e, site)
  settle_all (order ∷ rest) (ok summary, site) = settle_all rest (settle_pending order summary site)

  abbrev pub after_read :
      Result StorageError (List (OrderRecord D T)) × Store J T
      → Site N J T
      → Result StorageError ReconcileSummary × Site N J T
  after_read (err e, s) site = (err e, record site { store = s })
  after_read (ok pending_orders, s) site =
      settle_all pending_orders (ok no_summary, record site { store = s })

  unfoldable pub reconcile_pending_orders :
      Site N J T → Result StorageError ReconcileSummary × Site N J T
  reconcile_pending_orders site = after_read (incomplete_orders {D = D} site.store) site
