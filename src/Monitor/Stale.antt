-- ===== src/Monitor/Stale.antt =====
-- exit_monitor.rs: `reconcile_stale_orders`. Errors of the store and of the accounting are logged.
use solana_bot.Prelude.{
  not, Option, none, some, List, [], ◌∷◌, String, Result, ok, err, if◌then◌else◌,
}
use solana_bot.Prelude.Decimal.{Decimal}
use solana_bot.Prelude.Chrono.{Chrono}
use solana_bot.Config.{Config}
use solana_bot.Domain.Trade.{OrderRecord, OrderState, failed, expired}
use solana_bot.Execution.{ExecutionError, transaction}
use solana_bot.Storage.{Store, StorageError, Serde, incomplete_orders, update_order}
use solana_bot.Chain.{ChainSwapOutcome, Node, ChainTexts, reconcile_signature}
use solana_bot.Runtime.{Site, Operator, older_than, record_reconciled_fill, advanced, with_error}

module _ {N J D T : Type 0} ⦃serde : Serde J D T⦄ where
  unfoldable pub mark_stale : OrderRecord D T → String → OrderState → T → Site N J T → Site N J T
  mark_stale order text next written site = record site {
    store = (update_order (advanced (with_error order text) next) written site.store).1;
  }

module _ {N J D T : Type 0} ⦃serde : Serde J D T⦄ ⦃d : Decimal D⦄ ⦃c : Chrono T⦄ ⦃node : Node N⦄
    ⦃texts : ChainTexts⦄ (config : Config D) (op : Operator T) where
  unfoldable pub stale_signature :
      OrderRecord D T
      → String
      → Result ExecutionError (Option ChainSwapOutcome)
      → Site N J T
      → Site N J T
  stale_signature order sig (ok (some outcome)) site = record site {
    store =
        (record_reconciled_fill config.economics.sol_price_usd order outcome sig op.times
          site.store).1;
  }
  stale_signature order sig (ok none) site =
      if older_than op.now order.created_at config.rpc.unknown_after_secs
      then mark_stale order "signature never appeared (exit monitor)" expired op.times.written site
      else site
  stale_signature order sig (err (transaction detail)) site =
      mark_stale order detail failed op.times.written site
  stale_signature order sig (err e) site = site

  unfoldable pub stale_signed : OrderRecord D T → String → Site N J T → Site N J T
  stale_signed order sig site = elim (op.owner) [
    | none ↦ site
    | some owner ↦ elim (order.input_mint) [
      | none ↦ site
      | some input_mint ↦ elim (order.output_mint) [
        | none ↦ site
        | some output_mint ↦ elim (order.input_amount_atomic) [
          | none ↦ site
          | some expected ↦
              let answer =
                reconcile_signature site.node sig input_mint output_mint owner expected in
              stale_signature order sig answer.0 (record site { node = answer.1 })
        ]
      ]
    ]
  ]

  unfoldable pub settle_stale : OrderRecord D T → Site N J T → Site N J T
  settle_stale order site = elim (order.signature) [
    | none ↦
        if older_than op.now order.created_at config.rpc.unknown_after_secs
        then mark_stale order "expired without submission (exit monitor)" failed op.times.written
            site
        else site
    | some sig ↦
        if not op.live
        then mark_stale order "paper signature cannot be reconciled" failed op.times.written site
        else stale_signed order sig site
  ]

  unfoldable pub settle_stale_all : List (OrderRecord D T) → Site N J T → Site N J T
  settle_stale_all [] site = site
  settle_stale_all (order ∷ rest) site = settle_stale_all rest (settle_stale order site)

  abbrev pub stale_read :
      Result StorageError (List (OrderRecord D T)) × Store J T → Site N J T → Site N J T
  stale_read (err e, s) site = record site { store = s }
  stale_read (ok stale, s) site = settle_stale_all stale (record site { store = s })

  unfoldable pub reconcile_stale_orders : Site N J T → Site N J T
  reconcile_stale_orders site = stale_read (incomplete_orders {D = D} site.store) site
