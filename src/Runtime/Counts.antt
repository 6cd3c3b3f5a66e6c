-- ===== src/Runtime/Counts.antt =====
-- runtime.rs: the summary of `reconcile_pending_orders` accounts for every order by its fate.
use solana_bot.Prelude.{◌+◌, ◌≡◌, List, length}
use solana_bot.Prelude.Decimal.{Decimal}
use solana_bot.Prelude.Chrono.{Chrono}
use solana_bot.Config.{Config}
use solana_bot.Domain.Trade.{OrderRecord}
use solana_bot.Storage.{Serde}
use solana_bot.Chain.{Node, ChainTexts}
use solana_bot.Runtime.Types.{Formats}
use solana_bot.Runtime.Pending.{ReconcileSummary, Site, Operator}
use solana_bot.Runtime.Fates.{
  Fate, is_confirmed, is_failed, is_expired, is_unresolved, count, accounted_for, IsRun,
}

module _ {N J D T : Type 0} ⦃serde : Serde J D T⦄ ⦃d : Decimal D⦄ ⦃c : Chrono T⦄ ⦃node : Node N⦄
    ⦃texts : ChainTexts⦄ ⦃formats : Formats⦄ (config : Config D) (op : Operator T) where
  -- A summary counts the orders of a run by their fates, beside those of an earlier summary.
  pub record IsTally (before after : ReconcileSummary) (orders : List (OrderRecord D T))
      (site end : Site N J T) : Type 0 where
    pub fates : List Fate
    pub run : IsRun config op orders site fates end
    pub confirmed : after.confirmed_orders ≡ before.confirmed_orders + count is_confirmed fates
    pub failures : after.failed_orders ≡ before.failed_orders + count is_failed fates
    pub expiries : after.expired_orders ≡ before.expired_orders + count is_expired fates
    pub unresolved : after.unresolved_orders ≡ before.unresolved_orders + count is_unresolved fates
    pub all : accounted_for after ≡ accounted_for before + length orders
