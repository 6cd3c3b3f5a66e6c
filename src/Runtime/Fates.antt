-- ===== src/Runtime/Fates.antt =====
-- runtime.rs: what `reconcile_pending_orders` may do with one order, and how a summary counts it.
use solana_bot.Prelude.{
  ℕ, ◌+◌, ◌≡◌, ◌≢◌, ◌<◌, ◌⊎◌, true, some, List, [], ◌∷◌, String, Result, ok, err, arith, u32_max,
}
use solana_bot.Prelude.Decimal.{Decimal}
use solana_bot.Prelude.Chrono.{Chrono}
use solana_bot.Config.{Config}
use solana_bot.Domain.Trade.{OrderRecord, OrderState, failed, expired}
use solana_bot.Storage.{Store, StorageError, Serde, update_order}
use solana_bot.Chain.{ChainSwapOutcome, Node, ChainTexts, reconcile_signature}
use solana_bot.Runtime.Types.{Formats}
use solana_bot.Runtime.Execute.{advanced, with_error}
use solana_bot.Runtime.Reconciled.{record_reconciled_fill}
use solana_bot.Runtime.Pending.{
  ReconcileSummary, one_confirmed, one_failed, one_expired, one_unresolved, Site, Operator,
  older_than,
}

pub data Fate : Type 0 where
  is_confirmed is_failed is_expired is_unresolved : Fate

-- One where the fates are the same.
abbrev pub hit : Fate → Fate → ℕ
hit is_confirmed is_confirmed = 1
hit is_failed is_failed = 1
hit is_expired is_expired = 1
hit is_unresolved is_unresolved = 1
hit _ _ = 0

abbrev pub count : Fate → List Fate → ℕ
count f [] = 0
count f (g ∷ gs) = hit f g + count f gs

-- A summary counts one more order, of the given fate, and no other.
pub record IsOneMore (before after : ReconcileSummary) (f : Fate) : Type 0 where
  pub confirmed : after.confirmed_orders ≡ before.confirmed_orders + hit is_confirmed f
  pub failures : after.failed_orders ≡ before.failed_orders + hit is_failed f
  pub expiries : after.expired_orders ≡ before.expired_orders + hit is_expired f
  pub unresolved : after.unresolved_orders ≡ before.unresolved_orders + hit is_unresolved f

-- The orders that a summary accounts for.
abbrev pub accounted_for : ReconcileSummary → ℕ
accounted_for x = x.confirmed_orders + x.failed_orders + x.expired_orders + x.unresolved_orders

pub hit-total :
    (f : Fate) → hit is_confirmed f + hit is_failed f + hit is_expired f + hit is_unresolved f ≡ 1
hit-total f = ground arith

pub one_more-total :
    (x y : ReconcileSummary) (f : Fate) → IsOneMore x y f → accounted_for y ≡ accounted_for x + 1
one_more-total x y f one =
    omega (arith, hit-total f, one.confirmed, one.failures, one.expiries, one.unresolved)

module _ (x : ReconcileSummary) (small : accounted_for x < u32_max) where
  pub one_confirmed-IsOneMore : IsOneMore x (one_confirmed x) is_confirmed
  one_confirmed-IsOneMore = ground arith

  pub one_failed-IsOneMore : IsOneMore x (one_failed x) is_failed
  one_failed-IsOneMore = ground arith

  pub one_expired-IsOneMore : IsOneMore x (one_expired x) is_expired
  one_expired-IsOneMore = ground arith

  pub one_unresolved-IsOneMore : IsOneMore x (one_unresolved x) is_unresolved
  one_unresolved-IsOneMore = ground arith

module _ {N D T : Type 0} ⦃node : Node N⦄ ⦃texts : ChainTexts⦄ (op : Operator T) where
  -- The node reports the swap of a live order as executed.
  pub record IsExecuted (order : OrderRecord D T) (n : N) (sig : String)
      (outcome : ChainSwapOutcome) : Type 0 where
    pub owner : String
    pub input : String
    pub output : String
    pub expected : ℕ
    pub is_live : op.live ≡ true
    pub signed : order.signature ≡ some sig
    pub owned : op.owner ≡ some owner
    pub input_known : order.input_mint ≡ some input
    pub output_known : order.output_mint ≡ some output
    pub amount_known : order.input_amount_atomic ≡ some expected
    pub answered : (reconcile_signature n sig input output owner expected).0 ≡ ok (some outcome)

module _ {J D T : Type 0} ⦃serde : Serde J D T⦄ (op : Operator T) where
  -- The order is stored in its next state, with some text as its error.
  abbrev pub IsMarked : OrderRecord D T → OrderState → Store J T → Store J T → Type 0
  IsMarked order next s s' =
      (text : String) × (update_order (advanced (with_error order text) next) op.times.written s
        ≡ (ok tt, s'))

module _ {N J D T : Type 0} ⦃serde : Serde J D T⦄ ⦃d : Decimal D⦄ ⦃c : Chrono T⦄ ⦃node : Node N⦄
    ⦃texts : ChainTexts⦄ ⦃formats : Formats⦄ (config : Config D) (op : Operator T) where
  -- An order is confirmed where its swap is executed and its fill is recorded, failed or expired where
  -- it is stored so, and unresolved where nothing is written or its fill is not recorded.
  abbrev pub IsFate : OrderRecord D T → Site N J T → Fate → Site N J T → Type 0
  IsFate order site is_confirmed after =
      (sig : String) × (outcome : ChainSwapOutcome) × IsExecuted op order site.node sig outcome
      × (record_reconciled_fill config.economics.sol_price_usd order outcome sig op.times site.store
          ≡ (ok true, after.store))
  IsFate order site is_failed after = IsMarked op order failed site.store after.store
  IsFate order site is_expired after =
      IsMarked op order expired site.store after.store
      × (older_than op.now order.created_at config.rpc.unknown_after_secs ≡ true)
  IsFate order site is_unresolved after =
      (after.store ≡ site.store)
      ⊎ ((sig : String) × (outcome : ChainSwapOutcome) × IsExecuted op order site.node sig outcome
          × ((record_reconciled_fill config.economics.sol_price_usd order outcome sig op.times
                site.store).0
              ≢ ok true))

  -- A step that succeeds counts the order by its fate.
  abbrev pub IsCounted :
      OrderRecord D T
      → Site N J T
      → ReconcileSummary
      → Result StorageError ReconcileSummary × Site N J T
      → Type 0
  IsCounted order site before (ok after, site') =
      (f : Fate) × IsOneMore before after f × IsFate order site f site'
  IsCounted order site before (err e, site') = Unit

  -- The orders meet their fates one after the other.
  abbrev pub IsRun : List (OrderRecord D T) → Site N J T → List Fate → Site N J T → Type 0
  IsRun [] site [] after = after ≡ site
  IsRun (o ∷ os) site (f ∷ fs) after =
      (mid : Site N J T) × IsFate o site f mid × IsRun os mid fs after
  IsRun _ _ _ _ = ⊥
