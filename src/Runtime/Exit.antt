-- ===== src/Runtime/Exit.antt =====
-- runtime.rs: `execute_exit_order`. Its reading part gives a plan or the early return; the order is
-- then reserved, quoted, submitted, and its fill is settled in one transaction.
use solana_bot.Prelude.{
  ok_or, reject_if, ◌>>=◌, ◌>>◌, ℕ, suc, ◌%◌, ◌^◌, Bool, not, ◌&&◌, Option, none, some, List, [],
  ◌∷◌, String, Result, ok, err, if◌then◌else◌, any, unwrap_or, string_eq, ◌==◌,
}
use solana_bot.Prelude.Decimal.{Decimal, ◌⊗◌}
use solana_bot.Prelude.Chrono.{Chrono}
use solana_bot.Domain.Trade.{Fill, OrderRecord, exit, kind_beq, realised_slippage_bps}
use solana_bot.Domain.Position.{Position, is_open, trusted_remaining}
use solana_bot.Execution.{units, fee_usd}
use solana_bot.Storage.{Db, key_eq, and_then}
use solana_bot.Storage.{Serde, incomplete_orders, orders}
use solana_bot.Storage.{positions}
use solana_bot.Runtime.Types.{
  ExitExecResult, exit_failed, exit_skipped, same_id, within, store_read_failed,
  inflight_check_failed, history_read_failed, no_position_for, position_not_open,
  quantity_not_trusted, already_in_flight, no_base_price, missing_decimals, no_base_mint,
  conversion_failed,
}

-- What a sale needs of its position.
pub record ExitRoute (D : Type 0) : Type 0 where
  pub base_price : D
  pub base_decimals : ℕ
  pub token_decimals : ℕ
  pub base_mint : String

pub record ExitPlan (D T : Type 0) : Type 0 where
  pub held : Position D T
  pub remaining : ℕ
  pub route : ExitRoute D
  pub attempt : ℕ
  pub mark_value : D

-- The outcome of `units`, of which the error is dropped.
abbrev pub ok_only : {E A : Type 0} → Result E A → Option A
ok_only (ok a) = some a
ok_only (err e) = none

module _ {D T : Type 0} where
  -- `stored.iter().find(|p| p.mint == mint)`
  abbrev pub find_mint : String → List (Position D T) → Option (Position D T)
  find_mint mint [] = none
  find_mint mint (p ∷ ps) = if p.mint == mint then some p else find_mint mint ps

  abbrev pub is_exit_of : Option String → OrderRecord D T → Bool
  is_exit_of id o = kind_beq o.kind exit && same_id o.position_id id

  abbrev pub count_if : (OrderRecord D T → Bool) → List (OrderRecord D T) → ℕ
  count_if p [] = 0
  count_if p (o ∷ os) = if p o then suc (count_if p os) else count_if p os

  -- `position.position_id.as_deref().unwrap_or(mint)`
  abbrev pub id_or_mint : Position D T → String → String
  id_or_mint p mint = unwrap_or p.position_id mint

  -- `finalize_fill`
  unfoldable pub finalize_fill : ⦃d : Decimal D⦄ → Fill D T → Option D → Fill D T
  finalize_fill fill sol_price_usd = record fill {
    slippage_bps = realised_slippage_bps fill;
    fees_usd = fee_usd fill.fee_lamports sol_price_usd;
  }

module _ {D T : Type 0} ⦃d : Decimal D⦄ where
  -- From the stored positions: the open one of the mint, and its trusted quantity.
  unfoldable pub choose :
      String → List (Position D T) → Result (ExitExecResult D T) (Position D T × ℕ)
  choose mint stored = do
    p ← ok_or (find_mint mint stored) (exit_skipped (no_position_for mint))
    reject_if (not (is_open p)) (exit_skipped position_not_open)
    remaining ← ok_or (trusted_remaining p) (exit_skipped quantity_not_trusted)
    ok (p, remaining)

  -- From the incomplete orders: no exit is in flight, and the position has what a sale needs.
  unfoldable pub route_of :
      Position D T → List (OrderRecord D T) → Result (ExitExecResult D T) (ExitRoute D)
  route_of p incomplete = do
    reject_if (any (is_exit_of p.position_id) incomplete) (exit_skipped already_in_flight)
    base_price ← ok_or p.base_entry_price_usd (exit_skipped no_base_price)
    base_decimals ← ok_or p.base_mint_decimals (exit_skipped missing_decimals)
    token_decimals ← ok_or p.token_decimals (exit_skipped missing_decimals)
    base_mint ← ok_or p.base_mint (exit_skipped no_base_mint)
    ok (record {
      base_price = base_price;
      base_decimals = base_decimals;
      token_decimals = token_decimals;
      base_mint = base_mint;
    })

  -- From all orders: how many exits were tried, and the value of the quantity.
  unfoldable pub complete_plan :
      String
      → Position D T × ℕ
      → ExitRoute D
      → List (OrderRecord D T)
      → Result (ExitExecResult D T) (ExitPlan D T)
  complete_plan mint (p, remaining) route history = do
    quantity ←
        ok_or (ok_only (units remaining route.token_decimals)) (exit_skipped conversion_failed)
    ok (record {
      held = p;
      remaining = remaining;
      route = route;
      attempt = count_if (is_exit_of (some (id_or_mint p mint))) history % 2 ^ 32;
      mark_value = quantity ⊗ route.base_price;
    })

module _ {J D T : Type 0} ⦃serde : Serde J D T⦄ ⦃d : Decimal D⦄ ⦃c : Chrono T⦄ where
  unfoldable pub plan_routed :
      String → Position D T × ℕ → ExitRoute D → Db J T (ExitExecResult D T) (ExitPlan D T)
  plan_routed mint chosen route s =
      and_then (within (λ e. exit_failed (history_read_failed e)) (orders {D = D}) s)
        (λ history t. (complete_plan mint chosen route history, t))

  unfoldable pub plan_chosen :
      String → Position D T × ℕ → Db J T (ExitExecResult D T) (ExitPlan D T)
  plan_chosen mint chosen s =
      and_then (within (λ e. exit_failed (inflight_check_failed e)) (incomplete_orders {D = D}) s)
        (λ incomplete t. and_then (route_of chosen.0 incomplete, t) (plan_routed mint chosen))

  -- Everything before the order is made.
  unfoldable pub plan_exit : String → Db J T (ExitExecResult D T) (ExitPlan D T)
  plan_exit mint s =
      and_then (within (λ e. exit_skipped (store_read_failed e)) (positions {D = D}) s)
        (λ stored t. and_then (choose mint stored, t) (plan_chosen mint))
