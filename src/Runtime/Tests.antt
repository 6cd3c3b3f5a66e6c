-- ===== src/Runtime/Tests.antt =====
-- Runs of runtime.rs, and the theorems at those inputs.
use solana_bot.Prelude.{map, ℕ, ◌≡◌, refl, ◌⊎◌, Option, none, some, [], ◌∷◌, nat_beq, if◌then◌else◌}
use solana_bot.Prelude.Int.{◌-ℤ◌, ◌*ℤ◌, ◌/ℤ◌}
use solana_bot.Prelude.Fixed.{Fixed, Instant, fixed_decimal, instant_chrono}
use solana_bot.Domain.Trade.{
  confirmed, transition, can_transition, realised_slippage_bps, slippage_against,
}
use solana_bot.Domain.Position.{trusted_remaining, quantity_is_trusted}
use solana_bot.Execution.{units, fee_usd}
use solana_bot.Portfolio.{load, apply_exit, exit_position, sell_down}
use solana_bot.Storage.{
  StorageError, io, key_eq, position_key, statement, query, begin, commit, rollback,
  run_in_transaction, check_order, reserve_order, update_order, incomplete_orders, orders, by_time,
  positions,
}
use solana_bot.Runtime.Types.{exit_confirmed}
use solana_bot.Runtime.Exit.{
  choose, route_of, complete_plan, plan_routed, plan_chosen, plan_exit, finalize_fill, ExitPlan,
}
use solana_bot.Runtime.Settle.{
  confirm, load_portfolio, settle_booked, settle_sold, settle_loaded, settle_exit, run_tracing,
}
use solana_bot.Runtime.Execute.{
  exit_order, min_output, after_execute, after_quote, after_reserve, execute_exit_order,
}
use solana_bot.Runtime.Plan.{IsFounded}
use solana_bot.Runtime.Guard.{IsUntouched, IsReserved, execute_exit_order_guarded}
use solana_bot.Runtime.Confirmed.{IsStored, execute_exit_order_confirmed}
use solana_bot.Runtime.Sample.{
  docs, plain_formats, config, holding, sale, counting, times, world, never, position_doc,
}

sold_out :
    (execute_exit_order counting config "m" "stop_loss" times (world never)).0 ≡ exit_confirmed sale
unfolding execute_exit_order after_reserve after_quote after_execute min_output exit_order
    run_tracing settle_exit settle_loaded settle_sold settle_booked load_portfolio confirm plan_exit
    plan_chosen plan_routed complete_plan route_of choose finalize_fill run_in_transaction begin
    commit rollback statement query check_order reserve_order update_order incomplete_orders orders
    by_time positions load apply_exit exit_position sell_down units fee_usd trusted_remaining
    quantity_is_trusted transition can_transition realised_slippage_bps slippage_against ◌-ℤ◌ ◌*ℤ◌
    ◌/ℤ◌
sold_out = refl

execute_exit_order_guarded_example :
    IsUntouched
      (world never)
      (execute_exit_order counting config "m" "stop_loss" times (world never)).1
    ⊎ IsReserved counting config "m" "stop_loss" times (world never)
execute_exit_order_guarded_example =
    execute_exit_order_guarded counting config "m" "stop_loss" times (world never)

execute_exit_order_confirmed_example :
    (plan : ExitPlan Fixed Instant) × IsFounded "m" (world never).store plan
    × IsStored "m" "e" plan sale
        (execute_exit_order counting config "m" "stop_loss" times (world never)).1.store
execute_exit_order_confirmed_example =
    execute_exit_order_confirmed counting config "m" "stop_loss" times (world never) sale refl
      sold_out

-- Statement 9 is the update of the order inside the transaction.
abbrev ninth : ℕ → Option StorageError
ninth n = if nat_beq n 9 then some io else none

-- The order is stored as confirmed, although the position is as it was.
stranded :
    let s = (execute_exit_order counting config "m" "stop_loss" times (world ninth)).1.store in
    (map (λ r. r.state) s.tables.orders ≡ confirmed ∷ [])
    × (s.tables.fills ≡ [])
    × (s.tables.kv ≡ (position_key "m", position_doc holding) ∷ [])
unfolding execute_exit_order after_reserve after_quote after_execute min_output exit_order
    run_tracing settle_exit settle_loaded settle_sold settle_booked load_portfolio confirm plan_exit
    plan_chosen plan_routed complete_plan route_of choose finalize_fill run_in_transaction begin
    commit rollback statement query check_order reserve_order update_order incomplete_orders orders
    by_time positions load apply_exit exit_position sell_down units fee_usd trusted_remaining
    quantity_is_trusted transition can_transition realised_slippage_bps slippage_against ◌-ℤ◌ ◌*ℤ◌
    ◌/ℤ◌
stranded = (refl, refl, refl)
