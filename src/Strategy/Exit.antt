-- ===== src/Strategy/Exit.antt =====
-- strategy/exit.rs.
use solana_bot.Prelude.{Bool, true, Option, none, some, String, if◌then◌else◌}
use solana_bot.Prelude.Int.{leb_ℤ}
use solana_bot.Prelude.Decimal.{Decimal, ◌⊖◌, ◌⊗◌, ◌⊘◌, of_nat, leq, lss, negate}
use solana_bot.Prelude.Chrono.{Chrono, since}
use solana_bot.Config.{StrategyConfig}
use solana_bot.Domain.Position.{Position}

pub data ExitReason : Type 0 where
  stop_loss take_profit trailing_stop time_limit : ExitReason
  liquidity_deterioration signal_invalidated censored : ExitReason

unfoldable pub as_str : ExitReason → String
as_str stop_loss = "stop_loss"
as_str take_profit = "take_profit"
as_str trailing_stop = "trailing_stop"
as_str time_limit = "time_limit"
as_str liquidity_deterioration = "liquidity_deterioration"
as_str signal_invalidated = "signal_invalidated"
as_str censored = "censored"

-- Missing liquidity evidence is unhealthy.
abbrev pub illiquid : {D : Type 0} ⦃d : Decimal D⦄ → Option D → D → Bool
illiquid none min_liquidity = true
illiquid (some liq) min_liquidity = lss liq min_liquidity

module _ {D T : Type 0} ⦃d : Decimal D⦄ ⦃c : Chrono T⦄ where
  -- The return in percent, and the price below which the trailing stop fires.
  abbrev pub return_pct : Position D T → D → D
  return_pct p price = (price ⊖ p.entry_price_usd) ⊘ p.entry_price_usd ⊗ of_nat 100

  abbrev pub trail : Position D T → StrategyConfig D → D
  trail p k = p.high_water_price_usd ⊗ (of_nat 1 ⊖ k.trailing_stop_pct ⊘ of_nat 100)

  abbrev pub expired : Position D T → T → StrategyConfig D → Bool
  expired p now k = leb_ℤ k.max_holding_minutes (c.num_minutes (since now p.entry_time))

  unfoldable pub exit_reason :
      Position D T → D → Option D → D → Bool → T → StrategyConfig D → Option ExitReason
  exit_reason p price liquidity min_liquidity invalidated now k =
      if illiquid liquidity min_liquidity
      then some liquidity_deterioration
      else if invalidated
      then some signal_invalidated
      else if leq p.entry_price_usd (of_nat 0)
      then some stop_loss
      else if leq (return_pct p price) (negate k.stop_loss_pct)
      then some stop_loss
      else if leq k.take_profit_pct (return_pct p price)
      then some take_profit
      else if leq price (trail p k)
      then some trailing_stop
      else if expired p now k
      then some time_limit
      else none
