-- ===== src/Strategy/ExitLaws.antt =====
-- When a position is kept, and which reason is given when several hold.
use solana_bot.Prelude.{◌≡◌, ◌↔◌, Bool, true, false, Option, none, some, arith, ◌⊎◌}
use solana_bot.Prelude.Int.{◌≤ℤ◌, ltb_ℤ}
use solana_bot.Prelude.Decimal.{Decimal, ◌⊖◌, ◌⊗◌, ◌⊘◌, of_nat, ◌≼◌, ◌≺◌, negate}
use solana_bot.Prelude.Chrono.{Chrono, since}
use solana_bot.Config.{StrategyConfig}
use solana_bot.Domain.Position.{Position}
use solana_bot.Strategy.Exit.{
  ExitReason, stop_loss, take_profit, trailing_stop, time_limit, liquidity_deterioration,
  signal_invalidated, censored, exit_reason,
}

module _ {D : Type 0} ⦃d : Decimal D⦄ where
  -- The liquidity is known and reaches the minimum.
  abbrev pub IsLiquid : Option D → D → Type 0
  IsLiquid none min_liquidity = ⊥
  IsLiquid (some x) min_liquidity = min_liquidity ≼ x

  -- The liquidity is missing or below the minimum.
  abbrev pub IsIlliquid : Option D → D → Type 0
  IsIlliquid none min_liquidity = Unit
  IsIlliquid (some x) min_liquidity = x ≺ min_liquidity

module _ {D T : Type 0} ⦃d : Decimal D⦄ where
  -- The change of the price in percent of the entry price.
  abbrev pub gain_pct : Position D T → D → D
  gain_pct p price = (price ⊖ p.entry_price_usd) ⊘ p.entry_price_usd ⊗ of_nat 100

  -- The highest price less the trailing share of it.
  abbrev pub trailing_price : Position D T → StrategyConfig D → D
  trailing_price p k = p.high_water_price_usd ⊗ (of_nat 1 ⊖ k.trailing_stop_pct ⊘ of_nat 100)

module _ {D T : Type 0} ⦃d : Decimal D⦄ ⦃c : Chrono T⦄ where
  -- Everything that keeps a position open.
  pub record IsKept (p : Position D T) (price : D) (liquidity : Option D) (min_liquidity : D)
      (invalidated : Bool) (now : T) (k : StrategyConfig D) : Type 0 where
    pub liquid : IsLiquid liquidity min_liquidity
    pub valid : invalidated ≡ false
    pub priced : of_nat 0 ≺ p.entry_price_usd
    pub above_stop : negate k.stop_loss_pct ≺ gain_pct p price
    pub below_target : gain_pct p price ≺ k.take_profit_pct
    pub above_trail : trailing_price p k ≺ price
    pub young : ltb_ℤ (c.num_minutes (since now p.entry_time)) k.max_holding_minutes ≡ true

  -- A position is kept exactly when its liquidity is known and sufficient, its signal stands, its
  -- entry price is positive, the return lies strictly between the stop and the target, the price is
  -- above the trailing stop and the holding time is not over.
  pub exit_reason-none_iff :
      (p : Position D T) (price : D) (liquidity : Option D) (min_liquidity : D) (invalidated : Bool)
      (now : T) (k : StrategyConfig D)
      → (exit_reason p price liquidity min_liquidity invalidated now k ≡ none)
        ↔ IsKept p price liquidity min_liquidity invalidated now k
  unfolding exit_reason
  exit_reason-none_iff p price none min_liquidity invalidated now k =
      (λ e. ground arith, λ kept. absurd kept.liquid)
  exit_reason-none_iff p price (some x) min_liquidity invalidated now k =
      (λ e. ground arith, λ kept. ground arith)

  -- What a reason says of the position: its own condition, and that of every earlier check the
  -- opposite.
  abbrev pub Justifies :
      Position D T → D → Option D → D → Bool → T → StrategyConfig D → ExitReason → Type 0
  Justifies p price liquidity m invalidated now k liquidity_deterioration = IsIlliquid liquidity m
  Justifies p price liquidity m invalidated now k signal_invalidated =
      IsLiquid liquidity m × (invalidated ≡ true)
  Justifies p price liquidity m invalidated now k stop_loss =
      IsLiquid liquidity m
      × (invalidated ≡ false)
      × ((p.entry_price_usd ≼ of_nat 0) ⊎ (gain_pct p price ≼ negate k.stop_loss_pct))
  Justifies p price liquidity m invalidated now k take_profit =
      IsLiquid liquidity m
      × (invalidated ≡ false)
      × (of_nat 0 ≺ p.entry_price_usd)
      × (negate k.stop_loss_pct ≺ gain_pct p price)
      × (k.take_profit_pct ≼ gain_pct p price)
  Justifies p price liquidity m invalidated now k trailing_stop =
      IsLiquid liquidity m
      × (invalidated ≡ false)
      × (of_nat 0 ≺ p.entry_price_usd)
      × (negate k.stop_loss_pct ≺ gain_pct p price)
      × (gain_pct p price ≺ k.take_profit_pct)
      × (price ≼ trailing_price p k)
  Justifies p price liquidity m invalidated now k time_limit =
      IsLiquid liquidity m
      × (invalidated ≡ false)
      × (of_nat 0 ≺ p.entry_price_usd)
      × (negate k.stop_loss_pct ≺ gain_pct p price)
      × (gain_pct p price ≺ k.take_profit_pct)
      × (trailing_price p k ≺ price)
      × (k.max_holding_minutes ≤ℤ c.num_minutes (since now p.entry_time))
  Justifies p price liquidity m invalidated now k censored = ⊥

  -- A reason is given exactly when its own condition holds of the position and that of no earlier
  -- check does, in the order of liquidity, signal, stop, target, trailing stop and holding time; the
  -- backtest's own reason is never given.
  pub exit_reason-Justifies :
      (p : Position D T) (price : D) (liquidity : Option D) (min_liquidity : D) (invalidated : Bool)
      (now : T) (k : StrategyConfig D) (r : ExitReason)
      → (exit_reason p price liquidity min_liquidity invalidated now k ≡ some r)
        ↔ Justifies p price liquidity min_liquidity invalidated now k r
  unfolding exit_reason
  exit_reason-Justifies p price none m invalidated now k r = (λ e. ground arith, λ j. ground arith)
  exit_reason-Justifies p price (some x) m invalidated now k r =
      (λ e. ground arith, λ j. ground arith)
