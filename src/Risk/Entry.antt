-- ===== src/Risk/Entry.antt =====
-- What an entry has to satisfy to pass the risk engine and the economic gate of risk.rs.
use solana_bot.Prelude.{
  ℕ, ◌≤◌, ◌<◌, ◌≡◌, refl, ◌↔◌, ◌⊎◌, false, arith, Option, none, some, Result, ok, err,
}
use solana_bot.Prelude.Decimal.{Decimal, ◌⊕◌, ◌⊖◌, ◌⊗◌, ◌⊘◌, of_nat, ◌≼◌, ◌≺◌}
use solana_bot.Prelude.Chrono.{Chrono, before}
use solana_bot.Economics.Viability.{BreakEvenResult, ViabilityError}
use solana_bot.Economics.CostModel.{
  CostModel, EconomicGate, EconomicGateDecision, allowed, rejected, calculate, check,
}
use solana_bot.Economics.Laws.{check_allowed_iff}
use solana_bot.Risk.Engine.{
  KillSwitch, RiskEngine, authorize_entry, authorize, cooling, daily_loss_reached,
}

module _ {D : Type 0} ⦃d : Decimal D⦄ where
  -- The loss of a day in percent of the equity that it began with.
  abbrev pub loss_pct : D → D → D
  loss_pct start equity = (start ⊖ equity) ⊘ start ⊗ of_nat 100

module _ {T : Type 0} ⦃c : Chrono T⦄ where
  -- No cooldown is set, or its end is not after the present.
  abbrev pub IsOver : Option T → T → Type 0
  IsOver none now = Unit
  IsOver (some until) now = before now until ≡ false

  cooling-IsOver : (o : Option T) (now : T) → (cooling o now ≡ false) ↔ IsOver o now
  cooling-IsOver none now = (λ free. tt, λ free. refl)
  cooling-IsOver (some until) now = (λ free. free, λ free. free)

module _ {D T : Type 0} ⦃d : Decimal D⦄ ⦃c : Chrono T⦄ where
  -- The limits on a new position. The one on slippage also holds the price impact.
  pub record IsAllowed (g : RiskEngine D T) (position liquidity : D) (slippage impact : ℕ) (now : T)
      : Type 0 where
    pub unlatched : g.kill_switch.tripped ≡ false
    pub size_pos : of_nat 0 ≺ position
    pub liquidity_pos : of_nat 0 ≺ liquidity
    pub slots : g.state.open_positions < g.config.max_concurrent_positions
    pub trades : g.state.trades_today < g.config.max_trades_per_day
    pub equity_cap :
        position ≼ g.state.equity_usd ⊗ g.config.max_position_percent_of_equity ⊘ of_nat 100
    pub liquidity_cap :
        position ≼ liquidity ⊗ g.config.max_position_percent_of_liquidity ⊘ of_nat 100
    pub exposure_cap : (g.state.total_exposure_usd ⊕ position) ≺ g.config.max_live_capital_usd
    pub slippage_cap : slippage ≤ g.config.max_slippage_bps
    pub impact_cap : impact ≤ g.config.max_slippage_bps
    pub not_cooling : IsOver g.state.cooldown_until now
    pub no_daily_loss :
        (g.state.day_start_equity_usd ≼ of_nat 0)
        ⊎ (loss_pct g.state.day_start_equity_usd g.state.equity_usd
            ≺ g.config.max_daily_loss_percent)

  daily_loss-small :
      (g : RiskEngine D T)
      → (daily_loss_reached g ≡ false) ↔ (
          (g.state.day_start_equity_usd ≼ of_nat 0)
          ⊎ (loss_pct g.state.day_start_equity_usd g.state.equity_usd
              ≺ g.config.max_daily_loss_percent))
  daily_loss-small g = (λ calm. ground arith, λ small. ground arith)

  authorize-calm :
      (g : RiskEngine D T) (position liquidity : D) (slippage impact : ℕ) (now : T)
      → authorize g position liquidity slippage impact now ≡ ok tt
      → (cooling g.state.cooldown_until now ≡ false) × (daily_loss_reached g ≡ false)
  unfolding authorize
  authorize-calm g position liquidity slippage impact now e = (ground arith, ground arith)

  pub authorize-IsAllowed :
      (g : RiskEngine D T) (position liquidity : D) (slippage impact : ℕ) (now : T)
      → authorize g position liquidity slippage impact now ≡ ok tt
      → IsAllowed g position liquidity slippage impact now
  unfolding authorize
  authorize-IsAllowed g position liquidity slippage impact now e =
      let (free, calm) = authorize-calm g position liquidity slippage impact now e in
      record {
        unlatched = ground arith;
        size_pos = ground arith;
        liquidity_pos = ground arith;
        slots = ground arith;
        trades = ground arith;
        equity_cap = ground arith;
        liquidity_cap = ground arith;
        exposure_cap = ground arith;
        slippage_cap = ground arith;
        impact_cap = ground arith;
        not_cooling = (cooling-IsOver g.state.cooldown_until now).0 free;
        no_daily_loss = (daily_loss-small g).0 calm;
      }

  IsAllowed-authorize :
      (g : RiskEngine D T) (position liquidity : D) (slippage impact : ℕ) (now : T)
      → IsAllowed g position liquidity slippage impact now
      → authorize g position liquidity slippage impact now ≡ ok tt
  unfolding authorize
  IsAllowed-authorize g position liquidity slippage impact now a =
      let free = (cooling-IsOver g.state.cooldown_until now).1 a.not_cooling in
      let calm = (daily_loss-small g).1 a.no_daily_loss in ground arith

  -- The engine authorizes a position exactly when the switch is not tripped, the size and the
  -- liquidity are positive, another position and another trade are allowed, the size is within its
  -- shares of the equity and of the liquidity and keeps the exposure below its cap, the slippage and
  -- the price impact are both at most `max_slippage_bps`, no cooldown is running, and the loss of a
  -- day that began with some equity is below its limit.
  pub authorize_iff :
      (g : RiskEngine D T) (position liquidity : D) (slippage impact : ℕ) (now : T)
      → (authorize g position liquidity slippage impact now ≡ ok tt)
        ↔ IsAllowed g position liquidity slippage impact now
  authorize_iff g position liquidity slippage impact now = (
    authorize-IsAllowed g position liquidity slippage impact now,
    IsAllowed-authorize g position liquidity slippage impact now,
  )

module _ {D T : Type 0} ⦃d : Decimal D⦄ where
  authorize_entry_cases :
      (switch : KillSwitch D) (gate : EconomicGate D) (model : CostModel D T)
      (r : Result ViabilityError (EconomicGateDecision D))
      → check gate model ≡ r
      → authorize_entry switch gate model ≡ ok tt
      → (res : BreakEvenResult D) × (check gate model ≡ ok (allowed res)) × (switch.tripped ≡ false)
  unfolding authorize_entry
  authorize_entry_cases switch gate model (ok (allowed res)) q e = (res, q, ground arith)
  authorize_entry_cases switch gate model (ok (rejected res t)) q e = ground arith
  authorize_entry_cases switch gate model (err x) q e = ground arith

  -- An entry passes the latch and the economic gate exactly when the switch is not tripped, the
  -- round-trip cost of the trade can be calculated, and it does not exceed the threshold.
  pub authorize_entry_iff :
      (switch : KillSwitch D) (gate : EconomicGate D) (model : CostModel D T)
      → (authorize_entry switch gate model ≡ ok tt) ↔ (
          (switch.tripped ≡ false)
          × ((r : BreakEvenResult D) × (calculate model ≡ ok r)
              × (r.round_trip_cost_pct_of_position ≼ gate.round_trip_cost_threshold_pct)))
  unfolding authorize_entry
  authorize_entry_iff switch gate model = (
    λ e.
        let (r, q, free) = authorize_entry_cases switch gate model (check gate model) refl e in
        let (calc, small) = (check_allowed_iff gate model r).0 q in (free, (r, calc, small)),
    λ (free, (r, calc, small)).
        let q = (check_allowed_iff gate model r).1 (calc, small) in ground arith,
  )
