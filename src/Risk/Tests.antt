-- ===== src/Risk/Tests.antt =====
-- Runs of risk.rs at fixed-point decimals, and the theorems at those inputs.
use solana_bot.Prelude.{ℕ, ◌≡◌, refl, ◌≢◌, ◌↔◌, true, false, none, List, [], ◌∷◌, arith, ok, err}
use solana_bot.Prelude.Int.{pos, ◌+ℤ◌, ◌-ℤ◌, ◌*ℤ◌, ◌/ℤ◌}
use solana_bot.Prelude.Decimal.{◌≼◌}
use solana_bot.Prelude.Fixed.{
  Fixed, ticks, fixed_decimal, Instant, nanos, instant_chrono, Fixed-IsOrdered, Fixed-IsSigned,
}
use solana_bot.Config.{RiskConfig}
use solana_bot.Economics.Viability.{BreakEvenResult}
use solana_bot.Economics.CostModel.{CostModel, EconomicGate, calculate}
use solana_bot.Risk.Engine.{
  RiskEngine, refused, kill_switch_latched, new_engine, authorize, authorize_entry, authorize_exit,
  observe_equity, register_trade, register_exit, apply_loss_cooldown,
}
use solana_bot.Risk.Entry.{IsAllowed, authorize_iff, authorize_entry_iff}
use solana_bot.Risk.Session.{
  Event, open_trade, close_trade, failure, loss, handle, handle_all, IsWithin, handle_all-IsWithin,
}
use solana_bot.Risk.Latch.{drawdown_latches, failures_trip}

abbrev usd : ℕ → Fixed
usd n = ticks (pos n)

abbrev config : RiskConfig Fixed
config = record {
  starting_capital_usd = usd 1_000_000;
  max_live_capital_usd = usd 500_000;
  max_concurrent_positions = 2;
  max_position_percent_of_equity = usd 200_000;
  max_position_percent_of_liquidity = usd 10_000;
  max_risk_per_trade_percent = usd 20_000;
  max_daily_loss_percent = usd 50_000;
  max_total_drawdown_before_kill_switch_pct = usd 200_000;
  cooldown_after_loss_minutes = pos 30;
  max_slippage_bps = 100;
  min_liquidity_usd = usd 1_000_000;
  max_trades_per_day = 10;
  max_consecutive_failures = 3;
}

abbrev engine : RiskEngine Fixed Instant
engine = record {
  config = config;
  kill_switch = record {
    starting_capital_usd = usd 1_000_000;
    max_drawdown_pct = usd 200_000;
    tripped = false;
  };
  state = record {
    equity_usd = usd 1_000_000;
    day_start_equity_usd = usd 1_000_000;
    total_exposure_usd = usd 0;
    open_positions = 0;
    trades_today = 0;
    cooldown_until = none;
  };
  consecutive_failures = 0;
}

engine-new : new_engine config (usd 1_000_000) ≡ engine
unfolding new_engine ◌*ℤ◌ ◌/ℤ◌
engine-new = refl

abbrev costs : CostModel Fixed Instant
costs = record {
  observed_at = nanos (pos 0);
  source = "test";
  is_live_snapshot = false;
  input = record {
    position_size_usd = usd 100_000;
    avg_priority_fee_usd = usd 10;
    avg_swap_fee_bps = usd 300_000;
    avg_slippage_bps = usd 0;
    avg_price_impact_bps = usd 0;
    failed_tx_rate = usd 0;
    avg_failed_tx_cost_usd = usd 0;
    assumed_win_loss_ratio = usd 20_000;
    assumed_avg_loss_pct = usd 100_000;
  };
}

abbrev gate : EconomicGate Fixed
gate = record { round_trip_cost_threshold_pct = usd 80_000 }

abbrev entry : Event Fixed Instant
entry = open_trade (usd 150_000) (usd 50_000_000) 10 10 (nanos (pos 0))

abbrev day : List (Event Fixed Instant)
day = entry ∷ entry ∷ entry ∷ close_trade (usd 150_000) ∷ entry ∷ loss (nanos (pos 0)) ∷ []

-- The third entry finds both slots taken.
positions_after_day : (handle_all engine day).state.open_positions ≡ 2
unfolding handle_all handle authorize register_trade register_exit apply_loss_cooldown ◌+ℤ◌ ◌-ℤ◌
    ◌*ℤ◌ ◌/ℤ◌
positions_after_day = refl

authorize_iff_example :
    (authorize engine (usd 150_000) (usd 50_000_000) 10 10 (nanos (pos 0)) ≡ ok tt)
    ↔ IsAllowed engine (usd 150_000) (usd 50_000_000) 10 10 (nanos (pos 0))
authorize_iff_example = authorize_iff engine (usd 150_000) (usd 50_000_000) 10 10 (nanos (pos 0))

authorize_entry_iff_example : (authorize_entry engine.kill_switch gate costs ≡ ok tt) ↔ (
    (false ≡ false)
    × ((r : BreakEvenResult Fixed) × (calculate costs ≡ ok r)
        × (r.round_trip_cost_pct_of_position ≼ usd 80_000)))
authorize_entry_iff_example = authorize_entry_iff engine.kill_switch gate costs

engine-IsWithin : IsWithin engine
unfolding ◌*ℤ◌ ◌/ℤ◌
engine-IsWithin = record {
  capital = refl;
  slots = omega arith;
  trades = omega arith;
  exposure = refl;
}

handle_all-IsWithin_example : IsWithin (handle_all engine day)
unfolding ◌*ℤ◌ ◌/ℤ◌
handle_all-IsWithin_example =
    handle_all-IsWithin Fixed-IsOrdered Fixed-IsSigned engine day
      (tt, (tt, (tt, (refl, (tt, (tt, tt)))))) engine-IsWithin

drawdown_latches_example :
    let later = handle_all (observe_equity engine (usd 700_000)) day in
    (authorize later (usd 1) (usd 1) 0 0 (nanos (pos 0)) ≡ err (refused kill_switch_latched))
    × (authorize_entry later.kill_switch gate costs ≡ err (refused kill_switch_latched))
    × (◌≢◌ {A = ℕ} 5 0 → authorize_exit later 5 ≡ ok tt)
unfolding ◌-ℤ◌ ◌*ℤ◌ ◌/ℤ◌
drawdown_latches_example =
    drawdown_latches engine (usd 700_000) day (usd 1) (usd 1) 0 0 (nanos (pos 0)) gate costs 5 refl

failures_trip_example :
    (handle_all engine (failure ∷ entry ∷ failure ∷ failure ∷ [])).kill_switch.tripped ≡ true
failures_trip_example =
    failures_trip engine (failure ∷ entry ∷ failure ∷ failure ∷ []) tt (omega arith) (omega arith)
      (omega arith)
