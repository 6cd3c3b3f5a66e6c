-- ===== src/Backtest/Costs.antt =====
-- backtest/engine.rs: the modelled costs of a simulated trade.
use solana_bot.Prelude.{Option, Bool, false, unwrap_or}
use solana_bot.Prelude.Int.{pos}
use solana_bot.Prelude.Decimal.{Decimal, ◌⊕◌, ◌⊗◌, ◌⊘◌, of_nat, decimal}

pub data CostMode : Type 0 where
  modeled observed mixed : CostMode

pub record TradeCosts (D : Type 0) : Type 0 where
  pub swap_fee_usd : D
  pub priority_fee_usd : D
  pub slippage_cost_usd : D
  pub price_impact_cost_usd : D
  pub total_usd : D
  pub is_observed : Bool

pub record CostAssumptions (D : Type 0) : Type 0 where
  pub entry_swap_fee_bps : D
  pub entry_priority_fee_usd : D
  pub entry_slippage_bps : D
  pub entry_price_impact_bps : D
  pub exit_swap_fee_bps : D
  pub exit_priority_fee_usd : D
  pub exit_slippage_bps : D
  pub exit_price_impact_bps : D
  pub failed_tx_rate : D
  pub failed_tx_cost_usd : D

-- The costs of the configuration file, each of which may be missing.
pub record BacktestCostConfig (D : Type 0) : Type 0 where
  pub entry_swap_fee_bps : Option D
  pub entry_priority_fee_usd : Option D
  pub entry_slippage_bps : Option D
  pub entry_price_impact_bps : Option D
  pub exit_swap_fee_bps : Option D
  pub exit_priority_fee_usd : Option D
  pub exit_slippage_bps : Option D
  pub exit_price_impact_bps : Option D
  pub failed_tx_rate : Option D
  pub failed_tx_cost_usd : Option D

abbrev pub mode : {D : Type 0} → CostAssumptions D → CostMode
mode costs = modeled

module _ {D : Type 0} ⦃d : Decimal D⦄ where
  -- A leg of a trade: every effect is one amount in dollars.
  abbrev leg_costs : D → D → D → D → TradeCosts D
  leg_costs swap_fee priority_fee slippage impact = record {
    swap_fee_usd = swap_fee;
    priority_fee_usd = priority_fee;
    slippage_cost_usd = slippage;
    price_impact_cost_usd = impact;
    total_usd = swap_fee ⊕ priority_fee ⊕ slippage ⊕ impact;
    is_observed = false;
  }

  unfoldable pub entry_costs : CostAssumptions D → D → TradeCosts D
  entry_costs costs notional_usd =
      leg_costs (notional_usd ⊗ costs.entry_swap_fee_bps ⊘ of_nat 10_000)
        costs.entry_priority_fee_usd (notional_usd ⊗ costs.entry_slippage_bps ⊘ of_nat 10_000)
        (notional_usd ⊗ costs.entry_price_impact_bps ⊘ of_nat 10_000)

  unfoldable pub exit_costs : CostAssumptions D → D → TradeCosts D
  exit_costs costs proceeds_usd =
      leg_costs (proceeds_usd ⊗ costs.exit_swap_fee_bps ⊘ of_nat 10_000) costs.exit_priority_fee_usd
        (proceeds_usd ⊗ costs.exit_slippage_bps ⊘ of_nat 10_000)
        (proceeds_usd ⊗ costs.exit_price_impact_bps ⊘ of_nat 10_000)

  unfoldable pub expected_failed_tx_cost : CostAssumptions D → D
  expected_failed_tx_cost costs = of_nat 2 ⊗ costs.failed_tx_rate ⊗ costs.failed_tx_cost_usd

  unfoldable pub total_round_trip_cost : CostAssumptions D → D → D → D
  total_round_trip_cost costs position_usd exit_proceeds_usd =
      (entry_costs costs position_usd).total_usd
      ⊕ (exit_costs costs exit_proceeds_usd).total_usd
      ⊕ expected_failed_tx_cost costs

  -- The assumptions of a configuration file; what it does not set has a default.
  unfoldable pub from_config : BacktestCostConfig D → CostAssumptions D
  from_config c = record {
    entry_swap_fee_bps = unwrap_or c.entry_swap_fee_bps (of_nat 30);
    entry_priority_fee_usd = unwrap_or c.entry_priority_fee_usd (decimal (pos 2) 3);
    entry_slippage_bps = unwrap_or c.entry_slippage_bps (of_nat 50);
    entry_price_impact_bps = unwrap_or c.entry_price_impact_bps (of_nat 20);
    exit_swap_fee_bps = unwrap_or c.exit_swap_fee_bps (of_nat 30);
    exit_priority_fee_usd = unwrap_or c.exit_priority_fee_usd (decimal (pos 2) 3);
    exit_slippage_bps = unwrap_or c.exit_slippage_bps (of_nat 50);
    exit_price_impact_bps = unwrap_or c.exit_price_impact_bps (of_nat 20);
    failed_tx_rate = unwrap_or c.failed_tx_rate (decimal (pos 5) 2);
    failed_tx_cost_usd = unwrap_or c.failed_tx_cost_usd (decimal (pos 2) 3);
  }
