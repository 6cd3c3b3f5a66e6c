-- ===== src/Economics/CostModel.antt =====
-- economics/cost_model.rs.
use solana_bot.Prelude.{Bool, ◌||◌, String, if◌then◌else◌, Result, ok, ◌>>=◌, ◌>>◌, reject_if}
use solana_bot.Prelude.Decimal.{Decimal, ◌⊖◌, ◌⊗◌, ◌⊘◌, of_nat, lss}
use solana_bot.Economics.Viability.{
  BreakEvenInputs, BreakEvenResult, ViabilityError, negative, break_even_calculator,
}

pub record ExpectedValue (D : Type 0) : Type 0 where
  pub gross_return_pct : D
  pub trading_fees_pct : D
  pub priority_and_network_pct : D
  pub slippage_pct : D
  pub price_impact_pct : D
  pub failed_transaction_pct : D
  pub adverse_selection_pct : D
  pub expected_exit_cost_pct : D
  pub uncertainty_haircut_pct : D
  pub net_return_pct : D

pub record CostModel (D T : Type 0) : Type 0 where
  pub observed_at : T
  pub input : BreakEvenInputs D
  pub source : String
  pub is_live_snapshot : Bool

pub data EconomicGateDecision (D : Type 0) : Type 0 where
  allowed : BreakEvenResult D → EconomicGateDecision D
  rejected : (result : BreakEvenResult D) (threshold_pct : D) → EconomicGateDecision D

pub record EconomicGate (D : Type 0) : Type 0 where
  pub round_trip_cost_threshold_pct : D

module _ {D T : Type 0} ⦃d : Decimal D⦄ where
  unfoldable pub calculate : CostModel D T → Result ViabilityError (BreakEvenResult D)
  unfolding break_even_calculator
  calculate model = break_even_calculator model.input

  -- `EconomicGate::check`
  unfoldable pub check :
      EconomicGate D → CostModel D T → Result ViabilityError (EconomicGateDecision D)
  check gate model = do
    result ← calculate model
    ok (
        if lss gate.round_trip_cost_threshold_pct result.round_trip_cost_pct_of_position
        then rejected result gate.round_trip_cost_threshold_pct
        else allowed result)

  -- `ExpectedValue::estimate`
  unfoldable pub estimate : D → CostModel D T → D → D → D → Result ViabilityError (ExpectedValue D)
  unfolding calculate
  estimate gross model adverse_selection_bps exit_cost_bps haircut = do
    r ← calculate model
    reject_if
        (lss adverse_selection_bps (of_nat 0)
          || lss exit_cost_bps (of_nat 0)
          || lss haircut (of_nat 0))
        (negative "expected-value component")
    let p = model.input.position_size_usd
    let fees = of_nat 2 ⊗ model.input.avg_swap_fee_bps ⊘ of_nat 100
    let priority = of_nat 2 ⊗ model.input.avg_priority_fee_usd ⊘ p ⊗ of_nat 100
    let slippage = of_nat 2 ⊗ model.input.avg_slippage_bps ⊘ of_nat 100
    let impact = of_nat 2 ⊗ model.input.avg_price_impact_bps ⊘ of_nat 100
    let failed = r.expected_failed_tx_cost_usd ⊘ p ⊗ of_nat 100
    let adverse = adverse_selection_bps ⊘ of_nat 100
    let exit = exit_cost_bps ⊘ of_nat 100
    let net = gross ⊖ fees ⊖ priority ⊖ slippage ⊖ impact ⊖ failed ⊖ adverse ⊖ exit ⊖ haircut
    ok (record {
      gross_return_pct = gross;
      trading_fees_pct = fees;
      priority_and_network_pct = priority;
      slippage_pct = slippage;
      price_impact_pct = impact;
      failed_transaction_pct = failed;
      adverse_selection_pct = adverse;
      expected_exit_cost_pct = exit;
      uncertainty_haircut_pct = haircut;
      net_return_pct = net;
    })
