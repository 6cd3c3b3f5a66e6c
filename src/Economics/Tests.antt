-- ===== src/Economics/Tests.antt =====
-- Runs of economics/ at fixed-point decimals, and the theorems at those inputs.
use solana_bot.Prelude.{ℕ, ◌≡◌, refl, true, false, ◌↔◌, ok, err, is_ok}
use solana_bot.Prelude.Int.{pos, ◌+ℤ◌, ◌*ℤ◌, ◌/ℤ◌}
use solana_bot.Prelude.Fixed.{Fixed, ticks, fixed_decimal}
use solana_bot.Economics.Viability.{
  BreakEvenInputs, BreakEvenResult, probability_out_of_range, break_even_calculator,
}
use solana_bot.Economics.CostModel.{CostModel, EconomicGate}
use solana_bot.Economics.Laws.{IsViable, break_even_calculator_iff}

abbrev usual : BreakEvenInputs Fixed
usual = record {
  position_size_usd = ticks (pos 100_000);
  avg_priority_fee_usd = ticks (pos 20);
  avg_swap_fee_bps = ticks (pos 300_000);
  avg_slippage_bps = ticks (pos 1_000_000);
  avg_price_impact_bps = ticks (pos 200_000);
  failed_tx_rate = ticks (pos 1_000);
  avg_failed_tx_cost_usd = ticks (pos 20);
  assumed_win_loss_ratio = ticks (pos 20_000);
  assumed_avg_loss_pct = ticks (pos 100_000);
}

abbrev usual_result : BreakEvenResult Fixed
usual_result = record {
  round_trip_cost_usd = ticks (pos 3_044);
  round_trip_cost_pct_of_position = ticks (pos 30_400);
  required_win_rate_at_given_rr = ticks (pos 4_346);
  required_avg_win_pct = ticks (pos 95_600);
  expected_failed_tx_cost_usd = ticks (pos 4);
}

run_usual : break_even_calculator usual ≡ ok usual_result
unfolding break_even_calculator ◌+ℤ◌ ◌*ℤ◌ ◌/ℤ◌
run_usual = refl

run_bad_probability :
    break_even_calculator (record usual { failed_tx_rate = ticks (pos 10_100) })
    ≡ err (probability_out_of_range "failed_tx_rate")
unfolding break_even_calculator ◌+ℤ◌ ◌*ℤ◌ ◌/ℤ◌
run_bad_probability = refl

break_even_calculator_iff_example : (is_ok (break_even_calculator usual) ≡ true) ↔ IsViable usual
break_even_calculator_iff_example = break_even_calculator_iff usual

abbrev model : CostModel Fixed ℕ
model = record { observed_at = 0; input = usual; source = "test"; is_live_snapshot = false }

abbrev gate : EconomicGate Fixed
gate = record { round_trip_cost_threshold_pct = ticks (pos 80_000) }
