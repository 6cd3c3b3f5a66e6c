-- ===== src/Economics/Viability.antt =====
-- economics/viability.rs.
use solana_bot.Prelude.{List, [], ◌∷◌, String, if◌then◌else◌, Result, ok, err, ◌>>◌}
use solana_bot.Prelude.Decimal.{Decimal, ◌⊕◌, ◌⊗◌, ◌⊘◌, of_nat, leq, lss}

pub record BreakEvenInputs (D : Type 0) : Type 0 where
  pub position_size_usd : D
  pub avg_priority_fee_usd : D
  pub avg_swap_fee_bps : D
  pub avg_slippage_bps : D
  pub avg_price_impact_bps : D
  pub failed_tx_rate : D
  pub avg_failed_tx_cost_usd : D
  pub assumed_win_loss_ratio : D
  pub assumed_avg_loss_pct : D

pub record BreakEvenResult (D : Type 0) : Type 0 where
  pub round_trip_cost_usd : D
  pub round_trip_cost_pct_of_position : D
  pub required_win_rate_at_given_rr : D
  pub required_avg_win_pct : D
  pub expected_failed_tx_cost_usd : D

pub data ViabilityError : Type 0 where
  non_positive probability_out_of_range negative : String → ViabilityError

module _ {D : Type 0} ⦃d : Decimal D⦄ where
  unfoldable pub positive : D → String → Result ViabilityError (Unit {0})
  positive value name = if lss (of_nat 0) value then ok tt else err (non_positive name)

  unfoldable pub probability : D → String → Result ViabilityError (Unit {0})
  probability value name =
      if leq (of_nat 0) value
      then if leq value (of_nat 1) then ok tt else err (probability_out_of_range name)
      else err (probability_out_of_range name)

  -- The loop over the cost inputs.
  unfoldable pub no_negative : List (D × String) → Result ViabilityError (Unit {0})
  no_negative [] = ok tt
  no_negative ((value, name) ∷ rest) =
      if lss value (of_nat 0) then err (negative name) else no_negative rest

  unfoldable pub check_inputs : BreakEvenInputs D → Result ViabilityError (Unit {0})
  unfolding positive probability no_negative
  check_inputs input = do
    positive input.position_size_usd "position_size_usd"
    positive input.assumed_win_loss_ratio "assumed_win_loss_ratio"
    positive input.assumed_avg_loss_pct "assumed_avg_loss_pct"
    probability input.failed_tx_rate "failed_tx_rate"
    no_negative (
        (input.avg_priority_fee_usd, "avg_priority_fee_usd")
        ∷ (input.avg_swap_fee_bps, "avg_swap_fee_bps")
        ∷ (input.avg_slippage_bps, "avg_slippage_bps")
        ∷ (input.avg_price_impact_bps, "avg_price_impact_bps")
        ∷ (input.avg_failed_tx_cost_usd, "avg_failed_tx_cost_usd")
        ∷ [])

  -- The arithmetic below the checks.
  unfoldable pub break_even : BreakEvenInputs D → BreakEvenResult D
  break_even input =
      let per_fill_bps =
        input.avg_swap_fee_bps ⊕ input.avg_slippage_bps ⊕ input.avg_price_impact_bps in
      let fill_cost = input.position_size_usd ⊗ per_fill_bps ⊘ of_nat 10000 in
      let failed = of_nat 2 ⊗ input.failed_tx_rate ⊗ input.avg_failed_tx_cost_usd in
      let round_trip = of_nat 2 ⊗ (fill_cost ⊕ input.avg_priority_fee_usd) ⊕ failed in
      let cost_pct = round_trip ⊘ input.position_size_usd ⊗ of_nat 100 in
      let loss = input.assumed_avg_loss_pct in
      record {
        round_trip_cost_usd = round_trip;
        round_trip_cost_pct_of_position = cost_pct;
        required_win_rate_at_given_rr =
            (loss ⊕ cost_pct) ⊘ (loss ⊗ (of_nat 1 ⊕ input.assumed_win_loss_ratio));
        required_avg_win_pct = (loss ⊕ cost_pct) ⊘ input.assumed_win_loss_ratio ⊕ cost_pct;
        expected_failed_tx_cost_usd = failed;
      }

  unfoldable pub break_even_calculator :
      BreakEvenInputs D → Result ViabilityError (BreakEvenResult D)
  unfolding check_inputs break_even
  break_even_calculator input = do check_inputs input; ok (break_even input)
