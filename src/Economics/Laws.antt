-- ===== src/Economics/Laws.antt =====
-- When the break-even calculator answers, the sign of what it answers, and what the gate lets pass.
use solana_bot.Prelude.{ℕ, ◌+◌, ◌≡◌, ◌↔◌, true, arith, ok, is_ok}
use solana_bot.Prelude.Int.{pos}
use solana_bot.Prelude.Decimal.{Decimal, IsOrdered, IsSigned, of_nat, ◌≼◌, ◌≺◌}
use solana_bot.Economics.Viability.{
  BreakEvenInputs, BreakEvenResult, check_inputs, break_even, break_even_calculator,
}
use solana_bot.Economics.CostModel.{CostModel, EconomicGate, allowed, calculate, check}

module _ {D : Type 0} ⦃d : Decimal D⦄ where
  -- The documented ranges of the inputs.
  pub record IsViable (input : BreakEvenInputs D) : Type 0 where
    pub size_pos : of_nat 0 ≺ input.position_size_usd
    pub ratio_pos : of_nat 0 ≺ input.assumed_win_loss_ratio
    pub loss_pos : of_nat 0 ≺ input.assumed_avg_loss_pct
    pub rate_nonneg : of_nat 0 ≼ input.failed_tx_rate
    pub rate_le : input.failed_tx_rate ≼ of_nat 1
    pub priority_nonneg : of_nat 0 ≼ input.avg_priority_fee_usd
    pub swap_nonneg : of_nat 0 ≼ input.avg_swap_fee_bps
    pub slippage_nonneg : of_nat 0 ≼ input.avg_slippage_bps
    pub impact_nonneg : of_nat 0 ≼ input.avg_price_impact_bps
    pub failed_nonneg : of_nat 0 ≼ input.avg_failed_tx_cost_usd

  IsViable-check_inputs : (input : BreakEvenInputs D) → IsViable input → check_inputs input ≡ ok tt
  unfolding check_inputs
  IsViable-check_inputs input v = ground arith

  check_inputs-IsViable : (input : BreakEvenInputs D) → check_inputs input ≡ ok tt → IsViable input
  unfolding check_inputs
  check_inputs-IsViable input e = ground arith

  -- The calculator answers, and returns no error, exactly for inputs in the documented ranges.
  pub break_even_calculator_iff :
      (input : BreakEvenInputs D) → (is_ok (break_even_calculator input) ≡ true) ↔ IsViable input
  unfolding break_even_calculator
  break_even_calculator_iff input = (
    λ e. check_inputs-IsViable input (ground arith),
    λ v. ground (arith, IsViable-check_inputs input v),
  )

  break_even_calculator-eq-ok :
      (input : BreakEvenInputs D) {r : BreakEvenResult D}
      → break_even_calculator input ≡ ok r
      → IsViable input × (r ≡ break_even input)
  unfolding break_even_calculator
  break_even_calculator-eq-ok input e = (check_inputs-IsViable input (ground arith), ground arith)

  module _ (order : IsOrdered D) (signs : IsSigned D) where
    open signs use {add_nonneg, mul_nonneg, div_nonneg}

    of_nat_nonneg : (n : ℕ) → of_nat 0 ≼ of_nat {D = D} n
    of_nat_nonneg n = ground (arith, order.leq_scaled (pos 0) (pos n))

    of_nat_pos : (n : ℕ) → of_nat 0 ≺ of_nat {D = D} (n + 1)
    of_nat_pos n = ground (arith, order.leq_scaled (pos (n + 1)) (pos 0))

    leq_of_lss : (x y : D) → x ≺ y → x ≼ y
    leq_of_lss x y h = ground (arith, order.leq_total x y)

    -- No cost in an answer of the calculator is negative, whatever the rounding of the operations.
    break_even_calculator_nonneg :
        (input : BreakEvenInputs D) {r : BreakEvenResult D}
        → break_even_calculator input ≡ ok r
        → (of_nat 0 ≼ r.round_trip_cost_usd)
          × (of_nat 0 ≼ r.round_trip_cost_pct_of_position)
          × (of_nat 0 ≼ r.expected_failed_tx_cost_usd)
          × (of_nat 0 ≼ r.required_avg_win_pct)
    unfolding break_even
    break_even_calculator_nonneg input e =
        let (v, same) = break_even_calculator-eq-ok input e in
        let bps = add_nonneg _ _ (add_nonneg _ _ v.swap_nonneg v.slippage_nonneg) v.impact_nonneg in
        let fill =
          div_nonneg _ _ (mul_nonneg _ _ (leq_of_lss _ _ v.size_pos) bps) (of_nat_pos 9999) in
        let failed =
          mul_nonneg _ _ (mul_nonneg _ _ (of_nat_nonneg 2) v.rate_nonneg) v.failed_nonneg in
        let trip =
          add_nonneg _ _ (mul_nonneg _ _ (of_nat_nonneg 2) (add_nonneg _ _ fill v.priority_nonneg))
            failed in
        let pct = mul_nonneg _ _ (div_nonneg _ _ trip v.size_pos) (of_nat_nonneg 100) in
        let win =
          add_nonneg _ _
            (div_nonneg _ _ (add_nonneg _ _ (leq_of_lss _ _ v.loss_pos) pct) v.ratio_pos) pct in
        rw same (trip, pct, failed, win)

module _ {D T : Type 0} ⦃d : Decimal D⦄ where
  -- The gate allows a trade exactly when its cost can be calculated and does not exceed the
  -- threshold; a calculation error is passed on and never becomes a permission.
  pub check_allowed_iff :
      (gate : EconomicGate D) (model : CostModel D T) (r : BreakEvenResult D)
      → (check gate model ≡ ok (allowed r)) ↔ (
          (calculate model ≡ ok r)
          × (r.round_trip_cost_pct_of_position ≼ gate.round_trip_cost_threshold_pct))
  unfolding check
  check_allowed_iff gate model r = (λ e. ground arith, λ (e, small). ground arith)
