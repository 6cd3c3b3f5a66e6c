-- ===== src/Backtest/CostLaws.antt =====
-- backtest/engine.rs: the signs of the modelled costs.
use solana_bot.Prelude.{arith}
use solana_bot.Prelude.Int.{pos}
use solana_bot.Prelude.Decimal.{IsOrdered, Decimal, IsSigned, ◌≼◌, ◌≺◌, ◌⊕◌, ◌⊗◌, ◌⊘◌, of_nat}
use solana_bot.Backtest.Costs.{
  CostAssumptions, entry_costs, exit_costs, expected_failed_tx_cost, total_round_trip_cost,
}

-- No assumption is negative.
pub record IsNonneg {D : Type 0} ⦃d : Decimal D⦄ (costs : CostAssumptions D) : Type 0 where
  pub entry_swap_fee_bps : of_nat 0 ≼ costs.entry_swap_fee_bps
  pub entry_priority_fee_usd : of_nat 0 ≼ costs.entry_priority_fee_usd
  pub entry_slippage_bps : of_nat 0 ≼ costs.entry_slippage_bps
  pub entry_price_impact_bps : of_nat 0 ≼ costs.entry_price_impact_bps
  pub exit_swap_fee_bps : of_nat 0 ≼ costs.exit_swap_fee_bps
  pub exit_priority_fee_usd : of_nat 0 ≼ costs.exit_priority_fee_usd
  pub exit_slippage_bps : of_nat 0 ≼ costs.exit_slippage_bps
  pub exit_price_impact_bps : of_nat 0 ≼ costs.exit_price_impact_bps
  pub failed_tx_rate : of_nat 0 ≼ costs.failed_tx_rate
  pub failed_tx_cost_usd : of_nat 0 ≼ costs.failed_tx_cost_usd

module _ {D : Type 0} ⦃d : Decimal D⦄ (order : IsOrdered D) (signed : IsSigned D) where
  two : of_nat 0 ≼ of_nat {D = D} 2
  two = ground (arith, order.leq_scaled (pos 0) (pos 2))

  many : of_nat 0 ≺ of_nat {D = D} 10_000
  many = ground (arith, order.leq_scaled (pos 10_000) (pos 0))

  share_nonneg :
      (amount bps : D)
      → of_nat 0 ≼ amount
      → of_nat 0 ≼ bps
      → of_nat 0 ≼ amount ⊗ bps ⊘ of_nat 10_000
  share_nonneg amount bps positive charged =
      signed.div_nonneg (amount ⊗ bps) (of_nat 10_000)
        (signed.mul_nonneg amount bps positive charged) many

  sum_nonneg :
      (a b c e : D)
      → of_nat 0 ≼ a
      → of_nat 0 ≼ b
      → of_nat 0 ≼ c
      → of_nat 0 ≼ e
      → of_nat 0 ≼ a ⊕ b ⊕ c ⊕ e
  sum_nonneg a b c e pa pb pc pe =
      signed.add_nonneg (a ⊕ b ⊕ c) e (signed.add_nonneg (a ⊕ b) c (signed.add_nonneg a b pa pb) pc)
        pe

  entry_costs_nonneg :
      (costs : CostAssumptions D) (amount : D)
      → IsNonneg costs
      → of_nat 0 ≼ amount
      → of_nat 0 ≼ (entry_costs costs amount).total_usd
  unfolding entry_costs
  entry_costs_nonneg costs amount ok_costs positive =
      sum_nonneg _ _ _ _ (share_nonneg amount _ positive ok_costs.entry_swap_fee_bps)
        ok_costs.entry_priority_fee_usd (share_nonneg amount _ positive ok_costs.entry_slippage_bps)
        (share_nonneg amount _ positive ok_costs.entry_price_impact_bps)

  exit_costs_nonneg :
      (costs : CostAssumptions D) (amount : D)
      → IsNonneg costs
      → of_nat 0 ≼ amount
      → of_nat 0 ≼ (exit_costs costs amount).total_usd
  unfolding exit_costs
  exit_costs_nonneg costs amount ok_costs positive =
      sum_nonneg _ _ _ _ (share_nonneg amount _ positive ok_costs.exit_swap_fee_bps)
        ok_costs.exit_priority_fee_usd (share_nonneg amount _ positive ok_costs.exit_slippage_bps)
        (share_nonneg amount _ positive ok_costs.exit_price_impact_bps)

  -- Where no assumption and no amount is negative, neither is the cost of a round trip.
  pub total_round_trip_cost_nonneg :
      (costs : CostAssumptions D) (position_usd proceeds_usd : D)
      → IsNonneg costs
      → of_nat 0 ≼ position_usd
      → of_nat 0 ≼ proceeds_usd
      → of_nat 0 ≼ total_round_trip_cost costs position_usd proceeds_usd
  unfolding total_round_trip_cost expected_failed_tx_cost
  total_round_trip_cost_nonneg costs position_usd proceeds_usd ok_costs positive received =
      signed.add_nonneg _ _
        (signed.add_nonneg _ _ (entry_costs_nonneg costs position_usd ok_costs positive)
          (exit_costs_nonneg costs proceeds_usd ok_costs received))
        (signed.mul_nonneg _ _ (signed.mul_nonneg (of_nat 2) _ two ok_costs.failed_tx_rate)
          ok_costs.failed_tx_cost_usd)
