-- ===== src/SmartMoney/Score.antt =====
-- smart_money/classifier.rs: the range of a score, and what makes a wallet qualified.
use solana_bot.Prelude.{ℕ, ◌+◌, ◌≤◌, ◌≡◌, ◌↔◌, ◌⊎◌, true, arith, max}
use solana_bot.Prelude.Int.{pos}
use solana_bot.Prelude.Decimal.{Decimal, IsOrdered, IsSigned, ◌⊖◌, of_nat, max_of, min_of, ◌≼◌, ◌≺◌}
use solana_bot.Domain.Wallet.{WalletStats}
use solana_bot.SmartMoney.Classifier.{
  SmartMoneyThresholds, sample, performance, penalties, score_of, tier_of, score_wallet,
}
use solana_bot.SmartMoney.Tracker.{counts}

module _ {D : Type 0} ⦃d : Decimal D⦄ (order : IsOrdered D) where
  max-lower : (x y : D) → y ≼ max_of x y
  max-lower x y = ground (arith, order.leq_total x y, order.leq_refl y)

  min-upper : (x y : D) → min_of x y ≼ y
  min-upper x y = ground (arith, order.leq_total x y, order.leq_refl y)

  min-lower : (z x y : D) → z ≼ x → z ≼ y → z ≼ min_of x y
  min-lower z x y h k = ground arith

  nat_leq : (m n : ℕ) → m ≤ n → of_nat m ≼ of_nat {D = D} n
  nat_leq m n h = ground (arith, order.leq_scaled (pos m) (pos n))

  nat_lss : (m n : ℕ) → m + 1 ≤ n → of_nat m ≺ of_nat {D = D} n
  nat_lss m n h = ground (arith, order.leq_scaled (pos n) (pos m))

  module _ (signs : IsSigned D) where
    sample_nonneg : (trades n : ℕ) → of_nat 0 ≼ sample {D = D} trades n
    unfolding sample
    sample_nonneg trades n =
        min-lower (of_nat 0) _ (of_nat 1)
          (signs.div_nonneg _ _ (nat_leq 0 trades (omega arith))
            (nat_lss 0 (max n 1) (omega arith)))
          (nat_leq 0 1 (omega arith))

    score_of_nonneg :
        {T : Type 0} (stats : WalletStats D T) (t : SmartMoneyThresholds D)
        → of_nat 0 ≼ score_of stats t
    unfolding score_of
    score_of_nonneg stats t =
        let gain = max-lower (performance stats ⊖ penalties stats) (of_nat 0) in
        let weight = sample_nonneg stats.trades t.qualified_trades in
        let profit =
          min-lower (of_nat 0) _ (of_nat 10) (max-lower stats.realized_pnl_usd (of_nat 0))
            (nat_leq 0 10 (omega arith)) in
        min-lower (of_nat 0) _ (of_nat 100)
          (signs.add_nonneg _ _ (signs.mul_nonneg _ _ gain weight) profit)
          (nat_leq 0 100 (omega arith))

    -- The score of a wallet lies between 0 and 100.
    pub score_wallet_range :
        {T : Type 0} (stats : WalletStats D T) (t : SmartMoneyThresholds D)
        → (of_nat 0 ≼ (score_wallet stats t).score) × ((score_wallet stats t).score ≼ of_nat 100)
    unfolding score_wallet score_of
    score_wallet_range stats t = (score_of_nonneg stats t, min-upper _ (of_nat 100))

module _ {D : Type 0} ⦃d : Decimal D⦄ where
  counts-tier_of :
      (t : SmartMoneyThresholds D) (trades : ℕ) (score : D)
      → (counts (tier_of t trades score) ≡ true) ↔ (
          (t.qualified_trades ≤ trades)
          × ((t.high_confidence_score ≼ score) ⊎ (t.qualified_score ≼ score)))
  counts-tier_of t trades score = ground arith

module _ {D T : Type 0} ⦃d : Decimal D⦄ where
  -- A wallet counts towards a consensus by its tier exactly when it has the qualified number of
  -- trades and a score that reaches one of the two thresholds.
  score_wallet_tier :
      (stats : WalletStats D T) (t : SmartMoneyThresholds D)
      → (counts (score_wallet stats t).tier ≡ true) ↔ (
          (t.qualified_trades ≤ stats.trades)
          × ((t.high_confidence_score ≼ (score_wallet stats t).score)
              ⊎ (t.qualified_score ≼ (score_wallet stats t).score)))
  unfolding score_wallet
  score_wallet_tier stats t = counts-tier_of t stats.trades (score_of stats t)
