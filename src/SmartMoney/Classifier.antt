-- ===== src/SmartMoney/Classifier.antt =====
-- smart_money/classifier.rs.
use solana_bot.Prelude.{ℕ, ◌&&◌, if◌then◌else◌, leb, max}
use solana_bot.Prelude.Int.{pos}
use solana_bot.Prelude.Decimal.{Decimal, ◌⊕◌, ◌⊖◌, ◌⊗◌, ◌⊘◌, of_nat, decimal, leq, max_of, min_of}
use solana_bot.Domain.Wallet.{
  WalletStats, WalletTier, candidate, observed, qualified, high_confidence,
}

pub record SmartMoneyThresholds (D : Type 0) : Type 0 where
  pub observed_trades : ℕ
  pub qualified_trades : ℕ
  pub qualified_score : D
  pub high_confidence_score : D

module _ {D : Type 0} ⦃d : Decimal D⦄ where
  abbrev pub default_thresholds : SmartMoneyThresholds D
  default_thresholds = record {
    observed_trades = 5;
    qualified_trades = 25;
    qualified_score = of_nat 60;
    high_confidence_score = of_nat 75;
  }

  -- The weight of the sample, from the trades of the wallet and the qualified count.
  unfoldable pub sample : ℕ → ℕ → D
  sample trades qualified_trades =
      min_of (of_nat trades ⊘ of_nat (max qualified_trades 1)) (of_nat 1)

  abbrev pub tier_of : SmartMoneyThresholds D → ℕ → D → WalletTier
  tier_of t trades score =
      if leb t.qualified_trades trades && leq t.high_confidence_score score
      then high_confidence
      else if leb t.qualified_trades trades && leq t.qualified_score score
      then qualified
      else if leb t.observed_trades trades
      then observed
      else candidate

module _ {D T : Type 0} ⦃d : Decimal D⦄ where
  unfoldable pub performance : WalletStats D T → D
  performance stats =
      max_of
        (stats.win_rate ⊗ of_nat 25
          ⊕ min_of stats.avg_return_pct (of_nat 30)
          ⊕ min_of stats.median_return_pct (of_nat 20)
          ⊕ min_of stats.recent_return_pct (of_nat 15))
        (of_nat 0)

  unfoldable pub penalties : WalletStats D T → D
  penalties stats =
      min_of stats.max_drawdown_pct (of_nat 30)
      ⊕ max_of stats.concentration_pct (of_nat 0) ⊗ decimal (pos 1) 1
      ⊕ max_of stats.scam_exposure_pct (of_nat 0) ⊗ decimal (pos 5) 1

  unfoldable pub score_of : WalletStats D T → SmartMoneyThresholds D → D
  score_of stats t =
      min_of
        (max_of (performance stats ⊖ penalties stats) (of_nat 0)
            ⊗ sample stats.trades t.qualified_trades
          ⊕ min_of (max_of stats.realized_pnl_usd (of_nat 0)) (of_nat 10))
        (of_nat 100)

  unfoldable pub score_wallet : WalletStats D T → SmartMoneyThresholds D → WalletStats D T
  score_wallet stats t = record stats {
    score = score_of stats t;
    tier = tier_of t stats.trades (score_of stats t);
  }
