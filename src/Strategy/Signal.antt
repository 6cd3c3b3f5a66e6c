-- ===== src/Strategy/Signal.antt =====
-- strategy/signal.rs: `evaluate_signal`, at the instant `now` and with the fresh identifier `id`.
use solana_bot.Prelude.{
  ℕ, ◌%◌, ◌^◌, Bool, false, not, ◌||◌, Option, none, some, List, [], ◌∷◌, map, String, ltb, min,
  any, length, unwrap_or, Result, ok, ◌>>◌, reject_if,
}
use solana_bot.Prelude.Int.{negsuc, ltb_ℤ}
use solana_bot.Prelude.Decimal.{
  Decimal, ◌⊕◌, ◌⊖◌, ◌⊗◌, ◌⊘◌, of_nat, decimal, leq, lss, min_of, clamp,
}
use solana_bot.Prelude.Chrono.{Chrono, before}
use solana_bot.Config.{Config}
use solana_bot.Economics.CostModel.{ExpectedValue}
use solana_bot.Domain.Wallet.{WalletStats, buy}
use solana_bot.Domain.Market.{MarketSnapshot, age_seconds, TokenSafety, SignalScore, TradeSignal}

-- `Rejected(…)`, by the text of the source, or `Accepted(…)`.
pub data SignalRejection : Type 0 where
  stale_or_future_market insufficient_liquidity unsafe_token insufficient_consensus :
      SignalRejection
  weak_wallet_evidence weak_economics no_wallets weak_signal : SignalRejection

-- `o == Some(true)`
abbrev pub is_true : Option Bool → Bool
is_true none = false
is_true (some b) = b

-- `min().unwrap_or(0)`
unfoldable pub least : List ℕ → ℕ
least [] = 0
least (n ∷ []) = n
least (n ∷ m ∷ rest) = min n (least (m ∷ rest))

module _ {D : Type 0} ⦃d : Decimal D⦄ where
  -- `sum::<Decimal>()` adds from the left, to zero.
  unfoldable pub sum_from : D → List D → D
  sum_from acc [] = acc
  sum_from acc (x ∷ xs) = sum_from (acc ⊕ x) xs

  abbrev pub sum : List D → D
  sum xs = sum_from (of_nat 0) xs

  abbrev pub total_score : SignalScore D → D
  total_score s =
      (s.wallet_score ⊕ s.consensus_score ⊕ s.liquidity_score ⊕ s.momentum_score ⊕ s.risk_score
        ⊕ s.economic_score)
      ⊘ of_nat 6

module _ {D T : Type 0} ⦃d : Decimal D⦄ where
  unfoldable pub is_unsafe : Config D → TokenSafety D T → Bool
  is_unsafe config safety =
      ltb_ℤ safety.token_age_secs config.strategy.min_token_age_secs
      || safety.mint_authority_present
      || safety.freeze_authority_present
      || lss (of_nat 70) safety.holder_top10_pct
      || not (is_true safety.sellable)
      || not (is_true safety.route_available)
      || is_true safety.creator_suspicious
      || is_true safety.abnormal_activity
      || lss (unwrap_or safety.liquidity_change_pct (of_nat 0)) (decimal (negsuc 19) 0)

  -- The score with its last field still zero.
  unfoldable pub part_scores :
      List (WalletStats D T) → MarketSnapshot D T → ExpectedValue D → D → SignalScore D
  part_scores wallets market expected count = record {
    wallet_score = sum (map (λ w. w.score) wallets) ⊘ count;
    wallet_sample_size = least (map (λ w. w.trades) wallets);
    wallet_recent_score = sum (map (λ w. w.recent_return_pct) wallets) ⊘ count;
    consensus_score = min_of (count ⊗ of_nat 20) (of_nat 100);
    liquidity_score = min_of (market.liquidity_usd ⊘ of_nat 10000 ⊗ of_nat 100) (of_nat 100);
    momentum_score = clamp (market.buy_sell_imbalance ⊗ of_nat 50) (of_nat 0) (of_nat 100);
    risk_score = of_nat 100 ⊖ min_of market.volatility_pct (of_nat 100);
    economic_score = min_of (expected.net_return_pct ⊗ of_nat 10) (of_nat 100);
    final_signal_score = of_nat 0;
  }

  unfoldable pub score_signal :
      List (WalletStats D T) → MarketSnapshot D T → ExpectedValue D → D → SignalScore D
  score_signal wallets market expected count =
      let parts = part_scores wallets market expected count in
      record parts { final_signal_score = total_score parts }

module _ {D T : Type 0} ⦃d : Decimal D⦄ ⦃c : Chrono T⦄ where
  abbrev pub is_stale : Config D → MarketSnapshot D T → TokenSafety D T → T → Bool
  is_stale config market safety now =
      before now market.observed_at
      || before now safety.observed_at
      || ltb_ℤ config.rpc.max_data_age_secs (age_seconds market now)

  abbrev pub is_weak : Config D → T → WalletStats D T → Bool
  is_weak config now w =
      ltb w.trades config.strategy.min_wallet_samples
      || lss w.score config.strategy.min_wallet_score
      || before now w.updated_at

  unfoldable pub evaluate_signal :
      Config D
      → String
      → List (WalletStats D T)
      → MarketSnapshot D T
      → TokenSafety D T
      → ExpectedValue D
      → T
      → String
      → Result SignalRejection (TradeSignal D T)
  evaluate_signal config mint wallets market safety expected now id = do
    reject_if (is_stale config market safety now) stale_or_future_market
    reject_if (lss market.liquidity_usd config.risk.min_liquidity_usd) insufficient_liquidity
    reject_if (is_unsafe config safety) unsafe_token
    reject_if (ltb (length wallets) config.strategy.min_consensus_wallets) insufficient_consensus
    reject_if (any (is_weak config now) wallets) weak_wallet_evidence
    reject_if (lss expected.net_return_pct config.economics.min_expected_net_return_pct)
        weak_economics
    let count = of_nat (length wallets % 2 ^ 32)
    reject_if (leq count (of_nat 0)) no_wallets
    let score = score_signal wallets market expected count
    reject_if (lss score.final_signal_score config.strategy.min_signal_score) weak_signal
    ok (record {
      id = id;
      mint = mint;
      wallets = map (λ w. w.wallet) wallets;
      side = buy;
      score = score;
      expected_gross_return_pct = expected.gross_return_pct;
      created_at = now;
      reason = "qualified-wallet accumulation with liquid safe market";
    })
