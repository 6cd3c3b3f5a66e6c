-- ===== src/SmartMoney/Tests.antt =====
-- Runs of smart_money/ at fixed-point decimals, and the theorems at those inputs.
use solana_bot.Prelude.{
  ℕ, ◌≡◌, refl, ◌↔◌, none, some, Option, String, IsIn, get_elem?, string_eq, length,
}
use solana_bot.Prelude.Int.{pos, ◌+ℤ◌, ◌-ℤ◌, ◌*ℤ◌, ◌/ℤ◌}
use solana_bot.Prelude.Decimal.{◌≼◌, of_nat}
use solana_bot.Prelude.Fixed.{
  Fixed, ticks, Instant, nanos, fixed_decimal, instant_chrono, Fixed-IsOrdered, Fixed-IsSigned,
}
use solana_bot.Domain.Wallet.{WalletStats, WalletTradeObservation, candidate, qualified, buy}
use solana_bot.SmartMoney.Classifier.{
  default_thresholds, sample, performance, penalties, score_of, score_wallet,
}
use solana_bot.SmartMoney.Tracker.{
  WalletTracker, new_tracker, upsert, observe, entity, distinct, is_relevant, is_eligible, eligible,
  qualified_consensus_at,
}
use solana_bot.SmartMoney.Score.{score_wallet_range}
use solana_bot.SmartMoney.Consensus.{IsBacked, consensus_distinct, consensus_iff}

-- The wallet of the tests of the classifier.
abbrev wallet : String → Option String → ℕ → WalletStats Fixed Instant
wallet name entity_id trades = record {
  wallet = name;
  entity_id = entity_id;
  realized_pnl_usd = ticks (pos 500_000);
  win_rate = ticks (pos 8_000);
  avg_return_pct = ticks (pos 150_000);
  median_return_pct = ticks (pos 100_000);
  max_drawdown_pct = ticks (pos 50_000);
  trades = trades;
  recent_return_pct = ticks (pos 120_000);
  concentration_pct = ticks (pos 100_000);
  scam_exposure_pct = ticks (pos 0);
  score = ticks (pos 0);
  tier = candidate;
  updated_at = nanos (pos 5);
  avg_win_pct = none;
  avg_loss_pct = none;
}

abbrev scored : WalletStats Fixed Instant
scored = score_wallet (wallet "x" none 50) default_thresholds

scored_tier : scored.tier ≡ qualified
unfolding score_wallet score_of performance penalties sample ◌+ℤ◌ ◌-ℤ◌ ◌*ℤ◌ ◌/ℤ◌
scored_tier = refl

abbrev seen : String → WalletTradeObservation Fixed Instant
seen name = record {
  wallet = name;
  mint = "m";
  side = buy;
  notional_usd = ticks (pos 10_000);
  observed_at = nanos (pos 7);
  received_at = nanos (pos 8);
  signature = "s";
}

-- Two linked wallets and one of its own.
abbrev tracker : WalletTracker Fixed Instant
tracker =
    observe
      (observe
        (observe
          (upsert
            (upsert (upsert (new_tracker default_thresholds) (wallet "a" (some "e") 50))
              (wallet "b" (some "e") 50))
            (wallet "c" none 50))
          (seen "a"))
        (seen "b"))
      (seen "c")

two_entities : length (qualified_consensus_at tracker "m" (nanos (pos 9)) (pos 100)) ≡ 2
unfolding qualified_consensus_at upsert observe score_wallet score_of performance penalties sample
    entity distinct is_relevant is_eligible eligible ◌+ℤ◌ ◌-ℤ◌ ◌*ℤ◌ ◌/ℤ◌
two_entities = refl

score_wallet_range_example : (of_nat 0 ≼ scored.score) × (scored.score ≼ of_nat 100)
score_wallet_range_example =
    score_wallet_range Fixed-IsOrdered Fixed-IsSigned (wallet "x" none 50) default_thresholds

abbrev linked : WalletStats Fixed Instant
linked = score_wallet (wallet "a" (some "e") 50) default_thresholds

linked_first :
    get_elem? (qualified_consensus_at tracker "m" (nanos (pos 9)) (pos 100)) 0 ≡ some linked
unfolding qualified_consensus_at upsert observe score_wallet score_of performance penalties sample
    entity distinct is_relevant is_eligible eligible ◌+ℤ◌ ◌-ℤ◌ ◌*ℤ◌ ◌/ℤ◌
linked_first = refl

consensus_distinct_example : ◌≡◌ {A = ℕ} 0 0
consensus_distinct_example =
    consensus_distinct tracker "m" (nanos (pos 9)) (pos 100) 0 0 linked linked linked_first
      linked_first refl

consensus_iff_example :
    ((w : WalletStats Fixed Instant) × IsIn w
        (qualified_consensus_at tracker "m" (nanos (pos 9)) (pos 100))
      × (entity w ≡ "e"))
    ↔ ((w : WalletStats Fixed Instant) × (o : WalletTradeObservation Fixed Instant) × IsIn o
          tracker.observations
        × IsBacked tracker.wallets "m" (nanos (pos 9)) (pos 100) o w
        × (entity w ≡ "e"))
consensus_iff_example = consensus_iff tracker "m" (nanos (pos 9)) (pos 100) "e"
