-- ===== src/Backtest/Tests.antt =====
-- Runs of backtest/split.rs at instants in nanoseconds, and the theorems at those inputs.
use solana_bot.Prelude.{is_none, false, true, ◌≤◌, ◌≡◌, refl, none, some, [], ◌∷◌, ok, err, ℕ, ◌*◌}
use solana_bot.Prelude.Int.{pos, ◌*ℤ◌, ◌/ℤ◌, ◌+ℤ◌, ◌-ℤ◌}
use solana_bot.Prelude.Fixed.{
  Fixed, ticks, fixed_decimal, Instant, nanos, instant_chrono, Instant-IsChronological,
}
use solana_bot.Backtest.Split.{
  train, validation, out_of_sample, SplitConfig, in_gap, validation_reversed, validate_boundaries,
  classify_split_with_exclusion, assign_splits,
}
use solana_bot.Backtest.Costs.{
  BacktestCostConfig, from_config, total_round_trip_cost, entry_costs, exit_costs,
  expected_failed_tx_cost,
}
use solana_bot.Backtest.Ambiguity.{PriceObservation, detect_ambiguity}
use solana_bot.Backtest.SplitLaws.{rank, classify_monotone, classify_after_train_end}

abbrev unset : BacktestCostConfig Fixed
unset = record {
  entry_swap_fee_bps = none;
  entry_priority_fee_usd = none;
  entry_slippage_bps = none;
  entry_price_impact_bps = none;
  exit_swap_fee_bps = none;
  exit_priority_fee_usd = none;
  exit_slippage_bps = none;
  exit_price_impact_bps = none;
  failed_tx_rate = none;
  failed_tx_cost_usd = none;
}

abbrev price : ℕ → Fixed
price n = ticks (pos (n * 10_000))

abbrev candle : ℕ → ℕ → PriceObservation Fixed Instant
candle low high = record {
  timestamp = nanos (pos 0);
  price_usd = price high;
  liquidity_usd = price 0;
  open_usd = none;
  high_usd = none;
  low_usd = some (price low);
  close_usd = none;
  volume = none;
}

abbrev at : ℕ → Instant
at n = nanos (pos n)

abbrev boundaries : SplitConfig Instant
boundaries = record {
  train_end = some (at 40);
  validation_start = some (at 60);
  validation_end = some (at 90);
  oos_start = some (at 100);
}

-- A signal in the gap before the last period is labelled as training data.
assigned :
    assign_splits (at 30 ∷ at 60 ∷ at 89 ∷ at 95 ∷ at 100 ∷ []) boundaries
    ≡ ok (train ∷ validation ∷ validation ∷ train ∷ out_of_sample ∷ [])
unfolding assign_splits validate_boundaries classify_split_with_exclusion
assigned = refl

excluded :
    classify_split_with_exclusion (at 95) boundaries
    ≡ (train, some (in_gap (at 95) (at 90) (at 100)))
unfolding classify_split_with_exclusion
excluded = refl

reversed :
    assign_splits [] (record boundaries { validation_start = some (at 90) })
    ≡ err (validation_reversed (at 90) (at 90))
unfolding assign_splits validate_boundaries
reversed = refl

kept_60 : (classify_split_with_exclusion (at 60) boundaries).1 ≡ none
unfolding classify_split_with_exclusion
kept_60 = refl

kept_100 : (classify_split_with_exclusion (at 100) boundaries).1 ≡ none
unfolding classify_split_with_exclusion
kept_100 = refl

classify_monotone_example :
    rank (classify_split_with_exclusion (at 60) boundaries).0
    ≤ rank (classify_split_with_exclusion (at 100) boundaries).0
classify_monotone_example =
    classify_monotone Instant-IsChronological boundaries (at 60) (at 100) refl kept_60 kept_100

valid : validate_boundaries boundaries ≡ ok tt
unfolding validate_boundaries
valid = refl

classify_after_train_end_example : classify_split_with_exclusion (at 50) boundaries ≡ (train, none)
classify_after_train_end_example =
    classify_after_train_end Instant-IsChronological boundaries (at 50) (at 40) (at 60) (at 90) refl
      refl refl valid refl refl

-- A trade of 100 dollars out and 200 dollars back under the default assumptions.
round_trip :
    total_round_trip_cost (from_config unset) (ticks (pos 1_000_000)) (ticks (pos 2_000_000))
    ≡ ticks (pos 30_042)
unfolding from_config total_round_trip_cost entry_costs exit_costs expected_failed_tx_cost ◌*ℤ◌ ◌/ℤ◌
    ◌+ℤ◌
round_trip = refl

-- A candle from 80 to 120 holds both levels of an entry at 100; candles at 100 hold neither.
ambiguous :
    is_none (detect_ambiguity (candle 100 100) (candle 80 120) (price 100) (price 10) (price 20))
    ≡ false
unfolding detect_ambiguity ◌*ℤ◌ ◌/ℤ◌ ◌+ℤ◌ ◌-ℤ◌
ambiguous = refl

ordered_levels :
    is_none (detect_ambiguity (candle 100 100) (candle 100 100) (price 100) (price 10) (price 20))
    ≡ true
unfolding detect_ambiguity ◌*ℤ◌ ◌/ℤ◌ ◌+ℤ◌ ◌-ℤ◌
ordered_levels = refl
