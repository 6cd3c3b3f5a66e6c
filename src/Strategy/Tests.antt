-- ===== src/Strategy/Tests.antt =====
-- Runs of strategy/ at fixed-point decimals, and the theorems at those inputs.
use solana_bot.Prelude.{
  ℕ, ◌≤◌, ◌≡◌, refl, ◌↔◌, Bool, true, false, Option, none, some, List, [], ◌∷◌, String, ok, All,
}
use solana_bot.Prelude.Int.{pos, ◌+ℤ◌, ◌-ℤ◌, ◌*ℤ◌, ◌/ℤ◌}
use solana_bot.Prelude.Decimal.{of_nat, ◌≼◌}
use solana_bot.Prelude.Fixed.{
  Fixed, ticks, fixed_decimal, Instant, nanos, instant_chrono, Fixed-IsOrdered,
}
use solana_bot.Config.{Config, StrategyConfig}
use solana_bot.Economics.CostModel.{ExpectedValue}
use solana_bot.Domain.Position.{Position, opened, reconciled}
use solana_bot.Domain.Wallet.{WalletStats, qualified, buy}
use solana_bot.Domain.Market.{MarketSnapshot, age_seconds, TokenSafety, TradeSignal}
use solana_bot.Strategy.Exit.{
  ExitReason, stop_loss, take_profit, trailing_stop, liquidity_deterioration, exit_reason,
}
use solana_bot.Strategy.ExitLaws.{IsKept, exit_reason-none_iff, Justifies, exit_reason-Justifies}
use solana_bot.Strategy.Signal.{
  least, sum_from, is_unsafe, part_scores, score_signal, evaluate_signal,
}
use solana_bot.Strategy.SignalLaws.{
  IsStrong, IsQualified, evaluate_signal_gates, evaluate_signal_scores,
}

abbrev num : ℕ → Fixed
num n = ticks (pos n)

abbrev strategy : StrategyConfig Fixed
strategy = record {
  base_mint = "sol";
  min_wallet_score = num 600_000;
  min_wallet_samples = 20;
  min_consensus_wallets = 2;
  min_signal_score = num 400_000;
  min_token_age_secs = pos 3600;
  stop_loss_pct = num 100_000;
  take_profit_pct = num 200_000;
  trailing_stop_pct = num 80_000;
  max_holding_minutes = pos 60;
}

abbrev config : Config Fixed
config = record {
  rpc = record {
    http_endpoints = "x" ∷ [];
    websocket_endpoints = [];
    max_data_age_secs = pos 15;
    request_timeout_secs = 8;
    max_attempts = 2;
    unknown_after_secs = pos 180;
  };
  strategy = strategy;
  economics = record {
    round_trip_cost_threshold_pct = num 80_000;
    min_expected_net_return_pct = num 10_000;
    max_quote_age_secs = pos 10;
    uncertainty_haircut_pct = num 0;
    sol_price_usd = none;
  };
  risk = record {
    starting_capital_usd = num 1_000_000;
    max_live_capital_usd = num 500_000;
    max_concurrent_positions = 2;
    max_position_percent_of_equity = num 200_000;
    max_position_percent_of_liquidity = num 10_000;
    max_risk_per_trade_percent = num 20_000;
    max_daily_loss_percent = num 50_000;
    max_total_drawdown_before_kill_switch_pct = num 200_000;
    cooldown_after_loss_minutes = pos 30;
    max_slippage_bps = 100;
    min_liquidity_usd = num 100_000_000;
    max_trades_per_day = 10;
    max_consecutive_failures = 3;
  };
  execution = record { slippage_bps = 50; max_price_impact_bps = 300 };
  runtime = record { quote_cache_ttl_secs = 30; max_liquidity_age_secs = 300 };
}

abbrev holding : Position Fixed Instant
holding = record {
  mint = "m";
  position_id = some "p";
  token_mint = some "m";
  base_mint = some "sol";
  entry_input_amount_atomic = some 100;
  entry_output_amount_atomic = some 10;
  token_decimals = some 0;
  base_mint_decimals = some 2;
  entry_fees_usd = some (num 0);
  entry_slippage_bps = some 0;
  entry_cost_model = none;
  quantity = num 100_000;
  remaining_quantity_atomic = some 10;
  entry_cost_usd = some (num 1_000_000);
  base_entry_price_usd = some (num 10_000);
  state = opened;
  reconciliation_status = reconciled;
  last_reconciled_at = none;
  exit_signature = none;
  exit_fees_usd = none;
  exit_time = none;
  entry_price_usd = num 1_000_000;
  entry_time = nanos (pos 0);
  entry_signature = "sig";
  high_water_price_usd = num 1_050_000;
  realized_pnl_usd = num 0;
  unrealized_pnl_usd = num 0;
  fees_usd = num 0;
  current_value_usd = num 1_000_000;
  signal_id = "s";
  exit_reason = none;
}

abbrev exit_at : Fixed → Option Fixed → Bool → Option ExitReason
exit_at price liquidity invalidated =
    exit_reason holding price liquidity (num 500) invalidated (nanos (pos 0)) strategy

exits :
    (exit_at (num 1_000_000) (some (num 900)) false ≡ none)
    × (exit_at (num 900_000) (some (num 900)) false ≡ some stop_loss)
    × (exit_at (num 1_200_000) (some (num 900)) false ≡ some take_profit)
    × (exit_at (num 960_000) (some (num 900)) false ≡ some trailing_stop)
    × (exit_at (num 1_000_000) none false ≡ some liquidity_deterioration)
unfolding exit_reason ◌-ℤ◌ ◌*ℤ◌ ◌/ℤ◌
exits = (refl, refl, refl, refl, refl)

exit_reason-none_iff_example :
    (exit_reason holding (num 1_000_000) (some (num 900)) (num 500) false (nanos (pos 0)) strategy
      ≡ none)
    ↔ IsKept holding (num 1_000_000) (some (num 900)) (num 500) false (nanos (pos 0)) strategy
exit_reason-none_iff_example =
    exit_reason-none_iff holding (num 1_000_000) (some (num 900)) (num 500) false (nanos (pos 0))
      strategy

exit_reason-Justifies_example :
    (exit_reason holding (num 900_000) (some (num 900)) (num 500) false (nanos (pos 0)) strategy
      ≡ some stop_loss)
    ↔ Justifies holding
        (num 900_000)
        (some (num 900))
        (num 500)
        false
        (nanos (pos 0))
        strategy
        stop_loss
exit_reason-Justifies_example =
    exit_reason-Justifies holding (num 900_000) (some (num 900)) (num 500) false (nanos (pos 0))
      strategy stop_loss

abbrev wallet : String → WalletStats Fixed Instant
wallet name = record {
  wallet = name;
  entity_id = none;
  realized_pnl_usd = num 500_000;
  win_rate = num 8_000;
  avg_return_pct = num 150_000;
  median_return_pct = num 100_000;
  max_drawdown_pct = num 50_000;
  trades = 30;
  recent_return_pct = num 120_000;
  concentration_pct = num 100_000;
  scam_exposure_pct = num 0;
  score = num 650_000;
  tier = qualified;
  updated_at = nanos (pos 0);
  avg_win_pct = none;
  avg_loss_pct = none;
}

abbrev wallets : List (WalletStats Fixed Instant)
wallets = wallet "a" ∷ wallet "b" ∷ []

abbrev market : MarketSnapshot Fixed Instant
market = record {
  mint = "m";
  price_usd = num 10_000;
  liquidity_usd = num 200_000_000;
  volume_24h_usd = num 1_000_000_000;
  volatility_pct = num 100_000;
  buy_sell_imbalance = num 10_000;
  observed_at = nanos (pos 0);
  received_at = nanos (pos 0);
  slot = none;
  price_impact_bps = none;
}

abbrev safety : TokenSafety Fixed Instant
safety = record {
  mint_authority_present = false;
  freeze_authority_present = false;
  holder_top10_pct = num 300_000;
  token_age_secs = pos 7200;
  liquidity_locked_or_burned = none;
  sellable = some true;
  route_available = some true;
  creator_suspicious = some false;
  abnormal_activity = none;
  liquidity_change_pct = none;
  observed_at = nanos (pos 0);
}

abbrev expected : ExpectedValue Fixed
expected = record {
  gross_return_pct = num 100_000;
  trading_fees_pct = num 0;
  priority_and_network_pct = num 0;
  slippage_pct = num 0;
  price_impact_pct = num 0;
  failed_transaction_pct = num 0;
  adverse_selection_pct = num 0;
  expected_exit_cost_pct = num 0;
  uncertainty_haircut_pct = num 0;
  net_return_pct = num 50_000;
}

abbrev accepted : TradeSignal Fixed Instant
accepted = record {
  id = "id";
  mint = "m";
  wallets = "a" ∷ "b" ∷ [];
  side = buy;
  score = record {
    wallet_score = num 650_000;
    wallet_sample_size = 30;
    wallet_recent_score = num 120_000;
    consensus_score = num 400_000;
    liquidity_score = num 1_000_000;
    momentum_score = num 500_000;
    risk_score = num 900_000;
    economic_score = num 500_000;
    final_signal_score = num 658_333;
  };
  expected_gross_return_pct = num 100_000;
  created_at = nanos (pos 0);
  reason = "qualified-wallet accumulation with liquid safe market";
}

run_accepted :
    evaluate_signal config "m" wallets market safety expected (nanos (pos 0)) "id" ≡ ok accepted
unfolding evaluate_signal age_seconds is_unsafe score_signal part_scores least sum_from ◌+ℤ◌ ◌-ℤ◌
    ◌*ℤ◌ ◌/ℤ◌
run_accepted = refl

evaluate_signal_gates_example :
    IsQualified config wallets market safety expected (nanos (pos 0)) accepted
    × All (IsStrong config (nanos (pos 0))) wallets
evaluate_signal_gates_example =
    evaluate_signal_gates config "m" wallets market safety expected (nanos (pos 0)) "id" accepted
      run_accepted

evaluate_signal_scores_example :
    (num 400_000 ≼ of_nat 100)
    × (num 1_000_000 ≼ of_nat 100)
    × (of_nat 0 ≼ num 500_000)
    × (num 500_000 ≼ of_nat 100)
    × (num 500_000 ≼ of_nat 100)
    × All (λ w. 30 ≤ w.trades) wallets
evaluate_signal_scores_example =
    evaluate_signal_scores Fixed-IsOrdered config "m" wallets market safety expected (nanos (pos 0))
      "id" accepted run_accepted
