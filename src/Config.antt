-- ===== src/Config.antt =====
-- config/types.rs: the configuration that the modelled components read.
use solana_bot.Prelude.{ℕ, Option, String, List}
use solana_bot.Prelude.Int.{ℤ}

pub record RiskConfig (D : Type 0) : Type 0 where
  pub starting_capital_usd : D
  pub max_live_capital_usd : D
  pub max_concurrent_positions : ℕ
  pub max_position_percent_of_equity : D
  pub max_position_percent_of_liquidity : D
  pub max_risk_per_trade_percent : D
  pub max_daily_loss_percent : D
  pub max_total_drawdown_before_kill_switch_pct : D
  pub cooldown_after_loss_minutes : ℤ
  pub max_slippage_bps : ℕ
  pub min_liquidity_usd : D
  pub max_trades_per_day : ℕ
  pub max_consecutive_failures : ℕ

pub record StrategyConfig (D : Type 0) : Type 0 where
  pub base_mint : String
  pub min_wallet_score : D
  pub min_wallet_samples : ℕ
  pub min_consensus_wallets : ℕ
  pub min_signal_score : D
  pub min_token_age_secs : ℤ
  pub stop_loss_pct : D
  pub take_profit_pct : D
  pub trailing_stop_pct : D
  pub max_holding_minutes : ℤ

pub record EconomicsConfig (D : Type 0) : Type 0 where
  pub round_trip_cost_threshold_pct : D
  pub min_expected_net_return_pct : D
  pub max_quote_age_secs : ℤ
  pub uncertainty_haircut_pct : D
  pub sol_price_usd : Option D

pub record RpcConfig : Type 0 where
  pub http_endpoints : List String
  pub websocket_endpoints : List String
  pub max_data_age_secs : ℤ
  pub request_timeout_secs : ℕ
  pub max_attempts : ℕ
  pub unknown_after_secs : ℤ

pub record ExecutionConfig : Type 0 where
  pub slippage_bps : ℕ
  pub max_price_impact_bps : ℕ

pub record RuntimeConfig : Type 0 where
  pub quote_cache_ttl_secs : ℕ
  pub max_liquidity_age_secs : ℕ

-- The sections of `Config` that the modelled components read.
pub record Config (D : Type 0) : Type 0 where
  pub rpc : RpcConfig
  pub strategy : StrategyConfig D
  pub economics : EconomicsConfig D
  pub risk : RiskConfig D
  pub execution : ExecutionConfig
  pub runtime : RuntimeConfig
