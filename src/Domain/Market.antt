-- ===== src/Domain/Market.antt =====
-- domain/market.rs, domain/token.rs and domain/signal.rs.
use solana_bot.Prelude.{ℕ, Bool, Option, List, String}
use solana_bot.Prelude.Int.{ℤ}
use solana_bot.Prelude.Chrono.{Chrono, since}
use solana_bot.Domain.Wallet.{Side}

pub record MarketSnapshot (D T : Type 0) : Type 0 where
  pub mint : String
  pub price_usd : D
  pub liquidity_usd : D
  pub volume_24h_usd : D
  pub volatility_pct : D
  pub buy_sell_imbalance : D
  pub observed_at : T
  pub received_at : T
  pub slot : Option ℕ
  pub price_impact_bps : Option ℕ

unfoldable pub age_seconds : {D T : Type 0} ⦃c : Chrono T⦄ → MarketSnapshot D T → T → ℤ
age_seconds ⦃c⦄ m now = c.num_seconds (since now m.observed_at)

pub record TokenSafety (D T : Type 0) : Type 0 where
  pub mint_authority_present : Bool
  pub freeze_authority_present : Bool
  pub holder_top10_pct : D
  pub token_age_secs : ℤ
  pub liquidity_locked_or_burned : Option Bool
  pub sellable : Option Bool
  pub route_available : Option Bool
  pub creator_suspicious : Option Bool
  pub abnormal_activity : Option Bool
  pub liquidity_change_pct : Option D
  pub observed_at : T

pub record SignalScore (D : Type 0) : Type 0 where
  pub wallet_score : D
  pub wallet_sample_size : ℕ
  pub wallet_recent_score : D
  pub consensus_score : D
  pub liquidity_score : D
  pub momentum_score : D
  pub risk_score : D
  pub economic_score : D
  pub final_signal_score : D

pub record TradeSignal (D T : Type 0) : Type 0 where
  pub id : String
  pub mint : String
  pub wallets : List String
  pub side : Side
  pub score : SignalScore D
  pub expected_gross_return_pct : D
  pub created_at : T
  pub reason : String
