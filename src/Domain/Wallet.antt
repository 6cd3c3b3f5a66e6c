-- ===== src/Domain/Wallet.antt =====
-- domain/wallet.rs.
use solana_bot.Prelude.{ℕ, Option, String}

pub data WalletTier : Type 0 where
  candidate observed qualified high_confidence : WalletTier

pub data Side : Type 0 where
  buy sell : Side

pub record WalletStats (D T : Type 0) : Type 0 where
  pub wallet : String
  pub entity_id : Option String
  pub realized_pnl_usd : D
  pub win_rate : D
  pub avg_return_pct : D
  pub median_return_pct : D
  pub max_drawdown_pct : D
  pub trades : ℕ
  pub recent_return_pct : D
  pub concentration_pct : D
  pub scam_exposure_pct : D
  pub score : D
  pub tier : WalletTier
  pub updated_at : T
  pub avg_win_pct : Option D
  pub avg_loss_pct : Option D

pub record WalletTradeObservation (D T : Type 0) : Type 0 where
  pub wallet : String
  pub mint : String
  pub side : Side
  pub notional_usd : D
  pub observed_at : T
  pub received_at : T
  pub signature : String
