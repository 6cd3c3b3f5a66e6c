-- ===== src/Domain/Position.antt =====
-- domain/position.rs.
use solana_bot.Prelude.{ℕ, Bool, true, false, Option, none, String, if◌then◌else◌, unwrap_or, not}
use solana_bot.Economics.CostModel.{CostModel}

pub data PositionState : Type 0 where
  opened closed : PositionState

pub data ReconciliationStatus : Type 0 where
  unverified reconciled adjusted_on_chain mismatch closed_on_chain : ReconciliationStatus

unfoldable pub quantity_is_trusted : ReconciliationStatus → Bool
quantity_is_trusted reconciled = true
quantity_is_trusted adjusted_on_chain = true
quantity_is_trusted _ = false

pub record Position (D T : Type 0) : Type 0 where
  pub mint : String
  pub position_id : Option String
  pub token_mint : Option String
  pub base_mint : Option String
  pub entry_input_amount_atomic : Option ℕ
  pub entry_output_amount_atomic : Option ℕ
  pub token_decimals : Option ℕ
  pub base_mint_decimals : Option ℕ
  pub entry_fees_usd : Option D
  pub entry_slippage_bps : Option ℕ
  pub entry_cost_model : Option (CostModel D T)
  pub quantity : D
  pub remaining_quantity_atomic : Option ℕ
  pub entry_cost_usd : Option D
  pub base_entry_price_usd : Option D
  pub state : PositionState
  pub reconciliation_status : ReconciliationStatus
  pub last_reconciled_at : Option T
  pub exit_signature : Option String
  pub exit_fees_usd : Option D
  pub exit_time : Option T
  pub entry_price_usd : D
  pub entry_time : T
  pub entry_signature : String
  pub high_water_price_usd : D
  pub realized_pnl_usd : D
  pub unrealized_pnl_usd : D
  pub fees_usd : D
  pub current_value_usd : D
  pub signal_id : String
  pub exit_reason : Option String

abbrev pub is_opened : PositionState → Bool
is_opened opened = true
is_opened closed = false

module _ {D T : Type 0} where
  unfoldable pub position_id_or_new : Position D T → String
  position_id_or_new p = unwrap_or p.position_id ""

  abbrev pub is_open : Position D T → Bool
  is_open p = is_opened p.state

  unfoldable pub trusted_remaining : Position D T → Option ℕ
  unfolding quantity_is_trusted
  trusted_remaining p =
      if not (is_open p)
      then none
      else if not (quantity_is_trusted p.reconciliation_status)
      then none
      else p.remaining_quantity_atomic
