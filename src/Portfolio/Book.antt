-- ===== src/Portfolio/Book.antt =====
-- portfolio/mod.rs: the data of `Portfolio`, its queries and `apply_entry`. The map from mints to positions is an association
-- list; the text of an error message is a constructor.
use solana_bot.Prelude.{
  ℕ, ◌^◌, ◌%◌, Bool, false, Option, none, some, List, [], ◌∷◌, String, if◌then◌else◌, nat_beq,
  Result, ok, err, unwrap_or, saturating_add, checked_add, u64_max, max,
}
use solana_bot.Prelude.Decimal.{Decimal, ◌⊕◌, ◌⊖◌, ◌⊗◌, ◌⊘◌, of_nat, lss, negate, max_of}
use solana_bot.Prelude.Map.{lookup, insert}
use solana_bot.Prelude.{string_eq}
use solana_bot.Economics.CostModel.{CostModel}
use solana_bot.Domain.Trade.{Fill}
use solana_bot.Domain.Position.{Position, opened, reconciled, adjusted_on_chain, is_open}

pub record ExitOutcome (D : Type 0) : Type 0 where
  pub realized_pnl_usd : D
  pub closed_out : Bool

pub data PortfolioError : Type 0 where
  zero_fill no_entry_value no_position unknown_remaining no_proceeds no_cost_basis zero_quantity :
      PortfolioError
  oversold : (sold remaining : ℕ) → PortfolioError
  decimals_mismatch : (recorded : Option ℕ) (chain : ℕ) → PortfolioError

abbrev pub Portfolio : Type 0 → Type 0 → Type 0
Portfolio D T = List (String × Position D T)

module _ {D T : Type 0} where
  abbrev pub position : Portfolio D T → String → Option (Position D T)
  position pf mint = lookup mint pf

  -- `open_positions`
  unfoldable pub open_positions : Portfolio D T → List (Position D T)
  open_positions [] = []
  open_positions ((k, p) ∷ pf) = if is_open p then p ∷ open_positions pf else open_positions pf

  -- `sync_position`
  abbrev pub sync_position : Portfolio D T → Position D T → Portfolio D T
  sync_position pf p = insert p.mint p pf

  unfoldable pub load : Portfolio D T → List (Position D T) → Portfolio D T
  load pf [] = pf
  load pf (p ∷ stored) = load (sync_position pf p) stored

-- The arguments of `apply_entry` beside the portfolio and the fill.
pub record EntryTerms (D T : Type 0) : Type 0 where
  pub mint : String
  pub base_mint : String
  pub token_decimals : ℕ
  pub base_mint_decimals : ℕ
  pub position_id : String
  pub price : D
  pub signal_id : String
  pub cost_model : CostModel D T

-- `and_then(|v| v.checked_add(n))`
abbrev pub add_known : Option ℕ → ℕ → Option ℕ
add_known none n = none
add_known (some v) n = checked_add u64_max v n

-- `known == Some(n)`
abbrev pub eq_known : Option ℕ → ℕ → Bool
eq_known none n = false
eq_known (some m) n = nat_beq m n

module _ {D : Type 0} ⦃d : Decimal D⦄ where
  -- `base_units > 0` guards the division; `10u64.pow` wraps around.
  unfoldable pub base_price : D → ℕ → ℕ → Option D
  base_price value input_amount base_decimals =
      let base_units = of_nat input_amount ⊘ of_nat (10 ^ base_decimals % 2 ^ 64) in
      if lss (of_nat 0) base_units then some (value ⊘ base_units) else none

module _ {D T : Type 0} ⦃d : Decimal D⦄ where
  -- The closure of `and_modify`.
  unfoldable pub grow : Position D T → Fill D T → D → D → Position D T
  grow p fill price value =
      let q = of_nat fill.output_amount in
      let total = p.quantity ⊕ q in
      let entry_price = (p.entry_price_usd ⊗ p.quantity ⊕ price ⊗ q) ⊘ total in
      let fees = p.fees_usd ⊕ fill.fees_usd in
      record p {
        entry_price_usd = entry_price;
        quantity = total;
        remaining_quantity_atomic =
            some
              (saturating_add u64_max (unwrap_or p.remaining_quantity_atomic 0) fill.output_amount);
        entry_cost_usd = some (unwrap_or p.entry_cost_usd (of_nat 0) ⊕ value);
        high_water_price_usd = max_of p.high_water_price_usd price;
        fees_usd = fees;
        entry_fees_usd = some (unwrap_or p.entry_fees_usd (of_nat 0) ⊕ fill.fees_usd);
        current_value_usd = price ⊗ total;
        unrealized_pnl_usd = (price ⊖ entry_price) ⊗ total ⊖ fees;
        entry_input_amount_atomic = add_known p.entry_input_amount_atomic fill.input_amount;
        entry_output_amount_atomic = add_known p.entry_output_amount_atomic fill.output_amount;
        entry_slippage_bps = some (max (unwrap_or p.entry_slippage_bps 0) fill.slippage_bps);
        state = opened;
        reconciliation_status = adjusted_on_chain;
      }

  -- The value of `or_insert`.
  unfoldable pub fresh : EntryTerms D T → Fill D T → D → Position D T
  fresh e fill value =
      let q = of_nat fill.output_amount in
      record {
        mint = e.mint;
        position_id = some e.position_id;
        token_mint = some e.mint;
        base_mint = some e.base_mint;
        entry_input_amount_atomic = some fill.input_amount;
        entry_output_amount_atomic = some fill.output_amount;
        token_decimals = some e.token_decimals;
        base_mint_decimals = some e.base_mint_decimals;
        entry_fees_usd = some fill.fees_usd;
        entry_slippage_bps = some fill.slippage_bps;
        entry_cost_model = some e.cost_model;
        quantity = q;
        remaining_quantity_atomic = some fill.output_amount;
        entry_cost_usd = some value;
        base_entry_price_usd = base_price value fill.input_amount e.base_mint_decimals;
        state = opened;
        reconciliation_status = reconciled;
        last_reconciled_at = some fill.confirmed_at;
        exit_signature = none;
        exit_fees_usd = none;
        exit_time = none;
        entry_price_usd = e.price;
        entry_time = fill.confirmed_at;
        entry_signature = fill.signature;
        high_water_price_usd = e.price;
        realized_pnl_usd = of_nat 0;
        unrealized_pnl_usd = negate fill.fees_usd;
        fees_usd = fill.fees_usd;
        current_value_usd = e.price ⊗ q;
        signal_id = e.signal_id;
        exit_reason = none;
      }

  abbrev pub entered : Option (Position D T) → EntryTerms D T → Fill D T → D → Position D T
  entered (some p) e fill value = grow p fill e.price value
  entered none e fill value = fresh e fill value

  unfoldable pub apply_entry :
      Portfolio D T → EntryTerms D T → Fill D T → Result PortfolioError (Unit {0}) × Portfolio D T
  apply_entry pf e fill =
      if nat_beq fill.output_amount 0 then (err zero_fill, pf) else elim (fill.input_value_usd) [
        | none ↦ (err no_entry_value, pf)
        | some value ↦ (ok tt, insert e.mint (entered (lookup e.mint pf) e fill value) pf)
      ]
