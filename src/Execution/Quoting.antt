-- ===== src/Execution/Quoting.antt =====
-- execution/executor.rs: quotes, requests, the prices of fills, and what every executor offers.
use solana_bot.Prelude.{
  ℕ, Bool, Option, none, some, String, Result, ok, ok_or, ◌>>=◌, ◌>>◌, reject_if, checked_pow,
  u64_max,
}
use solana_bot.Prelude.Decimal.{Decimal, ◌⊗◌, ◌⊘◌, of_nat, leq}
use solana_bot.Domain.Trade.{Fill}

-- `J` stands for the JSON values of `serde_json`, which are only carried along.
pub record Quote (J T : Type 0) : Type 0 where
  pub input_mint : String
  pub output_mint : String
  pub input_amount : ℕ
  pub output_amount : ℕ
  pub price_impact_bps : ℕ
  pub route : J
  pub observed_at : T

pub data ValueBasis (D : Type 0) : Type 0 where
  input_value_usd : D → ValueBasis D
  output_unit_price_usd : D → ValueBasis D

pub record ExecutionRequest (J D T : Type 0) : Type 0 where
  pub order_id : String
  pub quote : Quote J T
  pub max_slippage_bps : ℕ
  pub max_price_impact_bps : ℕ
  pub min_output_amount : ℕ
  pub input_decimals : ℕ
  pub output_decimals : ℕ
  pub value_basis : ValueBasis D

pub data ExecutionError : Type 0 where
  no_quote : String → ExecutionError
  stale_quote invalid_quote : ExecutionError
  policy : String → ExecutionError
  unknown_outcome : Option String → String → ExecutionError
  transaction : String → ExecutionError
  unavailable : String → ExecutionError

-- What a call of `execute` reads from its surroundings: the clock at its start and at its end, and
-- a fresh identifier.
pub record Moment (T : Type 0) : Type 0 where
  pub started_at : T
  pub finished_at : T
  pub uuid : String

-- The trait `Executor`, over the state `S` behind `&self`.
pub record Executor (S J D T : Type 0) : Type 0 where
  pub quote : S → String → String → ℕ → ℕ → Result ExecutionError (Quote J T) × S
  pub execute : S → ExecutionRequest J D T → Moment T → Result ExecutionError (Fill D T) × S
  pub health : S → Result ExecutionError (Unit {0}) × S
  pub signer_pubkey : S → Option String
  pub is_live : S → Bool
  pub register_quote : S → Quote J T → S

module _ {D : Type 0} ⦃d : Decimal D⦄ where
  unfoldable pub units : ℕ → ℕ → Result ExecutionError D
  units amount decimals = do
    scale ← ok_or (checked_pow u64_max 10 decimals) (policy "decimals overflow")
    ok (of_nat amount ⊘ of_nat scale)

  -- The value and the price, from the units of both legs.
  unfoldable pub price_legs : ValueBasis D → D → D → Result ExecutionError (D × D)
  price_legs (input_value_usd v) input_units output_units = do
    reject_if (leq output_units (of_nat 0)) invalid_quote
    ok (v, v ⊘ output_units)
  price_legs (output_unit_price_usd p) input_units output_units = do
    reject_if (leq input_units (of_nat 0)) invalid_quote
    ok (output_units ⊗ p, output_units ⊗ p ⊘ input_units)

  unfoldable pub price_fill : ValueBasis D → ℕ → ℕ → ℕ → ℕ → Result ExecutionError (D × D)
  price_fill basis input_amount input_decimals output_amount output_decimals = do
    input_units ← units input_amount input_decimals
    output_units ← units output_amount output_decimals
    price_legs basis input_units output_units

  unfoldable pub fee_usd : ℕ → Option D → D
  fee_usd fee_lamports none = of_nat 0
  fee_usd fee_lamports (some p) = of_nat fee_lamports ⊘ of_nat 1_000_000_000 ⊗ p
