-- ===== src/Runtime/Record.antt =====
-- runtime.rs: the pricing and the booking of what the chain says of an order.
use solana_bot.Prelude.{
  ℕ, Option, none, some, List, [], ◌∷◌, String, Result, ok, err, ok_or, ◌>>=◌, if◌then◌else◌,
  unwrap_or, u32_max, u64_max, string_eq,
}
use solana_bot.Prelude.Decimal.{Decimal}
use solana_bot.Economics.CostModel.{CostModel}
use solana_bot.Domain.Trade.{Fill, OrderKind, entry, OrderRecord, OrderState, transition}
use solana_bot.Domain.Position.{Position}
use solana_bot.Execution.{ValueBasis, input_value_usd, output_unit_price_usd, price_fill, fee_usd}
use solana_bot.Portfolio.{Portfolio, PortfolioError, apply_entry, apply_exit}
use solana_bot.Storage.{key_eq}
use solana_bot.Chain.{ChainSwapOutcome}
use solana_bot.Runtime.Types.{Failure, accounting, illegal, no_base_mint_failure, same_id}
use solana_bot.Runtime.Exit.{ok_only}

-- The clock, and the identifier for an order without one.
pub record RecordTimes (T : Type 0) : Type 0 where
  pub confirmed_at : T
  pub written : T
  pub fallback_id : String

module _ {D T : Type 0} where
  abbrev pub find_id : String → List (Position D T) → Option (Position D T)
  find_id id [] = none
  find_id id (p ∷ ps) = if same_id p.position_id (some id) then some p else find_id id ps

  abbrev pub basis_of : OrderKind → D → Position D T → Option (ValueBasis D)
  basis_of entry value p = some (input_value_usd value)
  basis_of _ value p = elim (p.base_entry_price_usd) [
    | none ↦ none
    | some price ↦ some (output_unit_price_usd price)
  ]

-- The decimals of the input and of the output.
abbrev pub leg_decimals : OrderKind → ℕ → ℕ → ℕ × ℕ
leg_decimals entry token base = (base, token)
leg_decimals _ token base = (token, base)

-- What the order and its position say about the fill.
pub record Priced (D : Type 0) : Type 0 where
  pub token_decimals : ℕ
  pub base_decimals : ℕ
  pub value_usd : D
  pub price_usd : D

module _ {D T : Type 0} ⦃d : Decimal D⦄ where
  -- `None` where the accounting cannot be completed.
  unfoldable pub price_reconciled :
      OrderRecord D T → Position D T → ChainSwapOutcome → Option (Priced D)
  price_reconciled order p outcome = ok_only (do
    value ← ok_or order.input_value_usd tt
    token_decimals ← ok_or p.token_decimals tt
    base_decimals ← ok_or p.base_mint_decimals tt
    basis ← ok_or (basis_of order.kind value p) tt
    (value_usd, price_usd) ←
        ok_or
          (ok_only (
            price_fill basis outcome.input_amount
              (leg_decimals order.kind token_decimals base_decimals).0 outcome.output_amount
              (leg_decimals order.kind token_decimals base_decimals).1))
          tt
    ok (record {
      token_decimals = token_decimals;
      base_decimals = base_decimals;
      value_usd = value_usd;
      price_usd = price_usd;
    }))

  -- The slippage and the latency are the largest values, which stand for "not measured".
  unfoldable pub reconciled_fill :
      OrderRecord D T → ChainSwapOutcome → String → Priced D → Option D → T → Fill D T
  reconciled_fill order outcome signature priced sol_price_usd now = record {
    order_id = order.id;
    signature = signature;
    input_amount = outcome.input_amount;
    output_amount = outcome.output_amount;
    price_usd = priced.price_usd;
    fees_usd = fee_usd outcome.fee_lamports sol_price_usd;
    slippage_bps = u32_max;
    confirmed_at = now;
    latency_ms = u64_max;
    fee_lamports = outcome.fee_lamports;
    input_value_usd = some priced.value_usd;
    expected_output_amount = none;
  }

module _ {D T : Type 0} where
  -- The signature, the error and the step of an order, in a closure.
  unfoldable pub stepped : OrderRecord D T → OrderState → Result Failure (OrderRecord D T)
  stepped o next = elim ((transition o next).0) [
    | ok _ ↦ ok (transition o next).1
    | err e ↦ err (illegal e)
  ]

  abbrev pub booked_or :
      {A : Type 0} → Result PortfolioError A × Portfolio D T → Result Failure (Portfolio D T)
  booked_or (ok a, pf) = ok pf
  booked_or (err e, pf) = err (accounting e)

-- How a fill is booked; an entry without a cost model is only recorded.
pub data Booking (D T : Type 0) : Type 0 where
  book_entry : CostModel D T → Booking D T
  book_exit audit_only : Booking D T

abbrev pub booking_of : {D T : Type 0} → OrderKind → Option (CostModel D T) → Booking D T
booking_of entry none = audit_only
booking_of entry (some costs) = book_entry costs
booking_of _ costs = book_exit

abbrev pub no_cost_model : String
no_cost_model = "entry order has no cost model; fill recorded but accounting cannot be completed"

module _ {D T : Type 0} ⦃d : Decimal D⦄ where
  unfoldable pub book :
      OrderRecord D T
      → Position D T
      → Priced D
      → Fill D T
      → RecordTimes T
      → Booking D T
      → Portfolio D T
      → Result Failure (Portfolio D T)
  book order p priced fill times (book_entry costs) pf = elim (p.base_mint) [
    | none ↦ err no_base_mint_failure
    | some base_mint ↦ booked_or (
        apply_entry pf
          (record {
            mint = order.mint;
            base_mint = base_mint;
            token_decimals = priced.token_decimals;
            base_mint_decimals = priced.base_decimals;
            position_id = unwrap_or order.position_id times.fallback_id;
            price = priced.price_usd;
            signal_id = order.signal_id;
            cost_model = costs;
          })
          fill)
  ]
  book order p priced fill times _ pf =
      booked_or
        (apply_exit pf order.mint fill (unwrap_or order.error "reconciled") times.confirmed_at)
