-- ===== src/Portfolio/Unwind.antt =====
-- portfolio/mod.rs: `apply_exit`, `mark_to_market` and `reconcile_with_chain`. Each works on the one
-- position that the mint names, and then writes it back.
use solana_bot.Prelude.{
  ℕ, Bool, true, false, not, none, some, String, if◌then◌else◌, nat_beq, Result, ok, err, unwrap_or,
  checked_sub,
}
use solana_bot.Prelude.Decimal.{Decimal, ◌⊕◌, ◌⊖◌, ◌⊗◌, ◌⊘◌, of_nat, same, max_of}
use solana_bot.Prelude.Map.{lookup, insert}
use solana_bot.Prelude.{string_eq}
use solana_bot.Domain.Trade.{Fill}
use solana_bot.Domain.Position.{
  Position, closed, reconciled, adjusted_on_chain, closed_on_chain, is_open,
}
use solana_bot.Portfolio.Book.{
  ExitOutcome, PortfolioError, no_position, unknown_remaining, no_proceeds, no_cost_basis,
  zero_quantity, oversold, decimals_mismatch, Portfolio, eq_known,
}

module _ {D T : Type 0} ⦃d : Decimal D⦄ where
  -- The assignments of `apply_exit` once its checks have passed.
  unfoldable pub sell_down : Position D T → Fill D T → String → T → ℕ → D → Position D T
  sell_down p fill reason now left realized =
      let sold = record p {
        remaining_quantity_atomic = some left;
        realized_pnl_usd = p.realized_pnl_usd ⊕ realized;
        fees_usd = p.fees_usd ⊕ fill.fees_usd;
        exit_fees_usd = some (unwrap_or p.exit_fees_usd (of_nat 0) ⊕ fill.fees_usd);
        high_water_price_usd = max_of p.high_water_price_usd fill.price_usd;
        current_value_usd = fill.price_usd ⊗ of_nat left;
      } in
      if nat_beq left 0
      then record sold {
        state = closed;
        exit_reason = some reason;
        exit_signature = some fill.signature;
        exit_time = some now;
        unrealized_pnl_usd = of_nat 0;
      }
      else sold

  -- `apply_exit` on a position: the error, or the position and the outcome.
  unfoldable pub exit_position :
      Position D T → Fill D T → String → T → Result PortfolioError (Position D T × ExitOutcome D)
  exit_position p fill reason now = elim (p.remaining_quantity_atomic) [
    | none ↦ err unknown_remaining
    | some remaining ↦ elim (checked_sub remaining fill.input_amount) [
      | none ↦ err (oversold fill.input_amount remaining)
      | some left ↦ elim (fill.input_value_usd) [
        | none ↦ err no_proceeds
        | some proceeds ↦ elim (p.entry_cost_usd) [
          | none ↦ err no_cost_basis
          | some entry_cost ↦
              if same p.quantity (of_nat 0)
              then err zero_quantity
              else let cost_of_sold = entry_cost ⊗ of_nat fill.input_amount ⊘ p.quantity in
                let realized = proceeds ⊖ cost_of_sold ⊖ fill.fees_usd in
                ok (
                  sell_down p fill reason now left realized,
                  record { realized_pnl_usd = realized; closed_out = nat_beq left 0 },
                )
        ]
      ]
    ]
  ]

  -- The position is written back where the checks passed.
  abbrev pub commit :
      Portfolio D T
      → String
      → Result PortfolioError (Position D T × ExitOutcome D)
      → Result PortfolioError (ExitOutcome D) × Portfolio D T
  commit pf mint (ok (p, outcome)) = (ok outcome, insert mint p pf)
  commit pf mint (err e) = (err e, pf)

  unfoldable pub apply_exit :
      Portfolio D T
      → String
      → Fill D T
      → String
      → T
      → Result PortfolioError (ExitOutcome D) × Portfolio D T
  apply_exit pf mint fill reason now = elim (lookup mint pf) [
    | none ↦ (err no_position, pf)
    | some p ↦ commit pf mint (exit_position p fill reason now)
  ]

  -- `mark_to_market`: the mark is written before the cost basis is asked for.
  unfoldable pub mark : Position D T → D → ℕ → Result PortfolioError D × Position D T
  mark p price remaining =
      let value = price ⊗ of_nat remaining in
      let marked = record p {
        high_water_price_usd = max_of p.high_water_price_usd price;
        current_value_usd = value;
      } in
      elim (p.entry_cost_usd) [
        | none ↦ (err no_cost_basis, marked)
        | some entry_cost ↦
            let divisor = if same p.quantity (of_nat 0) then of_nat 1 else p.quantity in
            let cost_of_remaining = entry_cost ⊗ of_nat remaining ⊘ divisor in
            (
              ok value,
              record marked { unrealized_pnl_usd = value ⊖ cost_of_remaining ⊖ p.fees_usd },
            )
      ]

  unfoldable pub mark_to_market :
      Portfolio D T → String → D → Result PortfolioError D × Portfolio D T
  mark_to_market pf mint price = elim (lookup mint pf) [
    | none ↦ (err no_position, pf)
    | some p ↦ elim (p.remaining_quantity_atomic) [
      | none ↦ (err unknown_remaining, pf)
      | some remaining ↦ let (r, p') = mark p price remaining in (r, insert mint p' pf)
    ]
  ]

  -- The assignments of `reconcile_with_chain` where the wallet holds nothing of the mint.
  unfoldable pub vanished : Position D T → T → Position D T
  vanished p now = record p {
    state = closed;
    reconciliation_status = closed_on_chain;
    last_reconciled_at = some now;
    exit_reason = some (unwrap_or p.exit_reason "reconciled: no on-chain balance");
    current_value_usd = of_nat 0;
    unrealized_pnl_usd = of_nat 0;
  }

  -- `reconcile_with_chain` on an open position.
  unfoldable pub reconcile_position :
      Position D T → ℕ → ℕ → T → Result PortfolioError (Position D T)
  reconcile_position p on_chain decimals now =
      let adopted = record p {
        token_decimals = some decimals;
        remaining_quantity_atomic = some on_chain;
        reconciliation_status = adjusted_on_chain;
        last_reconciled_at = some now;
      } in
      if eq_known p.remaining_quantity_atomic on_chain
      then ok (record p { reconciliation_status = reconciled; last_reconciled_at = some now })
      else if nat_beq on_chain 0
      then ok (vanished p now)
      else elim (p.token_decimals) [
        | none ↦ ok adopted
        | some recorded ↦
            if nat_beq recorded decimals
            then ok adopted
            else err (decimals_mismatch (some recorded) decimals)
      ]

  unfoldable pub reconcile_with_chain :
      Portfolio D T → String → ℕ → ℕ → T → Result PortfolioError Bool × Portfolio D T
  reconcile_with_chain pf mint on_chain decimals now = elim (lookup mint pf) [
    | none ↦ (ok false, pf)
    | some p ↦
        if not (is_open p)
        then (ok false, pf)
        else elim (reconcile_position p on_chain decimals now) [
          | ok p' ↦ (ok true, insert mint p' pf)
          | err e ↦ (err e, pf)
        ]
  ]
