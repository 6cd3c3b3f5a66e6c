-- ===== src/Runtime/Reconciled.antt =====
-- runtime.rs: `record_reconciled_fill`, which books what the chain says of an order.
use solana_bot.Prelude.{Bool, true, false, Option, none, some, String, Result, ok, err, string_eq}
use solana_bot.Prelude.Decimal.{Decimal}
use solana_bot.Domain.Trade.{Fill, OrderRecord, confirmed, failed}
use solana_bot.Domain.Position.{Position}
use solana_bot.Portfolio.{position}
use solana_bot.Storage.{
  Store, Db, key_eq, position_key, and_then, statement, run_in_transaction, Serde, update_order,
  positions, put_row, put_fill,
}
use solana_bot.Chain.{ChainSwapOutcome}
use solana_bot.Runtime.Types.{Failure, database, within}
use solana_bot.Runtime.Settle.{load_portfolio}
use solana_bot.Runtime.Record.{
  RecordTimes, find_id, Priced, price_reconciled, reconciled_fill, stepped, Booking, audit_only,
  booking_of, no_cost_model, book,
}

module _ {J D T : Type 0} ⦃serde : Serde J D T⦄ where
  abbrev pub stored_position : Option (Position D T) → Db J T Failure (Unit {0})
  stored_position none s = (ok tt, s)
  stored_position (some p) s =
      within database (statement (put_row (position_key p.mint) (serde.position_text p))) s

  abbrev pub stored_fill : Fill D T → Db J T Failure (Unit {0})
  stored_fill fill = within database (statement (put_fill fill.order_id (serde.fill_text fill)))

  -- The closure for an entry without a cost model.
  unfoldable pub audit_fill :
      OrderRecord D T → String → Fill D T → RecordTimes T → Db J T Failure (Unit {0})
  audit_fill order signature fill times s = and_then (stored_fill fill s) (λ _ t.
      and_then
        (
          stepped (record order { signature = some signature; error = some no_cost_model }) failed,
          t,
        )
        (λ o. within database (update_order o times.written)))

abbrev pub told :
    {J T : Type 0} → Bool → Result Failure (Unit {0}) × Store J T → Result Failure Bool × Store J T
told b (ok _, s) = (ok b, s)
told b (err e, s) = (err e, s)

module _ {J D T : Type 0} ⦃serde : Serde J D T⦄ ⦃d : Decimal D⦄ where
  -- The closure that books the fill.
  unfoldable pub book_fill :
      OrderRecord D T
      → Position D T
      → Priced D
      → String
      → Fill D T
      → RecordTimes T
      → Booking D T
      → Db J T Failure (Unit {0})
  book_fill order p priced signature fill times booking s = and_then (stored_fill fill s) (λ _ t.
      and_then (within database load_portfolio t) (λ pf u.
        and_then (book order p priced fill times booking pf, u)
          (λ pf' v. and_then (stored_position (position pf' order.mint) v) (λ _ w.
            and_then (stepped (record order { signature = some signature }) confirmed, w)
              (λ o. within database (update_order o times.written))))))

  unfoldable pub record_booking :
      OrderRecord D T
      → Position D T
      → Priced D
      → String
      → Fill D T
      → RecordTimes T
      → Booking D T
      → Db J T Failure Bool
  record_booking order p priced signature fill times audit_only s =
      told false (run_in_transaction database (audit_fill order signature fill times) s)
  record_booking order p priced signature fill times booking s =
      told true
        (run_in_transaction database (book_fill order p priced signature fill times booking) s)

  -- An error of the read is dropped.
  abbrev pub position_for : Option String → Store J T → Option (Position D T) × Store J T
  position_for none s = (none, s)
  position_for (some id) s =
      let read = positions {D = D} s in
      (elim (read.0) [ err _ ↦ none | ok stored ↦ find_id id stored ], read.1)

  abbrev pub record_found :
      Option D
      → OrderRecord D T
      → ChainSwapOutcome
      → String
      → RecordTimes T
      → Option (Position D T) × Store J T
      → Result Failure Bool × Store J T
  record_found sol order outcome signature times (none, s) = (ok false, s)
  record_found sol order outcome signature times (some p, s) =
      elim (price_reconciled order p outcome) [
        | none ↦ (ok false, s)
        | some priced ↦
            record_booking order p priced signature
              (reconciled_fill order outcome signature priced sol times.confirmed_at) times
              (booking_of order.kind p.entry_cost_model) s
      ]

  unfoldable pub record_reconciled_fill :
      Option D → OrderRecord D T → ChainSwapOutcome → String → RecordTimes T → Db J T Failure Bool
  record_reconciled_fill sol order outcome signature times s =
      record_found sol order outcome signature times (position_for order.position_id s)
