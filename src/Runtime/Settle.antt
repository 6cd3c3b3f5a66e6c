-- ===== src/Runtime/Settle.antt =====
-- runtime.rs: the transaction of `execute_exit_order` that books a fill.
use solana_bot.Prelude.{Option, none, some, [], String, Result, ok, err, string_eq}
use solana_bot.Prelude.Decimal.{Decimal}
use solana_bot.Domain.Trade.{Fill, OrderRecord, confirmed, transition}
use solana_bot.Domain.Position.{Position}
use solana_bot.Portfolio.{
  Portfolio, ExitOutcome, PortfolioError, position, sync_position, load, apply_exit,
}
use solana_bot.Storage.{
  Store, StorageError, Db, key_eq, position_key, and_then, statement, begin, run_in_transaction,
  Serde, update_order, positions, put_row, put_fill,
}
use solana_bot.Runtime.Types.{Failure, database, accounting, illegal, within}

-- The result of the closure stands beside the order that it captures by reference, as the order is
-- when the closure returns.
module _ {D T A : Type 0} where
  abbrev pub without_order :
      Result (Failure × OrderRecord D T) (A × OrderRecord D T) → Result Failure A
  without_order (ok (a, o)) = ok a
  without_order (err (e, o)) = err e

  abbrev pub order_of : Result (Failure × OrderRecord D T) (A × OrderRecord D T) → OrderRecord D T
  order_of (ok (a, o)) = o
  order_of (err (e, o)) = o

module _ {D T : Type 0} where
  -- The order's signature and its step to `Confirmed`.
  unfoldable pub confirm :
      OrderRecord D T → String → Result (Failure × OrderRecord D T) (OrderRecord D T)
  confirm placed signature =
      let signed = record placed { signature = some signature } in
      elim ((transition signed confirmed).0) [
        | ok _ ↦ ok (transition signed confirmed).1
        | err e ↦ err (illegal e, signed)
      ]

  abbrev pub accounted :
      {D' A : Type 0}
      → OrderRecord D T
      → Result PortfolioError A × Portfolio D' T
      → Result (Failure × OrderRecord D T) (A × Portfolio D' T)
  accounted placed (ok a, pf) = ok (a, pf)
  accounted placed (err e, pf) = err (accounting e, placed)

module _ {J D T : Type 0} ⦃serde : Serde J D T⦄ where
  -- The position of the mint is saved where there is one.
  abbrev pub save_known :
      OrderRecord D T → Option (Position D T) → Db J T (Failure × OrderRecord D T) (Unit {0})
  save_known placed none s = (ok tt, s)
  save_known placed (some p) s =
      within (λ e. (database e, placed))
        (statement (put_row (position_key p.mint) (serde.position_text p))) s

module _ {J D T : Type 0} ⦃serde : Serde J D T⦄ ⦃d : Decimal D⦄ where
  -- `load_portfolio_from_conn`
  unfoldable pub load_portfolio : Db J T StorageError (Portfolio D T)
  load_portfolio s = and_then (positions {D = D} s) (λ stored t. (ok (load [] stored), t))

-- The closure, from its last step to its first. `held` is the position that was read before the
-- order was made.
module _ {J D T : Type 0} ⦃serde : Serde J D T⦄ ⦃d : Decimal D⦄ (placed : OrderRecord D T)
    (mint : String) (fill : Fill D T) (reason : String) (held : Position D T)
    (applied written : T) where
  unfoldable pub settle_booked :
      ExitOutcome D
      → OrderRecord D T
      → Db J T (Failure × OrderRecord D T) (ExitOutcome D × OrderRecord D T)
  settle_booked outcome booked s =
      and_then (within (λ e. (database e, booked)) (update_order booked written) s)
        (λ _ t. (ok (outcome, booked), t))

  unfoldable pub settle_sold :
      ExitOutcome D × Portfolio D T
      → Db J T (Failure × OrderRecord D T) (ExitOutcome D × OrderRecord D T)
  settle_sold (outcome, sold) s =
      and_then (save_known placed (position sold mint) s)
        (λ _ t. and_then (confirm placed fill.signature, t) (settle_booked outcome))

  unfoldable pub settle_loaded :
      Db J T (Failure × OrderRecord D T) (ExitOutcome D × OrderRecord D T)
  settle_loaded s = and_then (within (λ e. (database e, placed)) load_portfolio s) (λ fresh t.
      and_then
        (accounted placed (apply_exit (sync_position fresh held) mint fill reason applied), t)
        settle_sold)

  unfoldable pub settle_exit : Db J T (Failure × OrderRecord D T) (ExitOutcome D × OrderRecord D T)
  settle_exit s =
      and_then
        (within (λ e. (database e, placed))
          (statement (put_fill fill.order_id (serde.fill_text fill))) s)
        (λ _. settle_loaded)

module _ {J D T A : Type 0} where
  -- A transaction whose closure changes a captured order: its result, and that order afterwards.
  unfoldable pub run_tracing :
      OrderRecord D T
      → Db J T (Failure × OrderRecord D T) (A × OrderRecord D T)
      → Store J T
      → (Result Failure A × Store J T) × OrderRecord D T
  run_tracing placed closure s = (
    run_in_transaction database (λ t. (without_order (closure t).0, (closure t).1)) s,
    elim ((begin s).0) [ err _ ↦ placed | ok _ ↦ order_of (closure (begin s).1).0 ],
  )
