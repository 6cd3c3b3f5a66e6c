-- ===== src/Runtime/Traced.antt =====
-- runtime.rs: the transaction of an exit neither opens nor ends another, and stores all that it books.
use solana_bot.Prelude.{
  ℕ, [], ◌≡◌, refl, sym, ap, ◌∙◌, Option, none, some, String, Result, ok, err, arith, string_eq,
}
use mathlib.Core.Path.{subst}
use solana_bot.Prelude.Decimal.{Decimal}
use solana_bot.Domain.Trade.{Fill, OrderRecord}
use solana_bot.Domain.Position.{Position}
use solana_bot.Portfolio.{load, Portfolio, ExitOutcome, position, apply_exit, sync_position}
use solana_bot.Storage.{
  Store, StorageError, Db, and_then, statement, key_eq, Serde, update_order, positions, put_row,
  put_fill, position_key,
}
use solana_bot.Storage.Atomic.{begun, Ends, run_in_transaction-Ends}
use solana_bot.Runtime.Types.{Failure, database, within}
use solana_bot.Runtime.Settle.{
  without_order, confirm, accounted, save_known, load_portfolio, settle_booked, settle_sold,
  settle_loaded, settle_exit, run_tracing,
}
use solana_bot.Runtime.Steps.{statement-saved, caught-1, and_then-R}
use solana_bot.Runtime.Plan.{positions-Keeps}
use solana_bot.Runtime.Booked.{IsBooked, settle_exit-IsBooked}

module _ {J T : Type 0} where
  abbrev InSame : Store J T → Store J T → Type 0
  InSame s t = t.saved ≡ s.saved

  InSame-chain : (s t u : Store J T) → InSame s t → InSame t u → InSame s u
  InSame-chain s t u a b = b ∙ a

  within-InSame :
      {E A B : Type 0} (f : StorageError → E) (m : Db J T StorageError A) (k : A → Db J T E B)
      (s : Store J T)
      → InSame s (m s).1
      → ((a : A) (t : Store J T) → InSame t (k a t).1)
      → InSame s (and_then (within f m s) k).1
  within-InSame f m k s kept rest =
      and_then-R InSame InSame-chain s (within f m s) k
        (ap (λ x. x.saved) (caught-1 f (m s)) ∙ kept) rest

module _ {J D T : Type 0} ⦃serde : Serde J D T⦄ where
  save_known-InSame :
      (placed : OrderRecord D T) (o : Option (Position D T)) (s : Store J T)
      → InSame s (save_known placed o s).1
  save_known-InSame placed none s = refl
  save_known-InSame placed (some p) s =
      let put = put_row (position_key p.mint) (serde.position_text p) in
      ap (λ x. x.saved) (caught-1 (λ e. (database e, placed)) (statement put s))
      ∙ statement-saved put s

module _ {J D T : Type 0} ⦃serde : Serde J D T⦄ ⦃d : Decimal D⦄ (placed : OrderRecord D T)
    (mint : String) (fill : Fill D T) (reason : String) (held : Position D T)
    (applied written : T) where
  booked-InSame :
      (outcome : ExitOutcome D) (order : OrderRecord D T) (s : Store J T)
      → InSame s (settle_booked placed mint fill reason held applied written outcome order s).1
  unfolding settle_booked update_order
  booked-InSame outcome order s =
      within-InSame (λ e. (database e, order)) (update_order order written)
        (λ _ t. (ok (outcome, order), t)) s (statement-saved _ s) (λ _ t. refl)

  sold-InSame :
      (r : ExitOutcome D × Portfolio D T) (s : Store J T)
      → InSame s (settle_sold placed mint fill reason held applied written r s).1
  unfolding settle_sold
  sold-InSame (outcome, pf) s =
      let last = settle_booked placed mint fill reason held applied written outcome in
      and_then-R InSame InSame-chain s (save_known placed (position pf mint) s)
        (λ _ t. and_then (confirm placed fill.signature, t) last)
        (save_known-InSame placed (position pf mint) s)
        (λ _ t.
          and_then-R InSame InSame-chain t (confirm placed fill.signature, t) last refl
            (booked-InSame outcome))

  loaded-InSame :
      (s : Store J T) → InSame s (settle_loaded placed mint fill reason held applied written s).1
  unfolding settle_loaded load_portfolio
  loaded-InSame s =
      let next = settle_sold placed mint fill reason held applied written in
      let answer = λ (fresh : Portfolio D T).
        accounted placed (apply_exit (sync_position fresh held) mint fill reason applied) in
      within-InSame (λ e. (database e, placed)) load_portfolio
        (λ fresh t. and_then (answer fresh, t) next) s
        (and_then-R InSame InSame-chain s (positions {D = D} s)
          (λ stored t. (ok (load [] stored), t)) (positions-Keeps D s).1 (λ stored t. refl))
        (λ fresh t. and_then-R InSame InSame-chain t (answer fresh, t) next refl sold-InSame)

  settle_exit-InSame :
      (s : Store J T) → InSame s (settle_exit placed mint fill reason held applied written s).1
  unfolding settle_exit
  settle_exit-InSame s =
      within-InSame (λ e. (database e, placed))
        (statement (put_fill fill.order_id (serde.fill_text fill)))
        (λ _. settle_loaded placed mint fill reason held applied written) s (statement-saved _ s)
        (λ _ t. loaded-InSame t)

module _ {D T A : Type 0} where
  without_order-ok :
      (x : Result (Failure × OrderRecord D T) (A × OrderRecord D T)) (a : A)
      → without_order x ≡ ok a
      → (o : OrderRecord D T) × (x ≡ ok (a, o))
  without_order-ok (ok (b, o)) a done = (o, ground arith)
  without_order-ok (err (e, o)) a done = ground arith

module _ {J D T : Type 0} ⦃serde : Serde J D T⦄ ⦃d : Decimal D⦄ (placed : OrderRecord D T)
    (mint : String) (fill : Fill D T) (reason : String) (held : Position D T)
    (applied written : T) where
  pub tracing-IsBooked :
      (n : ℕ) (s t : Store J T) (outcome : ExitOutcome D)
      → s.saved ≡ none
      → held.mint ≡ mint
      → held.remaining_quantity_atomic ≡ some n
      → (run_tracing placed (settle_exit placed mint fill reason held applied written) s).0
        ≡ (ok outcome, t)
      → (t.saved ≡ none) × IsBooked mint placed.id held n fill t.tables
  unfolding run_tracing
  tracing-IsBooked n s t outcome closed same left done =
      let closure : Db J T (Failure × OrderRecord D T) (ExitOutcome D × OrderRecord D T) =
        settle_exit placed mint fill reason held applied written in
      let plain : Db J T Failure (ExitOutcome D) =
        λ u. (without_order (closure u).0, (closure u).1) in
      let (ended, tables, answer) = subst (Ends s (plain (begun s))) done (
        run_in_transaction-Ends database plain s closed
          (settle_exit-InSame placed mint fill reason held applied written)) in
      let (order, whole) = without_order-ok (closure (begun s)).0 outcome answer in
      (
        ended,
        subst (IsBooked mint placed.id held n fill) (sym tables) (
            settle_exit-IsBooked placed mint fill reason held applied written n (begun s)
              (closure (begun s)).1 (outcome, order) same left
              (ap (λ x. (x, (closure (begun s)).1)) whole)),
      )
