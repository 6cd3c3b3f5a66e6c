-- ===== src/Runtime/Booked.antt =====
-- runtime.rs: what the transaction of an exit has stored when it commits.
use solana_bot.Prelude.{
  ℕ, [], ◌≡◌, refl, sym, ap, ◌∙◌, some, List, String, Result, ok, err, arith, map, string_eq,
}
use mathlib.Core.Path.{subst}
use solana_bot.Prelude.Decimal.{Decimal}
use solana_bot.Prelude.Map.{lookup, lookup-insert_self}
use solana_bot.Domain.Trade.{Fill, OrderRecord, confirmed, transition}
use solana_bot.Domain.Position.{Position}
use solana_bot.Portfolio.{
  load, Portfolio, PortfolioError, ExitOutcome, sync_position, apply_exit, position,
}
use solana_bot.Portfolio.Exit.{IsSold, apply_exit_effect}
use solana_bot.Storage.{
  Tables, Store, OrderRow, key_eq, position_key, statement, and_then, Serde, row_of, updated,
  update_rows, update_order, positions, put_row, put_fill,
}
use solana_bot.Runtime.Types.{database}
use solana_bot.Runtime.Settle.{
  confirm, accounted, save_known, load_portfolio, settle_booked, settle_sold, settle_loaded,
  settle_exit,
}
use solana_bot.Runtime.Plan.{Keeps-chain, positions-Keeps}
use solana_bot.Runtime.Steps.{Keeps, statement-ok, within-ok, and_then-ok, and_then-R, caught-ok}

module _ {J D T : Type 0} ⦃serde : Serde J D T⦄ ⦃d : Decimal D⦄ where
  -- The tables hold the fill, the position after the sale and the confirmed order.
  pub record IsBooked (mint order_id : String) (held : Position D T) (remaining : ℕ)
      (fill : Fill D T) (t : Tables J T) : Type 0 where
    pub sold : Position D T
    pub outcome : ExitOutcome D
    pub sale : IsSold held remaining fill sold outcome
    pub order : OrderRecord D T
    pub written : T
    pub rows : List (OrderRow J T)
    pub position_stored : lookup (position_key mint) t.kv ≡ some (serde.position_text sold)
    pub fill_stored : lookup fill.order_id t.fills ≡ some (serde.fill_text fill)
    pub same_order : order.id ≡ order_id
    pub confirmed_state : order.state ≡ confirmed
    pub order_stored : t.orders ≡ map (updated (row_of order written)) rows

module _ {D T : Type 0} where
  confirm-ok :
      (placed booked : OrderRecord D T) (signature : String)
      → confirm placed signature ≡ ok booked
      → (booked.id ≡ placed.id) × (booked.state ≡ confirmed)
  unfolding confirm transition
  confirm-ok placed booked signature done = ground arith

  accounted-ok :
      {A : Type 0} (placed : OrderRecord D T) (r : Result PortfolioError A × Portfolio D T) (a : A)
      (pf : Portfolio D T)
      → accounted placed r ≡ ok (a, pf)
      → r ≡ (ok a, pf)
  accounted-ok placed (ok b, pf') a pf done = ground arith
  accounted-ok placed (err e, pf') a pf done = ground arith

module _ {J D T : Type 0} ⦃serde : Serde J D T⦄ ⦃d : Decimal D⦄ (placed : OrderRecord D T)
    (mint : String) (fill : Fill D T) (reason : String) (held : Position D T)
    (applied written : T) where
  booked-ok :
      (outcome : ExitOutcome D) (order : OrderRecord D T) (s t : Store J T)
      (r : ExitOutcome D × OrderRecord D T)
      → settle_booked placed mint fill reason held applied written outcome order s ≡ (ok r, t)
      → (r ≡ (outcome, order)) × (t.tables ≡ (update_rows (row_of order written) s.tables).1)
  unfolding settle_booked update_order
  booked-ok outcome order s t r done =
      let (x, u, wrote, rest) =
        within-ok (λ e. (database e, order)) (statement (update_rows (row_of order written)))
          (λ _ u. (ok (outcome, order), u)) s t r done in
      let (_, tables) = statement-ok (update_rows (row_of order written)) s u x wrote in
      (ground arith, sym (ap (λ y. y.1.tables) rest) ∙ tables)

  sold-ok :
      (outcome : ExitOutcome D) (pf : Portfolio D T) (p : Position D T) (s t : Store J T)
      (r : ExitOutcome D × OrderRecord D T)
      → lookup mint pf ≡ some p
      → settle_sold placed mint fill reason held applied written (outcome, pf) s ≡ (ok r, t)
      → (r.0 ≡ outcome)
        × (r.1.id ≡ placed.id)
        × (r.1.state ≡ confirmed)
        × (t.tables
            ≡ (update_rows
                (row_of r.1 written)
                (put_row (position_key p.mint) (serde.position_text p) s.tables).1).1)
  unfolding settle_sold
  sold-ok outcome pf p s t r found done =
      let (x, u, saved, rest) =
        and_then-ok (save_known placed (position pf mint) s)
          (λ _ u.
            and_then (confirm placed fill.signature, u)
              (settle_booked placed mint fill reason held applied written outcome))
          r t done in
      let (order, v, stepped, last) =
        and_then-ok (confirm placed fill.signature, u)
          (settle_booked placed mint fill reason held applied written outcome) r t rest in
      let put = put_row (position_key p.mint) (serde.position_text p) in
      let (_, tables) = statement-ok put s u x (
        caught-ok (λ e. (database e, placed)) (statement put s) x u
          (subst (λ o. save_known placed o s ≡ (ok x, u)) found saved)) in
      let (same_id, state) = confirm-ok placed order fill.signature (ap (λ y. y.0) stepped) in
      let (same, written_tables) = booked-ok outcome order v t r last in
      let order_same : r.1 ≡ order = ap (λ y. y.1) same in
      let v_tables : v.tables ≡ (put s.tables).1 = ap (λ y. y.1.tables) (sym stepped) ∙ tables in
      (
        ap (λ y. y.0) same,
        ap (λ o. o.id) order_same ∙ same_id,
        ap (λ o. o.state) order_same ∙ state,
        written_tables
            ∙ ap (λ o. (update_rows (row_of o written) v.tables).1) (sym order_same)
            ∙ ap (λ x. (update_rows (row_of r.1 written) x).1) v_tables,
      )

  load_portfolio-tables :
      (s t : Store J T) (pf : Portfolio D T) → load_portfolio s ≡ (ok pf, t) → t.tables ≡ s.tables
  unfolding load_portfolio
  load_portfolio-tables s t pf done =
      sym (ap (λ x. x.1.tables) done)
      ∙ (and_then-R Keeps Keeps-chain s (positions {D = D} s) (λ stored u. (ok (load [] stored), u))
          (positions-Keeps D s) (λ stored u. (refl, refl))).0

  loaded-ok :
      (n : ℕ) (s t : Store J T) (r : ExitOutcome D × OrderRecord D T)
      → held.mint ≡ mint
      → held.remaining_quantity_atomic ≡ some n
      → settle_loaded placed mint fill reason held applied written s ≡ (ok r, t)
      → (p : Position D T) × IsSold held n fill p r.0
        × (r.1.id ≡ placed.id)
        × (r.1.state ≡ confirmed)
        × (t.tables
            ≡ (update_rows
                (row_of r.1 written)
                (put_row (position_key mint) (serde.position_text p) s.tables).1).1)
  unfolding settle_loaded
  loaded-ok n s t r same left done =
      let next = settle_sold placed mint fill reason held applied written in
      let (fresh, u, loaded, rest) =
        within-ok (λ e. (database e, placed)) load_portfolio
          (λ fresh u.
            and_then
              (accounted placed (apply_exit (sync_position fresh held) mint fill reason applied), u)
              next)
          s t r done in
      let before = sync_position fresh held in
      let ((outcome, pf), v, booked, last) =
        and_then-ok (accounted placed (apply_exit before mint fill reason applied), u) next r t
          rest in
      let applied_ok : apply_exit before mint fill reason applied ≡ (ok outcome, pf) =
        accounted-ok placed (apply_exit before mint fill reason applied) outcome pf
          (ap (λ x. x.0) booked) in
      let found : lookup mint before ≡ some held =
        subst (λ m. lookup m before ≡ some held) same (lookup-insert_self held.mint held fresh) in
      let (p, stored, sale, _) =
        apply_exit_effect before mint fill reason applied held n outcome found left
          (ap (λ x. x.0) applied_ok) in
      let (outcome_same, id, state, tables) =
        sold-ok outcome pf p v t r (ap (λ x. lookup mint x.1) (sym applied_ok) ∙ stored) last in
      let v_tables : v.tables ≡ s.tables =
        ap (λ x. x.1.tables) (sym booked) ∙ load_portfolio-tables s u fresh loaded in
      let key : p.mint ≡ mint = sale.kept_mint ∙ same in
      (
        p,
        subst (IsSold held n fill p) (sym outcome_same) sale,
        id,
        state,
        tables
            ∙ ap
                (λ x.
                  (update_rows (row_of r.1 written)
                    (put_row (position_key p.mint) (serde.position_text p) x).1).1)
                v_tables
            ∙ ap
                (λ m.
                  (update_rows (row_of r.1 written)
                    (put_row (position_key m) (serde.position_text p) s.tables).1).1)
                key,
      )

  -- A closure that succeeds leaves tables in which the sale is booked.
  pub settle_exit-IsBooked :
      (n : ℕ) (s t : Store J T) (r : ExitOutcome D × OrderRecord D T)
      → held.mint ≡ mint
      → held.remaining_quantity_atomic ≡ some n
      → settle_exit placed mint fill reason held applied written s ≡ (ok r, t)
      → IsBooked mint placed.id held n fill t.tables
  unfolding settle_exit
  settle_exit-IsBooked n s t r same left done =
      let put = put_fill fill.order_id (serde.fill_text fill) in
      let (x, u, wrote, rest) =
        within-ok (λ e. (database e, placed)) (statement put)
          (λ _. settle_loaded placed mint fill reason held applied written) s t r done in
      let (_, filled) = statement-ok put s u x wrote in
      let (p, sale, id, state, tables) = loaded-ok n u t r same left rest in
      record {
        sold = p;
        outcome = r.0;
        sale = sale;
        order = r.1;
        written = written;
        rows = u.tables.orders;
        position_stored =
            ap (λ x. lookup (position_key mint) x.kv) tables
            ∙ lookup-insert_self (position_key mint) (serde.position_text p) u.tables.kv;
        fill_stored =
            ap (λ x. lookup fill.order_id x.fills) tables
            ∙ ap (λ x. lookup fill.order_id x.fills) filled
            ∙ lookup-insert_self fill.order_id (serde.fill_text fill) s.tables.fills;
        same_order = id;
        confirmed_state = state;
        order_stored = ap (λ x. x.orders) tables;
      }
