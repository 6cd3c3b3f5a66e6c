-- ===== src/Runtime/Holdings.antt =====
-- runtime.rs: `reconcile_positions_onchain`, and the sums over positions.
use solana_bot.Prelude.{
  ℕ, Bool, true, false, Option, none, some, List, [], ◌∷◌, map, String, Result, ok, err,
  if◌then◌else◌, nat_beq, ◌==◌, string_eq,
}
use solana_bot.Prelude.Decimal.{Decimal, ◌⊕◌, ◌⊗◌, ◌⊘◌, of_nat, same}
use solana_bot.Domain.Position.{Position, ReconciliationStatus, adjusted_on_chain}
use solana_bot.Execution.{units}
use solana_bot.Portfolio.{Portfolio, PortfolioError, position, open_positions, reconcile_with_chain}
use solana_bot.Storage.{Store, StorageError, Serde, save_position}
use solana_bot.Chain.{Node, TokenBalance}
use solana_bot.Runtime.Exit.{ok_only}
use solana_bot.Runtime.Settle.{load_portfolio}
use solana_bot.Runtime.Pending.{ReconcileSummary, no_summary, Site, bump}

module _ {D T : Type 0} ⦃d : Decimal D⦄ where
  -- The fold over the known costs.
  abbrev pub add_costs : D → List (Position D T) → D
  add_costs total [] = total
  add_costs total (p ∷ ps) = elim (p.entry_cost_usd) [
    | none ↦ add_costs total ps
    | some cost ↦ add_costs (total ⊕ cost) ps
  ]

  unfoldable pub aggregate_exposure : List (Position D T) → D
  aggregate_exposure ps = add_costs (of_nat 0) ps

  unfoldable pub equity_usd : D → List (Position D T) → D
  equity_usd equity [] = equity
  equity_usd equity (p ∷ ps) = equity_usd (equity ⊕ (p.realized_pnl_usd ⊕ p.unrealized_pnl_usd)) ps

module _ {D : Type 0} ⦃d : Decimal D⦄ where
  abbrev pub mark_of : Option D → Option D → D → Option D
  mark_of (some base_units) (some token_units) price =
      if same token_units (of_nat 0) then none else some (base_units ⊗ price ⊘ token_units)
  mark_of _ _ price = none

  unfoldable pub mark_price_from_quote : ℕ → ℕ → D → ℕ → ℕ → Option D
  mark_price_from_quote output base_decimals base_price remaining token_decimals =
      if nat_beq remaining 0
      then none
      else if nat_beq output 0
      then none
      else mark_of (ok_only (units output base_decimals)) (ok_only (units remaining token_decimals))
          base_price

-- `collect` into a map keeps the last balance of a mint.
abbrev pub balance_for : String → List TokenBalance → Option TokenBalance
balance_for mint [] = none
balance_for mint (b ∷ bs) = elim (balance_for mint bs) [
  | some later ↦ some later
  | none ↦ if b.mint == mint then some b else none
]

abbrev pub is_adjusted : Option ReconciliationStatus → Bool
is_adjusted (some adjusted_on_chain) = true
is_adjusted _ = false

abbrev pub status_of : {D T : Type 0} → Option (Position D T) → Option ReconciliationStatus
status_of none = none
status_of (some p) = some p.reconciliation_status

abbrev pub one_closed : ReconcileSummary → ReconcileSummary
one_closed x = record x { positions_closed = bump x.positions_closed }

abbrev pub one_chain_error : ReconcileSummary → ReconcileSummary
one_chain_error x = record x { onchain_errors = bump x.onchain_errors }

abbrev pub one_adjusted : Bool → ReconcileSummary → ReconcileSummary
one_adjusted true x = record x { positions_adjusted = bump x.positions_adjusted }
one_adjusted false x = record x { positions_reconciled = bump x.positions_reconciled }

-- What the loop carries from one position to the next.
pub record Sweep (J D T : Type 0) : Type 0 where
  pub summary : ReconcileSummary
  pub portfolio : Portfolio D T
  pub store : Store J T

module _ {J D T : Type 0} where
  abbrev pub swept :
      Result StorageError (Unit {0}) × Sweep J D T
      → Result StorageError ReconcileSummary × Store J T
  swept (ok _, w) = (ok w.summary, w.store)
  swept (err e, w) = (err e, w.store)

  abbrev pub saved_as :
      Sweep J D T
      → Result StorageError (Unit {0}) × Store J T
      → Result StorageError (Unit {0}) × Sweep J D T
  saved_as w (r, s) = (r, record w { store = s })

module _ {J D T : Type 0} ⦃serde : Serde J D T⦄ where
  abbrev pub save_found :
      Option (Position D T) → Sweep J D T → Result StorageError (Unit {0}) × Sweep J D T
  save_found none w = (ok tt, w)
  save_found (some p) w = saved_as w (save_position p w.store)

  -- No balance: the error of the reconciliation is dropped.
  abbrev pub swept_closed :
      String
      → Result PortfolioError Bool × Portfolio D T
      → Sweep J D T
      → Result StorageError (Unit {0}) × Sweep J D T
  swept_closed mint (ok _, pf) w =
      save_found (position pf mint) (record w { summary = one_closed w.summary; portfolio = pf })
  swept_closed mint (err e, pf) w = (ok tt, record w { portfolio = pf })

  abbrev pub swept_held :
      String
      → Result PortfolioError Bool × Portfolio D T
      → Sweep J D T
      → Result StorageError (Unit {0}) × Sweep J D T
  swept_held mint (ok true, pf) w = save_found (position pf mint) (record w {
    summary = one_adjusted (is_adjusted (status_of (position pf mint))) w.summary;
    portfolio = pf;
  })
  swept_held mint (ok false, pf) w = (ok tt, record w { portfolio = pf })
  swept_held mint (err e, pf) w =
      (ok tt, record w { summary = one_chain_error w.summary; portfolio = pf })

module _ {J D T : Type 0} ⦃serde : Serde J D T⦄ ⦃d : Decimal D⦄ where
  unfoldable pub sweep_one :
      List TokenBalance → T → String → Sweep J D T → Result StorageError (Unit {0}) × Sweep J D T
  sweep_one balances now mint w = elim (balance_for mint balances) [
    | none ↦ swept_closed mint (reconcile_with_chain w.portfolio mint 0 0 now) w
    | some b ↦ swept_held mint (reconcile_with_chain w.portfolio mint b.amount b.decimals now) w
  ]

  -- The loop; an error of a save ends it.
  unfoldable pub sweep :
      List TokenBalance
      → T
      → List String
      → Result StorageError (Unit {0}) × Sweep J D T
      → Result StorageError (Unit {0}) × Sweep J D T
  sweep balances now [] w = w
  sweep balances now (mint ∷ mints) (err e, w) = (err e, w)
  sweep balances now (mint ∷ mints) (ok _, w) =
      sweep balances now mints (sweep_one balances now mint w)

  abbrev pub sweep_loaded :
      List TokenBalance
      → T
      → Result StorageError (Portfolio D T) × Store J T
      → Result StorageError ReconcileSummary × Store J T
  sweep_loaded balances now (err e, s) = (err e, s)
  sweep_loaded balances now (ok pf, s) = swept (
      sweep balances now (map (λ p. p.mint) (open_positions pf))
        (ok tt, record { summary = no_summary; portfolio = pf; store = s }))

module _ {N J T : Type 0} (D : Type 0) ⦃serde : Serde J D T⦄ ⦃d : Decimal D⦄ ⦃node : Node N⦄ where
  abbrev pub sweep_balances :
      T
      → Result String (List TokenBalance) × N
      → Store J T
      → Result StorageError ReconcileSummary × Site N J T
  sweep_balances now (err e, n) s =
      (ok (one_chain_error no_summary), record { node = n; store = s })
  sweep_balances now (ok balances, n) s =
      let swept_store = sweep_loaded balances now (load_portfolio {D = D} s) in
      (swept_store.0, record { node = n; store = swept_store.1 })

  -- `owner` is the executor's signer; without one nothing is compared.
  unfoldable pub reconcile_positions_onchain :
      Option String → T → Site N J T → Result StorageError ReconcileSummary × Site N J T
  reconcile_positions_onchain none now site = (ok no_summary, site)
  reconcile_positions_onchain (some owner) now site =
      sweep_balances now (node.token_balances site.node owner) site.store
