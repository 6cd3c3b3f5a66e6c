-- ===== src/Portfolio/Chain.antt =====
-- `reconcile_with_chain` of portfolio/mod.rs, and what an entry after it does.
use mathlib.Core.Path.{subst}
use solana_bot.Prelude.{
  ℕ, suc, ◌≤◌, ◌≡◌, refl, sym, ◌∙◌, inl, inr, ◌⊎◌, Bool, true, some, String, arith, Result, ok, err,
  Result-cases, saturating_add, u64_max, string_eq,
}
use solana_bot.Prelude.Decimal.{Decimal}
use solana_bot.Prelude.Map.{lookup, insert, lookup-insert_self}
use solana_bot.Domain.Trade.{Fill}
use solana_bot.Domain.Position.{Position, opened, closed, trusted_remaining}
use solana_bot.Portfolio.Book.{Portfolio, PortfolioError, EntryTerms, apply_entry}
use solana_bot.Portfolio.Unwind.{reconcile_position, reconcile_with_chain, vanished}
use solana_bot.Portfolio.Entry.{held, apply_entry_effect}

module _ {D T : Type 0} ⦃d : Decimal D⦄ where
  -- A position that agrees with the balance of the wallet: its quantity is trusted and is the
  -- balance, or the balance is zero and the position is closed.
  abbrev pub Agrees : ℕ → Position D T → Type 0
  Agrees balance p = (trusted_remaining p ≡ some balance) ⊎ ((balance ≡ 0) × (p.state ≡ closed))

  reconcile_position-Agrees :
      (p : Position D T) (balance decimals : ℕ) (now : T) (p' : Position D T)
      → p.state ≡ opened
      → reconcile_position p balance decimals now ≡ ok p'
      → Agrees balance p'
  unfolding reconcile_position trusted_remaining vanished
  reconcile_position-Agrees p balance decimals now p' o e = ground arith

  reconcile_position-zero :
      (p : Position D T) (r decimals : ℕ) (now : T)
      → p.remaining_quantity_atomic ≡ some (suc r)
      → reconcile_position p 0 decimals now ≡ ok (vanished p now)
  unfolding reconcile_position
  reconcile_position-zero p r decimals now q = ground arith

  reconcile_with_chain-some :
      (pf : Portfolio D T) (mint : String) (balance decimals : ℕ) (now : T) (p p' : Position D T)
      → lookup mint pf ≡ some p
      → p.state ≡ opened
      → reconcile_position p balance decimals now ≡ ok p'
      → reconcile_with_chain pf mint balance decimals now ≡ (ok true, insert mint p' pf)
  unfolding reconcile_with_chain
  reconcile_with_chain-some pf mint balance decimals now p p' found o e = ground arith

  reconcile_with_chain-err :
      (pf : Portfolio D T) (mint : String) (balance decimals : ℕ) (now : T) (p : Position D T)
      (x : PortfolioError)
      → lookup mint pf ≡ some p
      → p.state ≡ opened
      → reconcile_position p balance decimals now ≡ err x
      → reconcile_with_chain pf mint balance decimals now ≡ (err x, pf)
  unfolding reconcile_with_chain
  reconcile_with_chain-err pf mint balance decimals now p x found o e = ground arith

  -- What a reconciliation of the open position of a mint may leave.
  abbrev pub Settles :
      Portfolio D T → String → ℕ → Result PortfolioError Bool × Portfolio D T → Type 0
  Settles pf mint balance (ok _, pf') =
      (p' : Position D T) × (lookup mint pf' ≡ some p') × Agrees balance p'
  Settles pf mint balance (err _, pf') = pf' ≡ pf

  -- Reconciling an open position either is refused and changes nothing, or leaves a position that
  -- agrees with the balance of the wallet.
  pub reconcile_with_chain-Settles :
      (pf : Portfolio D T) (mint : String) (balance decimals : ℕ) (now : T) (p : Position D T)
      → lookup mint pf ≡ some p
      → p.state ≡ opened
      → Settles pf mint balance (reconcile_with_chain pf mint balance decimals now)
  reconcile_with_chain-Settles pf mint balance decimals now p found o =
      elim (Result-cases (reconcile_position p balance decimals now)) [
        | inl (p', e) ↦
            subst (Settles pf mint balance)
              (sym (reconcile_with_chain-some pf mint balance decimals now p p' found o e))
              (
                p',
                lookup-insert_self mint p' pf,
                reconcile_position-Agrees p balance decimals now p' o e,
              )
        | inr (x, e) ↦
            subst (Settles pf mint balance)
              (sym (reconcile_with_chain-err pf mint balance decimals now p x found o e)) refl
      ]

  vanished-remaining :
      (p : Position D T) (now : T)
      → (vanished p now).remaining_quantity_atomic ≡ p.remaining_quantity_atomic
  unfolding vanished
  vanished-remaining p now = refl

  vanished-closed : (p : Position D T) (now : T) → (vanished p now).state ≡ closed
  unfolding vanished
  vanished-closed p now = refl

  -- Reconciling an open position of some units with a balance of zero closes it and keeps its units,
  -- and a successful entry of at most 2^64 - 1 units into the same mint reports them again: the
  -- position is trusted to hold the vanished units beside those just bought, at most 2^64 - 1.
  pub reentry_counts_vanished :
      (pf : Portfolio D T) (e : EntryTerms D T) (fill : Fill D T) (decimals : ℕ) (now : T)
      (p : Position D T) (r : ℕ)
      → lookup e.mint pf ≡ some p
      → p.state ≡ opened
      → p.remaining_quantity_atomic ≡ some (suc r)
      → fill.output_amount ≤ u64_max
      → let swept = (reconcile_with_chain pf e.mint 0 decimals now).1 in
        (apply_entry swept e fill).0 ≡ ok tt
        → ((gone : Position D T) × (lookup e.mint swept ≡ some gone)
            × (gone.state ≡ closed)
            × (gone.remaining_quantity_atomic ≡ some (suc r)))
          × (p' : Position D T) × (lookup e.mint (apply_entry swept e fill).1 ≡ some p')
          × (trusted_remaining p' ≡ some (saturating_add u64_max (suc r) fill.output_amount))
  reentry_counts_vanished pf e fill decimals now p r found o q fits good =
      let swept = (reconcile_with_chain pf e.mint 0 decimals now).1 in
      let left =
        reconcile_with_chain-some pf e.mint 0 decimals now p (vanished p now) found o
          (reconcile_position-zero p r decimals now q) in
      let units : held swept e.mint ≡ suc r =
        rw (left, lookup-insert_self, vanished-remaining, q) in
      let (p', at, entered_now, _) = apply_entry_effect swept e fill fits good in
      let at_once : lookup e.mint swept ≡ some (vanished p now) =
        rw (left, lookup-insert_self) refl in
      (
        (vanished p now, at_once, vanished-closed p now, vanished-remaining p now ∙ q),
        p',
        at,
        rw (← units) (entered_now.trusted),
      )
