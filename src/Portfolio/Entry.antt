-- ===== src/Portfolio/Entry.antt =====
-- What `apply_entry` of portfolio/mod.rs does to the position of its mint.
use solana_bot.Prelude.{
  ℕ, ◌≤◌, ◌≡◌, ◌≢◌, inl, inr, true, Option, none, some, String, arith, ok, err, Option-cases,
  unwrap_or, is_some, saturating_add, u64_max, string_eq,
}
use solana_bot.Prelude.Decimal.{Decimal}
use solana_bot.Prelude.Map.{lookup, insert, lookup-insert_self, lookup-insert_ne}
use solana_bot.Domain.Trade.{Fill}
use solana_bot.Domain.Position.{Position, trusted_remaining}
use solana_bot.Portfolio.Book.{
  Portfolio, PortfolioError, EntryTerms, grow, fresh, entered, apply_entry,
}

-- The units that the portfolio believes to hold of a mint.
abbrev pub units_of : {D T : Type 0} → Option (Position D T) → ℕ
units_of none = 0
units_of (some p) = unwrap_or p.remaining_quantity_atomic 0

abbrev pub held : {D T : Type 0} → Portfolio D T → String → ℕ
held pf mint = units_of (lookup mint pf)

module _ {D T : Type 0} ⦃d : Decimal D⦄ where
  -- The position after an entry of `out` units on top of `before`.
  pub record IsEntered (before out : ℕ) (p : Position D T) : Type 0 where
    pub total : p.remaining_quantity_atomic ≡ some (saturating_add u64_max before out)
    pub trusted : trusted_remaining p ≡ some (saturating_add u64_max before out)
    pub costed : is_some p.entry_cost_usd ≡ true
    pub feed : is_some p.entry_fees_usd ≡ true

  pub entered-IsEntered :
      (old : Option (Position D T)) (e : EntryTerms D T) (fill : Fill D T) (value : D)
      → fill.output_amount ≤ u64_max
      → IsEntered (units_of old) fill.output_amount (entered old e fill value)
  unfolding grow fresh trusted_remaining
  entered-IsEntered none e fill value h = ground arith
  entered-IsEntered (some p) e fill value h = ground arith

  pub apply_entry-some :
      (pf : Portfolio D T) (e : EntryTerms D T) (fill : Fill D T) (value : D)
      → fill.output_amount ≢ 0
      → fill.input_value_usd ≡ some value
      → apply_entry pf e fill ≡ (ok tt, insert e.mint (entered (lookup e.mint pf) e fill value) pf)
  unfolding apply_entry
  apply_entry-some pf e fill value h v = ground arith

  pub apply_entry-ok :
      (pf : Portfolio D T) (e : EntryTerms D T) (fill : Fill D T)
      → (apply_entry pf e fill).0 ≡ ok tt
      → (value : D) × (fill.output_amount ≢ 0) × (fill.input_value_usd ≡ some value)
  unfolding apply_entry
  apply_entry-ok pf e fill h = elim (Option-cases fill.input_value_usd) [
    | inl missing ↦ ground arith
    | inr (v, q) ↦ (v, ground arith, q)
  ]

  -- After a successful entry of at most 2^64 - 1 units the position of the mint is open, its quantity
  -- is trusted and is the units held before plus those bought, at most 2^64 - 1, where a missing
  -- quantity counts as none, its cost basis and its fees are known whatever the record said before,
  -- and the other positions are as they were.
  pub apply_entry_effect :
      (pf : Portfolio D T) (e : EntryTerms D T) (fill : Fill D T)
      → fill.output_amount ≤ u64_max
      → (apply_entry pf e fill).0 ≡ ok tt
      → let pf' = (apply_entry pf e fill).1 in
        (p' : Position D T) × (lookup e.mint pf' ≡ some p')
        × IsEntered (held pf e.mint) fill.output_amount p'
        × ((other : String) → other ≢ e.mint → lookup other pf' ≡ lookup other pf)
  apply_entry_effect pf e fill small h =
      let (v, nonzero, q) = apply_entry-ok pf e fill h in
      let p' = entered (lookup e.mint pf) e fill v in
      rw (apply_entry-some pf e fill v nonzero q) (
        p',
        lookup-insert_self e.mint p' pf,
        entered-IsEntered (lookup e.mint pf) e fill v small,
        λ other ne. lookup-insert_ne e.mint other p' pf ne,
      )

  -- An entry that is refused leaves the portfolio as it was.
  pub apply_entry_refused :
      (pf : Portfolio D T) (e : EntryTerms D T) (fill : Fill D T) (x : PortfolioError)
      → (apply_entry pf e fill).0 ≡ err x
      → (apply_entry pf e fill).1 ≡ pf
  unfolding apply_entry
  apply_entry_refused pf e fill x h = ground arith
