-- ===== src/Portfolio/Units.antt =====
-- What one call of portfolio/mod.rs does to the units held of a mint, whichever mint the call is
-- about.
use solana_bot.Prelude.{
  ℕ, ◌+◌, ◌≤◌, ◌≡◌, refl, inl, inr, none, some, String, arith, sym, ap, Result, ok, err, is_ok,
  Option-cases, Result-cases, Bool-cases, unwrap_or, u64_max, string_eq, if◌then◌else◌, ◌==◌,
}
use mathlib.Core.Path.{subst}
use solana_bot.Prelude.Decimal.{Decimal}
use solana_bot.Prelude.Map.{lookup, insert, lookup-insert}
use solana_bot.Domain.Trade.{Fill}
use solana_bot.Domain.Position.{Position}
use solana_bot.Portfolio.Book.{
  Portfolio, PortfolioError, ExitOutcome, EntryTerms, entered, apply_entry,
}
use solana_bot.Portfolio.Unwind.{exit_position, commit, apply_exit, mark, mark_to_market}
use solana_bot.Portfolio.Entry.{
  units_of, held, entered-IsEntered, apply_entry-some, apply_entry-ok, apply_entry_refused,
}
use solana_bot.Portfolio.Exit.{
  exit_position-IsSold, exit_position-none, apply_exit-some, apply_exit-none,
}

module _ {D T : Type 0} ⦃d : Decimal D⦄ where
  held-insert :
      (pf : Portfolio D T) (k m : String) (p : Position D T)
      → held (insert k p pf) m
        ≡ (if k == m then unwrap_or p.remaining_quantity_atomic 0 else held pf m)
  held-insert pf k m p = rw (lookup-insert m k p pf) (ground arith)

  -- The units after an entry with the result `r`.
  abbrev pub Adds :
      String
      → Portfolio D T
      → EntryTerms D T
      → Fill D T
      → Result PortfolioError (Unit {0}) × Portfolio D T
      → Type 0
  Adds m pf e fill r =
      let more = if e.mint == m then if is_ok r.0 then fill.output_amount else 0 else 0 in
      held pf m + more ≤ u64_max → held r.1 m ≡ held pf m + more

  entered-Adds :
      (m : String) (pf : Portfolio D T) (e : EntryTerms D T) (fill : Fill D T) (v : D)
      → fill.output_amount ≤ u64_max
      → Adds m pf e fill (ok tt, insert e.mint (entered (lookup e.mint pf) e fill v) pf)
  entered-Adds m pf e fill v fits = elim (Bool-cases (e.mint == m)) [
    | inl same ↦
        let now_held = (entered-IsEntered (lookup e.mint pf) e fill v fits).total in
        let one : units_of (lookup e.mint pf) ≡ held pf m =
          ap (held pf) ((string_eq.beq_iff e.mint m).0 same) in
        rw (held-insert, same) (rw now_held (λ small. omega arith))
    | inr other ↦ rw (held-insert, other) (λ _. omega arith)
  ]

  pub enter_units :
      (m : String) (pf : Portfolio D T) (e : EntryTerms D T) (fill : Fill D T)
      → fill.output_amount ≤ u64_max
      → Adds m pf e fill (apply_entry pf e fill)
  enter_units m pf e fill fits = elim (Result-cases (apply_entry pf e fill).0) [
    | inl (done, good) ↦
        let (v, nonzero, q) = apply_entry-ok pf e fill good in
        subst (Adds m pf e fill) (sym (apply_entry-some pf e fill v nonzero q))
          (entered-Adds m pf e fill v fits)
    | inr (x, bad) ↦ rw (apply_entry_refused pf e fill x bad, bad) (λ _. ground arith)
  ]

  exit_units :
      (p : Position D T) (fill : Fill D T) (reason : String) (now : T) (p' : Position D T)
      (out : ExitOutcome D)
      → exit_position p fill reason now ≡ ok (p', out)
      → unwrap_or p'.remaining_quantity_atomic 0 + fill.input_amount
        ≡ unwrap_or p.remaining_quantity_atomic 0
  exit_units p fill reason now p' out e = elim (Option-cases p.remaining_quantity_atomic) [
    | inl missing ↦ cc (exit_position-none p fill reason now missing)
    | inr (r, q) ↦ let s = exit_position-IsSold p r fill reason now p' out q e in ground arith
  ]

  -- The units after an exit with the result `r`.
  abbrev pub Takes :
      String
      → Portfolio D T
      → String
      → Fill D T
      → Result PortfolioError (ExitOutcome D) × Portfolio D T
      → Type 0
  Takes m pf mint fill r =
      held r.1 m + (if mint == m then if is_ok r.0 then fill.input_amount else 0 else 0) ≡ held pf m

  commit-Takes :
      (m : String) (pf : Portfolio D T) (mint : String) (p : Position D T) (fill : Fill D T)
      (res : Result PortfolioError (Position D T × ExitOutcome D))
      → lookup mint pf ≡ some p
      → ((p' : Position D T) (out : ExitOutcome D)
          → res ≡ ok (p', out)
          → unwrap_or p'.remaining_quantity_atomic 0 + fill.input_amount
            ≡ unwrap_or p.remaining_quantity_atomic 0)
      → Takes m pf mint fill (commit pf mint res)
  commit-Takes m pf mint p fill (err x) found h = ground arith
  commit-Takes m pf mint p fill (ok (p', out)) found h = elim (Bool-cases (mint == m)) [
    | inl same ↦
        let one : held pf mint ≡ held pf m = ap (held pf) ((string_eq.beq_iff mint m).0 same) in
        let before : held pf mint ≡ unwrap_or p.remaining_quantity_atomic 0 = ap units_of found in
        rw (held-insert, same) (omega (arith, h p' out refl))
    | inr other ↦ rw (held-insert, other) (omega arith)
  ]

  pub leave_units :
      (m : String) (pf : Portfolio D T) (mint : String) (fill : Fill D T) (reason : String)
      (now : T)
      → Takes m pf mint fill (apply_exit pf mint fill reason now)
  leave_units m pf mint fill reason now = elim (Option-cases (lookup mint pf)) [
    | inl missing ↦
        subst (Takes m pf mint fill) (sym (apply_exit-none pf mint fill reason now missing))
          (ground arith)
    | inr (p, found) ↦
        subst (Takes m pf mint fill) (sym (apply_exit-some pf mint fill reason now p found)) (
          commit-Takes m pf mint p fill (exit_position p fill reason now) found
            (exit_units p fill reason now))
  ]

  mark-remaining :
      (p : Position D T) (price : D) (r : ℕ)
      → (mark p price r).1.remaining_quantity_atomic ≡ p.remaining_quantity_atomic
  unfolding mark
  mark-remaining p price r = ground arith

  mark_to_market-some :
      (pf : Portfolio D T) (mint : String) (price : D) (p : Position D T) (r : ℕ)
      → lookup mint pf ≡ some p
      → p.remaining_quantity_atomic ≡ some r
      → mark_to_market pf mint price ≡ ((mark p price r).0, insert mint (mark p price r).1 pf)
  unfolding mark_to_market
  mark_to_market-some pf mint price p r found q = ground arith

  mark_to_market-none :
      (pf : Portfolio D T) (mint : String) (price : D) (p : Position D T)
      → lookup mint pf ≡ some p
      → p.remaining_quantity_atomic ≡ none
      → (mark_to_market pf mint price).1 ≡ pf
  unfolding mark_to_market
  mark_to_market-none pf mint price p found q = ground arith

  mark_to_market_missing :
      (pf : Portfolio D T) (mint : String) (price : D)
      → lookup mint pf ≡ none
      → (mark_to_market pf mint price).1 ≡ pf
  unfolding mark_to_market
  mark_to_market_missing pf mint price missing = ground arith

  marked_units :
      (m : String) (pf : Portfolio D T) (mint : String) (price : D) (p : Position D T) (r : ℕ)
      → lookup mint pf ≡ some p
      → held (insert mint (mark p price r).1 pf) m ≡ held pf m
  marked_units m pf mint price p r found = elim (Bool-cases (mint == m)) [
    | inl same ↦
        let one : held pf mint ≡ held pf m = ap (held pf) ((string_eq.beq_iff mint m).0 same) in
        let before : held pf mint ≡ unwrap_or p.remaining_quantity_atomic 0 = ap units_of found in
        rw (held-insert, same) (rw (mark-remaining p price r) (omega arith))
    | inr other ↦ rw (held-insert, other)
  ]

  pub revalue_units :
      (m : String) (pf : Portfolio D T) (mint : String) (price : D)
      → held (mark_to_market pf mint price).1 m ≡ held pf m
  revalue_units m pf mint price = elim (Option-cases (lookup mint pf)) [
    | inl missing ↦ rw (mark_to_market_missing pf mint price missing)
    | inr (p, found) ↦ elim (Option-cases p.remaining_quantity_atomic) [
      | inl blank ↦ rw (mark_to_market-none pf mint price p found blank)
      | inr (r, q) ↦
          subst (λ x. held x.1 m ≡ held pf m) (sym (mark_to_market-some pf mint price p r found q))
            (marked_units m pf mint price p r found)
    ]
  ]
