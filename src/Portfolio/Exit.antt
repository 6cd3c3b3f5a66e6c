-- ===== src/Portfolio/Exit.antt =====
-- What `apply_exit` of portfolio/mod.rs does to the position that it names.
use solana_bot.Prelude.{
  ℕ, ◌-◌, ◌≤◌, ◌≡◌, refl, ◌≢◌, inl, inr, true, false, none, some, String, nat_beq, arith, Result,
  ok, err, Option-cases,
}
use solana_bot.Prelude.{string_eq}
use solana_bot.Prelude.Decimal.{Decimal}
use solana_bot.Prelude.Map.{lookup, lookup-insert_self, lookup-insert_ne}
use solana_bot.Domain.Trade.{Fill}
use solana_bot.Domain.Position.{Position, closed}
use solana_bot.Portfolio.Book.{
  Portfolio, PortfolioError, unknown_remaining, no_position, ExitOutcome,
}
use solana_bot.Portfolio.Unwind.{sell_down, exit_position, commit, apply_exit}

module _ {D T : Type 0} ⦃d : Decimal D⦄ where
  -- What a successful exit of a position with `r` units left has done to it.
  pub record IsSold (p : Position D T) (r : ℕ) (fill : Fill D T) (p' : Position D T)
      (out : ExitOutcome D) : Type 0 where
    pub covered : fill.input_amount ≤ r
    pub left : p'.remaining_quantity_atomic ≡ some (r - fill.input_amount)
    pub closes : out.closed_out ≡ nat_beq (r - fill.input_amount) 0
    pub closed_state : out.closed_out ≡ true → p'.state ≡ closed
    pub kept_state : out.closed_out ≡ false → p'.state ≡ p.state
    pub kept_mint : p'.mint ≡ p.mint

  pub exit_position-IsSold :
      (p : Position D T) (r : ℕ) (fill : Fill D T) (reason : String) (now : T) (p' : Position D T)
      (out : ExitOutcome D)
      → p.remaining_quantity_atomic ≡ some r
      → exit_position p fill reason now ≡ ok (p', out)
      → IsSold p r fill p' out
  unfolding exit_position sell_down
  exit_position-IsSold p r fill reason now p' out h e = ground arith

  pub exit_position-none :
      (p : Position D T) (fill : Fill D T) (reason : String) (now : T)
      → p.remaining_quantity_atomic ≡ none
      → exit_position p fill reason now ≡ err unknown_remaining
  unfolding exit_position
  exit_position-none p fill reason now h = rw h

  pub apply_exit-some :
      (pf : Portfolio D T) (mint : String) (fill : Fill D T) (reason : String) (now : T)
      (p : Position D T)
      → lookup mint pf ≡ some p
      → apply_exit pf mint fill reason now ≡ commit pf mint (exit_position p fill reason now)
  unfolding apply_exit
  apply_exit-some pf mint fill reason now p h = rw (h, apply_exit)

  pub apply_exit-none :
      (pf : Portfolio D T) (mint : String) (fill : Fill D T) (reason : String) (now : T)
      → lookup mint pf ≡ none
      → apply_exit pf mint fill reason now ≡ (err no_position, pf)
  unfolding apply_exit
  apply_exit-none pf mint fill reason now h = rw (h, apply_exit)

  -- A successful exit takes the sold units off the remaining ones, of which there are enough; it
  -- closes the position exactly when none are left, and touches no other position.
  pub apply_exit_effect :
      (pf : Portfolio D T) (mint : String) (fill : Fill D T) (reason : String) (now : T)
      (p : Position D T) (r : ℕ) (out : ExitOutcome D)
      → lookup mint pf ≡ some p
      → p.remaining_quantity_atomic ≡ some r
      → (apply_exit pf mint fill reason now).0 ≡ ok out
      → let pf' = (apply_exit pf mint fill reason now).1 in
        (p' : Position D T) × (lookup mint pf' ≡ some p')
        × IsSold p r fill p' out
        × ((other : String) → other ≢ mint → lookup other pf' ≡ lookup other pf)
  apply_exit_effect pf mint fill reason now p r out found left =
      rw (apply_exit-some pf mint fill reason now p found)
        (go (exit_position p fill reason now) refl)
    where
      go :
          (res : Result PortfolioError (Position D T × ExitOutcome D))
          → exit_position p fill reason now ≡ res
          → (commit pf mint res).0 ≡ ok out
          → let pf' = (commit pf mint res).1 in
            (p' : Position D T) × (lookup mint pf' ≡ some p')
            × IsSold p r fill p' out
            × ((other : String) → other ≢ mint → lookup other pf' ≡ lookup other pf)
      go (ok (p', o)) q e = (
        p',
        lookup-insert_self mint p' pf,
        exit_position-IsSold p r fill reason now p' out left (cc),
        λ other ne. lookup-insert_ne mint other p' pf ne,
      )
      go (err x) q e = cc

  commit_refused :
      (pf : Portfolio D T) (mint : String)
      (res : Result PortfolioError (Position D T × ExitOutcome D)) (x : PortfolioError)
      → (commit pf mint res).0 ≡ err x
      → (commit pf mint res).1 ≡ pf
  commit_refused pf mint (ok (p, o)) x e = cc
  commit_refused pf mint (err y) x e = refl

  -- An exit that is refused leaves the portfolio as it was.
  pub apply_exit_refused :
      (pf : Portfolio D T) (mint : String) (fill : Fill D T) (reason : String) (now : T)
      (x : PortfolioError)
      → (apply_exit pf mint fill reason now).0 ≡ err x
      → (apply_exit pf mint fill reason now).1 ≡ pf
  unfolding apply_exit
  apply_exit_refused pf mint fill reason now x = elim (Option-cases (lookup mint pf)) [
    | inl missing ↦ rw (missing, apply_exit) (λ _. refl)
    | inr (p, found) ↦
        rw (apply_exit-some pf mint fill reason now p found)
          (commit_refused pf mint (exit_position p fill reason now) x)
  ]
