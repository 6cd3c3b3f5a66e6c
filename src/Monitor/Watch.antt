-- ===== src/Monitor/Watch.antt =====
-- exit_monitor.rs: the cache of quotes, and the evaluation of one position in `tick`.
use solana_bot.Prelude.{
  ℕ, ◌*◌, ◌^◌, ◌%◌, Bool, not, Option, none, some, List, String, Result, ok, err, if◌then◌else◌,
  nat_beq, ltb, any, string_eq,
}
use solana_bot.Prelude.Int.{pos, ltb_ℤ}
use solana_bot.Prelude.Decimal.{Decimal, Rounding, ◌⊗◌, ◌⊘◌, of_nat, same}
use solana_bot.Prelude.Chrono.{Chrono, since}
use solana_bot.Prelude.Map.{lookup, insert}
use solana_bot.Domain.Trade.{OrderRecord}
use solana_bot.Domain.Position.{Position, is_open, trusted_remaining}
use solana_bot.Execution.{Quote, units}
use solana_bot.Portfolio.{Portfolio, position}
use solana_bot.Storage.{StorageError, Db, Serde, incomplete_orders}
use solana_bot.Runtime.{World, ExitRoute, is_exit_of, ok_only}

-- collector/token_data.rs
unfoldable pub estimate_liquidity_usd : {D : Type 0} ⦃d : Decimal D⦄ ⦃r : Rounding D⦄ → D → ℕ → D
estimate_liquidity_usd ⦃d⦄ ⦃r⦄ size impact_bps =
    if ltb 0 impact_bps then r.round_dp (size ⊗ of_nat 10_000 ⊘ of_nat impact_bps) 2 else of_nat 0

-- The monitor: quotes by mint, with the time at which they were fetched.
abbrev pub Cache : Type 0 → Type 0 → Type 0
Cache R T = List (String × (Quote R T × T))

module _ {R T : Type 0} ⦃c : Chrono T⦄ where
  abbrev pub fresh_entry : ℕ → T → Option (Quote R T × T) → Option (Quote R T)
  fresh_entry ttl now none = none
  fresh_entry ttl now (some (q, fetched)) =
      if ltb_ℤ (since now fetched) (pos (ttl * 1_000_000_000)) then some q else none

  unfoldable pub cached_quote : Cache R T → ℕ → T → String → Option (Quote R T)
  cached_quote cache ttl now mint =
      if nat_beq ttl 0 then none else fresh_entry ttl now (lookup mint cache)

  unfoldable pub cache_quote : Cache R T → String → Quote R T → T → Cache R T
  cache_quote cache mint quote now = insert mint (quote, now) cache

pub record Watch (S R J D T : Type 0) : Type 0 where
  pub world : World S J D T
  pub cache : Cache R T

module _ {D T : Type 0} where
  abbrev pub found_exit :
      Position D T → Result StorageError (List (OrderRecord D T)) → Result StorageError Bool
  found_exit p (ok incomplete) = ok (any (is_exit_of p.position_id) incomplete)
  found_exit p (err e) = err e

module _ {J D T : Type 0} ⦃serde : Serde J D T⦄ where
  unfoldable pub has_inflight_exit : Position D T → Db J T StorageError Bool
  has_inflight_exit p s =
      (found_exit p (incomplete_orders {D = D} s).0, (incomplete_orders {D = D} s).1)

module _ {D T : Type 0} ⦃d : Decimal D⦄ where
  -- The open position of a mint, with its trusted quantity.
  unfoldable pub watched : Portfolio D T → String → Option (Position D T × ℕ)
  watched pf mint = elim (position pf mint) [
    | none ↦ none
    | some p ↦
        if not (is_open p)
        then none
        else elim (trusted_remaining p) [ none ↦ none | some remaining ↦ some (p, remaining) ]
  ]

  -- What a sale needs of the position.
  unfoldable pub sale_route : Position D T → Option (ExitRoute D)
  sale_route p = elim (p.base_entry_price_usd) [
    | none ↦ none
    | some price ↦ elim (p.base_mint_decimals) [
      | none ↦ none
      | some base_decimals ↦ elim (p.token_decimals) [
        | none ↦ none
        | some token_decimals ↦ elim (p.base_mint) [
          | none ↦ none
          | some base_mint ↦ some (record {
            base_price = price;
            base_decimals = base_decimals;
            token_decimals = token_decimals;
            base_mint = base_mint;
          })
        ]
      ]
    ]
  ]

module _ {D : Type 0} ⦃d : Decimal D⦄ where
  abbrev pub marked : D → Option D → Option D → Option D
  marked price (some base_units) (some token_units) =
      if same token_units (of_nat 0) then none else some (base_units ⊗ price ⊘ token_units)
  marked price _ _ = none

  -- The mark from the output of a quote.
  unfoldable pub mark_of_quote : ExitRoute D → ℕ → ℕ → Option D
  mark_of_quote route remaining output =
      marked route.base_price (ok_only (units output route.base_decimals))
        (ok_only (units remaining route.token_decimals))

  unfoldable pub probe_usd : D → ℕ → ℕ → D
  probe_usd mark remaining token_decimals =
      mark ⊗ of_nat remaining ⊘ of_nat (10 ^ token_decimals % 2 ^ 64)
