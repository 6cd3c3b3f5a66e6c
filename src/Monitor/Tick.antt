-- ===== src/Monitor/Tick.antt =====
-- exit_monitor.rs: `tick`, one evaluation of every open position.
use solana_bot.Prelude.{
  ℕ, Bool, true, false, Option, none, some, List, [], ◌∷◌, map, String, Result, ok, err,
  if◌then◌else◌, ltb,
}
use solana_bot.Prelude.Int.{pos, ◌*ℤ◌, ltb_ℤ}
use solana_bot.Prelude.Decimal.{Rounding, Decimal}
use solana_bot.Prelude.Chrono.{Chrono, since}
use solana_bot.Config.{Config}
use solana_bot.Domain.Position.{Position}
use solana_bot.Strategy.Exit.{ExitReason, as_str, exit_reason}
use solana_bot.Execution.{Quote, ExecutionError, Executor}
use solana_bot.Portfolio.{Portfolio, PortfolioError, position, open_positions, load, mark_to_market}
use solana_bot.Storage.{
  Store, StorageError, Serde, Notes, positions, emergency_stop, kill_switch_reason, save_position,
  last_liquidity, set_last_liquidity, is_signal_invalidated,
}
use solana_bot.Chain.{Node, ChainTexts}
use solana_bot.Runtime.{Formats, ExitTimes, ExitRoute, execute_exit_order, Operator}
use solana_bot.Monitor.Stale.{reconcile_stale_orders}
use solana_bot.Monitor.Watch.{
  estimate_liquidity_usd, cached_quote, cache_quote, Watch, has_inflight_exit, watched, sale_route,
  mark_of_quote, probe_usd,
}

-- The persisted liquidity, unless it is too old; a limit of zero is none.
abbrev pub still_fresh : {D T : Type 0} ⦃c : Chrono T⦄ → ℕ → T → D × T → Option D
still_fresh max_age now (liquidity, seen) =
    if ltb 0 max_age
    then if ltb_ℤ (pos 1_000_000_000 *ℤ pos max_age) (since now seen) then none else some liquidity
    else some liquidity

abbrev pub known_liquidity :
    {D T : Type 0} ⦃c : Chrono T⦄ → ℕ → T → Result StorageError (Option (D × T)) → Option D
known_liquidity max_age now (ok (some seen)) = still_fresh max_age now seen
known_liquidity max_age now (ok none) = none
known_liquidity max_age now (err e) = none

-- An error of the store counts as invalidated.
abbrev pub counts_invalidated : Result StorageError Bool → Bool
counts_invalidated (ok b) = b
counts_invalidated (err e) = true

-- What one position of a tick is evaluated with.
pub record Glance (D T : Type 0) : Type 0 where
  pub held : Position D T
  pub remaining : ℕ
  pub route : ExitRoute D
  pub mark : D
  pub impact_bps : ℕ

module _ {S J R D T : Type 0} where
  abbrev pub with_store : Watch S R J D T → Store J T → Watch S R J D T
  with_store w s = record w { world = record w.world { store = s } }

  abbrev pub with_portfolio : Watch S R J D T → Portfolio D T → Watch S R J D T
  with_portfolio w pf = record w { world = record w.world { portfolio = pf } }

module _ {S J R D T : Type 0} ⦃serde : Serde J D T⦄ ⦃notes : Notes J D T⦄ ⦃d : Decimal D⦄
    ⦃c : Chrono T⦄ ⦃formats : Formats⦄ ⦃r : Rounding D⦄ (ex : Executor S R D T) (config : Config D)
    (now : T) (times : String → ExitTimes T) where
  -- The exit, where there is a reason for one. Its result is only logged.
  abbrev pub exit_for : String → Option ExitReason → Watch S R J D T → Watch S R J D T
  exit_for mint none w = w
  exit_for mint (some reason) w = record w {
    world = (execute_exit_order ex config mint (as_str reason) (times mint) w.world).1;
  }

  -- The liquidity of a position, which the mark refreshes where it is not known.
  unfoldable pub liquidity_for : String → Glance D T → Watch S R J D T → D × Watch S R J D T
  liquidity_for mint glance w =
      let read = last_liquidity mint w.world.store in
      elim (known_liquidity config.runtime.max_liquidity_age_secs now read.0) [
        | some liquidity ↦ (liquidity, with_store w read.1)
        | none ↦
            let refreshed =
              estimate_liquidity_usd
                (probe_usd glance.mark glance.remaining glance.route.token_decimals)
                glance.impact_bps in
            (refreshed, with_store w (set_last_liquidity mint refreshed now read.1).1)
      ]

  -- Once the position is marked and saved.
  unfoldable pub decide : String → Glance D T → Watch S R J D T → Watch S R J D T
  decide mint glance w =
      let (liquidity, w') = liquidity_for mint glance w in
      let read = is_signal_invalidated D glance.held.signal_id w'.world.store in
      exit_for mint
        (exit_reason glance.held glance.mark (some liquidity) config.risk.min_liquidity_usd
          (counts_invalidated read.0) now config.strategy)
        (with_store w' read.1)

  -- `save_position` where the portfolio has the position; an error is logged.
  abbrev pub save_marked : Option (Position D T) → Watch S R J D T → Watch S R J D T
  save_marked none w = w
  save_marked (some p) w = with_store w (save_position p w.world.store).1

  abbrev pub cache_fresh : String → Option (Quote R T) → Watch S R J D T → Watch S R J D T
  cache_fresh mint none w = w
  cache_fresh mint (some quote) w = record w { cache = cache_quote w.cache mint quote now }

  -- A mark that is refused ends the evaluation.
  abbrev pub after_mark :
      String
      → Glance D T
      → Option (Quote R T)
      → Result PortfolioError D × Portfolio D T
      → Watch S R J D T
      → Watch S R J D T
  after_mark mint glance fetched (err e, pf) w = with_portfolio w pf
  after_mark mint glance fetched (ok value, pf) w =
      decide mint glance
        (cache_fresh mint fetched (save_marked (position pf mint) (with_portfolio w pf)))

  -- `fetched` is the quote where it does not come from the cache.
  unfoldable pub with_quote :
      String
      → Position D T × ℕ
      → ExitRoute D
      → Quote R T
      → Option (Quote R T)
      → Watch S R J D T
      → Watch S R J D T
  with_quote mint chosen route quote fetched w =
      elim (mark_of_quote route chosen.1 quote.output_amount) [
        | none ↦ w
        | some mark ↦
            after_mark mint
              (record {
                held = chosen.0;
                remaining = chosen.1;
                route = route;
                mark = mark;
                impact_bps = quote.price_impact_bps;
              })
              fetched (mark_to_market w.world.portfolio mint mark) w
      ]

  abbrev pub after_fetch :
      String
      → Position D T × ℕ
      → ExitRoute D
      → Result ExecutionError (Quote R T) × S
      → Watch S R J D T
      → Watch S R J D T
  after_fetch mint chosen route (err e, x) w = record w { world = record w.world { executor = x } }
  after_fetch mint chosen route (ok quote, x) w =
      with_quote mint chosen route quote (some quote)
        (record w { world = record w.world { executor = x } })

  unfoldable pub price_position :
      String → Position D T × ℕ → ExitRoute D → Watch S R J D T → Watch S R J D T
  price_position mint chosen route w =
      elim (cached_quote w.cache config.runtime.quote_cache_ttl_secs now mint) [
        | some quote ↦ with_quote mint chosen route quote none w
        | none ↦
            after_fetch mint chosen route
              (ex.quote w.world.executor mint route.base_mint chosen.1
                config.execution.slippage_bps)
              w
      ]

  abbrev pub after_inflight :
      String
      → Position D T × ℕ
      → Result StorageError Bool × Store J T
      → Watch S R J D T
      → Result StorageError (Unit {0}) × Watch S R J D T
  after_inflight mint chosen (err e, s) w = (err e, with_store w s)
  after_inflight mint chosen (ok true, s) w = (ok tt, with_store w s)
  after_inflight mint chosen (ok false, s) w = elim (sale_route chosen.0) [
    | none ↦ (ok tt, with_store w s)
    | some route ↦ (ok tt, price_position mint chosen route (with_store w s))
  ]

  unfoldable pub evaluate :
      String → Watch S R J D T → Result StorageError (Unit {0}) × Watch S R J D T
  evaluate mint w = elim (watched w.world.portfolio mint) [
    | none ↦ (ok tt, w)
    | some chosen ↦ after_inflight mint chosen (has_inflight_exit chosen.0 w.world.store) w
  ]

  -- The loop; an error of the in-flight check ends it.
  unfoldable pub evaluate_all :
      List String
      → Result StorageError (Unit {0}) × Watch S R J D T
      → Result StorageError (Unit {0}) × Watch S R J D T
  evaluate_all [] w = w
  evaluate_all (mint ∷ mints) (err e, w) = (err e, w)
  evaluate_all (mint ∷ mints) (ok _, w) = evaluate_all mints (evaluate mint w)

  -- Both interlocks are read, and exits go on whatever they say.
  abbrev pub after_interlocks :
      Result StorageError (Option String) × Store J T
      → Watch S R J D T
      → Result StorageError (Unit {0}) × Watch S R J D T
  after_interlocks (err e, s) w = (err e, with_store w s)
  after_interlocks (ok _, s) w =
      let read = kill_switch_reason D s in
      elim (read.0) [
        | err e ↦ (err e, with_store w read.1)
        | ok _ ↦
            evaluate_all (map (λ p. p.mint) (open_positions w.world.portfolio))
              (ok tt, with_store w read.1)
      ]

  unfoldable pub evaluate_stored :
      Result StorageError (List (Position D T)) × Store J T
      → Watch S R J D T
      → Result StorageError (Unit {0}) × Watch S R J D T
  evaluate_stored (err e, s) w = (err e, with_store w s)
  evaluate_stored (ok stored, s) w =
      after_interlocks (emergency_stop D s) (with_portfolio (with_store w s) (load [] stored))

module _ {N S J R D T : Type 0} ⦃serde : Serde J D T⦄ ⦃notes : Notes J D T⦄ ⦃d : Decimal D⦄
    ⦃c : Chrono T⦄ ⦃formats : Formats⦄ ⦃r : Rounding D⦄ ⦃node : Node N⦄ ⦃texts : ChainTexts⦄ where
  unfoldable pub tick :
      Executor S R D T
      → Config D
      → Operator T
      → (String → ExitTimes T)
      → N × Watch S R J D T
      → Result StorageError (Unit {0}) × (N × Watch S R J D T)
  tick ex config op times (n, w) =
      let settled = reconcile_stale_orders config op (record { node = n; store = w.world.store }) in
      let result =
        evaluate_stored ex config op.now times (positions settled.store)
          (with_store w settled.store) in
      (result.0, (settled.node, result.1))
