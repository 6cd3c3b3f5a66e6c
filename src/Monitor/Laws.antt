-- ===== src/Monitor/Laws.antt =====
-- exit_monitor.rs: what `tick` does where the evidence is missing, and where an exit is in flight.
use solana_bot.Prelude.{◌≡◌, refl, ap, ◌∙◌, true, Bool, none, some, String, arith}
use solana_bot.Prelude.Decimal.{Rounding, Decimal, of_nat, lss}
use solana_bot.Prelude.Chrono.{Chrono}
use solana_bot.Config.{Config}
use solana_bot.Strategy.Exit.{liquidity_deterioration, exit_reason, as_str}
use solana_bot.Execution.{Executor}
use solana_bot.Storage.{Serde, Notes, last_liquidity, is_signal_invalidated}
use solana_bot.Runtime.{Formats, ExitTimes, execute_exit_order}
use solana_bot.Monitor.Watch.{estimate_liquidity_usd, Watch}
use solana_bot.Monitor.Tick.{
  Glance, known_liquidity, exit_for, liquidity_for, decide, with_store, counts_invalidated,
}

module _ {D T : Type 0} ⦃d : Decimal D⦄ ⦃c : Chrono T⦄ (config : Config D) (now : T) where
  exit_reason-illiquid :
      (glance : Glance D T) (liquidity : D) (invalidated : Bool)
      → lss liquidity config.risk.min_liquidity_usd ≡ true
      → exit_reason glance.held glance.mark
          (some liquidity)
          config.risk.min_liquidity_usd
          invalidated
          now
          config.strategy
        ≡ some liquidity_deterioration
  unfolding exit_reason
  exit_reason-illiquid glance liquidity invalidated low = rw low refl

module _ {S J R D T : Type 0} ⦃serde : Serde J D T⦄ ⦃notes : Notes J D T⦄ ⦃d : Decimal D⦄
    ⦃c : Chrono T⦄ ⦃formats : Formats⦄ ⦃r : Rounding D⦄ (ex : Executor S R D T) (config : Config D)
    (now : T) (times : String → ExitTimes T) where
  -- The estimate of the liquidity is zero where the quote has no impact.
  liquidity_for-zero :
      (mint : String) (glance : Glance D T) (w : Watch S R J D T)
      → known_liquidity {D = D} config.runtime.max_liquidity_age_secs now
          (last_liquidity mint w.world.store).0
        ≡ none
      → glance.impact_bps ≡ 0
      → (liquidity_for ex config now times mint glance w).0 ≡ of_nat 0
  unfolding liquidity_for estimate_liquidity_usd
  liquidity_for-zero mint glance w unknown none_at_all = ground arith

  -- For a position without fresh liquidity evidence, whose sell quote has an impact of zero basis
  -- points, an exit order with the reason `liquidity_deterioration` is executed once the liquidity and
  -- the signal are read, whatever its mark, wherever a positive liquidity is asked for.
  pub decide_zero_impact :
      (mint : String) (glance : Glance D T) (w : Watch S R J D T)
      → known_liquidity {D = D} config.runtime.max_liquidity_age_secs now
          (last_liquidity mint w.world.store).0
        ≡ none
      → glance.impact_bps ≡ 0
      → lss (of_nat 0) config.risk.min_liquidity_usd ≡ true
      → let w' = (liquidity_for ex config now times mint glance w).1 in
        decide ex config now times mint glance w ≡ (
          let read =
            with_store w' (is_signal_invalidated D glance.held.signal_id w'.world.store).1 in
          record read {
            world =
                (execute_exit_order ex config mint "liquidity_deterioration"
                  (times mint)
                  read.world).1;
          })
  unfolding decide as_str
  decide_zero_impact mint glance w unknown none_at_all asked =
      let w' = (liquidity_for ex config now times mint glance w).1 in
      let read = is_signal_invalidated D glance.held.signal_id w'.world.store in
      let zero = liquidity_for-zero mint glance w unknown none_at_all in
      ap (λ reason. exit_for ex config now times mint reason (with_store w' read.1))
        (exit_reason-illiquid config now glance (liquidity_for ex config now times mint glance w).0
          (counts_invalidated read.0) (ap (λ l. lss l config.risk.min_liquidity_usd) zero ∙ asked))
