-- ===== src/Risk/Latch.antt =====
-- The kill switch of risk.rs over a session: it never clears, it stops entries and not exits, and
-- enough failures in a row trip it.
use solana_bot.Prelude.{
  ℕ, suc, ◌+◌, ◌≤◌, ◌<◌, ◌≡◌, refl, ◌≢◌, true, List, [], ◌∷◌, arith, ok, err, ◌⊎◌, inl, inr,
  u32_max,
}
use solana_bot.Prelude.Decimal.{Decimal, of_nat, ◌≼◌, ◌⊗◌, ◌⊖◌, ◌⊘◌}
use solana_bot.Prelude.Chrono.{Chrono}
use solana_bot.Economics.CostModel.{CostModel, EconomicGate}
use solana_bot.Risk.Engine.{
  RiskEngine, refused, kill_switch_latched, authorize, authorize_entry, authorize_exit,
  register_trade, register_exit, observe_equity, record_execution_failure, record_execution_success,
  apply_loss_cooldown,
}
use solana_bot.Risk.Session.{
  Event, open_trade, close_trade, see_equity, failure, success, loss, handle, handle_all,
}

module _ {D T : Type 0} ⦃d : Decimal D⦄ ⦃c : Chrono T⦄ where
  abbrev Tripped : RiskEngine D T → Type 0
  Tripped g = g.kill_switch.tripped ≡ true

  handle-Tripped : (g : RiskEngine D T) (e : Event D T) → Tripped g → Tripped (handle g e)
  unfolding handle register_trade register_exit observe_equity record_execution_failure
      record_execution_success apply_loss_cooldown
  handle-Tripped g (open_trade position liquidity slippage impact now) h = ground arith
  handle-Tripped g (close_trade exposure) h = h
  handle-Tripped g (see_equity equity) h = ground arith
  handle-Tripped g failure h = ground arith
  handle-Tripped g success h = h
  handle-Tripped g (loss now) h = h

  handle_all-Tripped :
      (g : RiskEngine D T) (es : List (Event D T)) → Tripped g → Tripped (handle_all g es)
  unfolding handle_all
  handle_all-Tripped g [] h = h
  handle_all-Tripped g (e ∷ es) h = handle_all-Tripped (handle g e) es (handle-Tripped g e h)

  authorize-Tripped :
      (g : RiskEngine D T) (position liquidity : D) (slippage impact : ℕ) (now : T)
      → Tripped g
      → authorize g position liquidity slippage impact now ≡ err (refused kill_switch_latched)
  unfolding authorize
  authorize-Tripped g position liquidity slippage impact now h = ground arith

  authorize_entry-Tripped :
      (g : RiskEngine D T) (gate : EconomicGate D) (model : CostModel D T)
      → Tripped g
      → authorize_entry g.kill_switch gate model ≡ err (refused kill_switch_latched)
  unfolding authorize_entry
  authorize_entry-Tripped g gate model h = ground arith

  authorize_exit-nonzero :
      (g : RiskEngine D T) (quantity : ℕ) → quantity ≢ 0 → authorize_exit g quantity ≡ ok tt
  unfolding authorize_exit
  authorize_exit-nonzero g quantity h = ground arith

  -- Once the equity has been seen at or below the drawdown line, then after any further events of
  -- the session every entry is refused by both checks, and every exit of a positive quantity is
  -- still authorized.
  pub drawdown_latches :
      (g : RiskEngine D T) (equity : D) (es : List (Event D T)) (position liquidity : D)
      (slippage impact : ℕ) (now : T) (gate : EconomicGate D) (model : CostModel D T) (quantity : ℕ)
      → let k = g.kill_switch in
        equity ≼ k.starting_capital_usd ⊗ (of_nat 1 ⊖ k.max_drawdown_pct ⊘ of_nat 100)
        → let later = handle_all (observe_equity g equity) es in
          (authorize later position liquidity slippage impact now
            ≡ err (refused kill_switch_latched))
          × (authorize_entry later.kill_switch gate model ≡ err (refused kill_switch_latched))
          × (quantity ≢ 0 → authorize_exit later quantity ≡ ok tt)
  unfolding observe_equity
  drawdown_latches g equity es position liquidity slippage impact now gate model quantity low =
      let start : Tripped (observe_equity g equity) = ground arith in
      let after = handle_all (observe_equity g equity) es in
      let later : Tripped after = handle_all-Tripped (observe_equity g equity) es start in
      (
        authorize-Tripped after position liquidity slippage impact now later,
        authorize_entry-Tripped after gate model later,
        authorize_exit-nonzero after quantity,
      )

  -- How many events are failures, in a list without a success.
  abbrev pub count_failures : List (Event D T) → ℕ
  count_failures [] = 0
  count_failures (failure ∷ es) = suc (count_failures es)
  count_failures (_ ∷ es) = count_failures es

  abbrev pub HasNoSuccess : List (Event D T) → Type 0
  HasNoSuccess [] = Unit
  HasNoSuccess (success ∷ es) = ⊥
  HasNoSuccess (_ ∷ es) = HasNoSuccess es

  -- The engine still waits for its limit of failures, and `n` more would reach it.
  abbrev Awaits : RiskEngine D T → ℕ → Type 0
  Awaits g n =
      (g.consecutive_failures < g.config.max_consecutive_failures)
      × (g.config.max_consecutive_failures ≤ g.consecutive_failures + n)
      × (g.config.max_consecutive_failures ≤ u32_max)

  failure_step :
      (g : RiskEngine D T) (n : ℕ)
      → Awaits g (suc n)
      → Tripped (handle g failure) ⊎ Awaits (handle g failure) n
  unfolding handle record_execution_failure
  failure_step g n a = ground arith

  other_step :
      (g : RiskEngine D T) (e : Event D T) (n : ℕ)
      → e ≢ failure
      → e ≢ success
      → Awaits g n
      → Awaits (handle g e) n
  unfolding handle register_trade register_exit observe_equity apply_loss_cooldown
  other_step g (open_trade position liquidity slippage impact now) n f s a = ground arith
  other_step g (close_trade exposure) n f s a = a
  other_step g (see_equity equity) n f s a = a
  other_step g failure n f s a = absurd (f refl)
  other_step g success n f s a = absurd (s refl)
  other_step g (loss now) n f s a = a

  -- As many failures as the limit asks for, with no success among them but any other events, trip
  -- the kill switch.
  pub failures_trip :
      (g : RiskEngine D T) (es : List (Event D T))
      → HasNoSuccess es
      → g.consecutive_failures < g.config.max_consecutive_failures
      → g.config.max_consecutive_failures ≤ g.consecutive_failures + count_failures es
      → g.config.max_consecutive_failures ≤ u32_max
      → (handle_all g es).kill_switch.tripped ≡ true
  unfolding handle_all
  failures_trip g [] q lt le small = absurd (omega arith)
  failures_trip g (failure ∷ es) q lt le small =
      elim (failure_step g (count_failures es) (lt, le, small)) [
        | inl h ↦ handle_all-Tripped (handle g failure) es h
        | inr (lt', le', small') ↦ failures_trip (handle g failure) es q lt' le' small'
      ]
  failures_trip g (success ∷ es) q lt le small = absurd q
  failures_trip g (open_trade p l s i n ∷ es) q lt le small =
      let e : Event D T = open_trade p l s i n in
      let a = other_step g e (count_failures es) (cc) (cc) (lt, le, small) in
      failures_trip (handle g e) es q a.0 a.1 a.2
  failures_trip g (close_trade x ∷ es) q lt le small =
      let a = other_step g (close_trade x) (count_failures es) (cc) (cc) (lt, le, small) in
      failures_trip (handle g (close_trade x)) es q a.0 a.1 a.2
  failures_trip g (see_equity x ∷ es) q lt le small =
      let a = other_step g (see_equity x) (count_failures es) (cc) (cc) (lt, le, small) in
      failures_trip (handle g (see_equity x)) es q a.0 a.1 a.2
  failures_trip g (loss n ∷ es) q lt le small =
      let a = other_step g (loss n) (count_failures es) (cc) (cc) (lt, le, small) in
      failures_trip (handle g (loss n)) es q a.0 a.1 a.2
