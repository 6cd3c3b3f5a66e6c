-- ===== src/Risk/Session.antt =====
-- A session over the engine of risk.rs: an entry is authorized before it is registered, exits,
-- equity observations, failures, successes and cooldowns come in any order.
use solana_bot.Prelude.{
  ℕ, ◌≤◌, ◌≡◌, List, [], ◌∷◌, arith, ok, is_ok, if◌then◌else◌, inl, inr, All, Result-cases,
}
use solana_bot.Prelude.Decimal.{Decimal, IsOrdered, IsSigned, ◌⊖◌, of_nat, ◌≼◌, ◌≺◌, max_of}
use solana_bot.Prelude.Chrono.{Chrono}
use solana_bot.Risk.Engine.{
  RiskEngine, authorize, register_trade, register_exit, observe_equity, record_execution_failure,
  record_execution_success, apply_loss_cooldown,
}
use solana_bot.Risk.Entry.{authorize-IsAllowed}

pub data Event (D T : Type 0) : Type 0 where
  open_trade : (position liquidity : D) (slippage impact : ℕ) (now : T) → Event D T
  close_trade : (exposure : D) → Event D T
  see_equity : (equity : D) → Event D T
  failure success : Event D T
  loss : (now : T) → Event D T

module _ {D T : Type 0} ⦃d : Decimal D⦄ ⦃c : Chrono T⦄ where
  unfoldable pub handle : RiskEngine D T → Event D T → RiskEngine D T
  handle g (open_trade position liquidity slippage impact now) =
      if is_ok (authorize g position liquidity slippage impact now)
      then register_trade g position
      else g
  handle g (close_trade exposure) = register_exit g exposure
  handle g (see_equity equity) = observe_equity g equity
  handle g failure = (record_execution_failure g).1
  handle g success = record_execution_success g
  handle g (loss now) = apply_loss_cooldown g now

  unfoldable pub handle_all : RiskEngine D T → List (Event D T) → RiskEngine D T
  handle_all g [] = g
  handle_all g (e ∷ es) = handle_all (handle g e) es

  -- Exits give back an exposure that is not negative.
  abbrev pub IsSane : Event D T → Type 0
  IsSane (close_trade exposure) = of_nat 0 ≼ exposure
  IsSane _ = Unit

  -- The documented limits on the state of a session.
  pub record IsWithin (g : RiskEngine D T) : Type 0 where
    pub capital : of_nat 0 ≺ g.config.max_live_capital_usd
    pub slots : g.state.open_positions ≤ g.config.max_concurrent_positions
    pub trades : g.state.trades_today ≤ g.config.max_trades_per_day
    pub exposure : g.state.total_exposure_usd ≺ g.config.max_live_capital_usd

lower_exposure :
    {D : Type 0} ⦃d : Decimal D⦄
    → IsOrdered D
    → IsSigned D
    → (total exposure limit : D) → of_nat 0 ≼ exposure
    → of_nat 0 ≺ limit
    → total ≺ limit
    → max_of (total ⊖ exposure) (of_nat 0) ≺ limit
lower_exposure order signs total exposure limit h pos_limit t =
    let low = signs.sub_le total exposure h in
    ground (arith, order.leq_trans limit (total ⊖ exposure) total)

module _ {D T : Type 0} ⦃d : Decimal D⦄ ⦃c : Chrono T⦄ where
  open_trade-IsWithin :
      (g : RiskEngine D T) (position liquidity : D) (slippage impact : ℕ) (now : T)
      → IsWithin g
      → authorize g position liquidity slippage impact now ≡ ok tt
      → IsWithin (register_trade g position)
  unfolding register_trade
  open_trade-IsWithin g position liquidity slippage impact now w e =
      let a = authorize-IsAllowed g position liquidity slippage impact now e in
      record {
        capital = w.capital;
        slots = omega (arith, a.slots);
        trades = omega (arith, a.trades);
        exposure = a.exposure_cap;
      }

  module _ (order : IsOrdered D) (signs : IsSigned D) where
    handle-IsWithin :
        (g : RiskEngine D T) (e : Event D T) → IsSane e → IsWithin g → IsWithin (handle g e)
    unfolding handle register_exit observe_equity record_execution_failure record_execution_success
        apply_loss_cooldown
    handle-IsWithin g (open_trade position liquidity slippage impact now) s w =
        elim (Result-cases (authorize g position liquidity slippage impact now)) [
          | inl (done, e) ↦ rw e (open_trade-IsWithin g position liquidity slippage impact now w e)
          | inr (x, e) ↦ rw e w
        ]
    handle-IsWithin g (close_trade exposure) s w = record {
      capital = w.capital;
      slots = omega (arith, w.slots);
      trades = w.trades;
      exposure = lower_exposure order signs _ exposure _ s w.capital w.exposure;
    }
    handle-IsWithin g (see_equity equity) s w = record {
      capital = w.capital;
      slots = w.slots;
      trades = w.trades;
      exposure = w.exposure;
    }
    handle-IsWithin g failure s w = ground arith
    handle-IsWithin g success s w = record {
      capital = w.capital;
      slots = w.slots;
      trades = w.trades;
      exposure = w.exposure;
    }
    handle-IsWithin g (loss now) s w = record {
      capital = w.capital;
      slots = w.slots;
      trades = w.trades;
      exposure = w.exposure;
    }

    -- Whatever entries are asked for, and in whatever order the other events come, a session that
    -- starts within its limits never holds more positions, never makes more trades and never has
    -- more total exposure than its configuration permits.
    pub handle_all-IsWithin :
        (g : RiskEngine D T) (es : List (Event D T))
        → All IsSane es
        → IsWithin g
        → IsWithin (handle_all g es)
    unfolding handle_all
    handle_all-IsWithin g [] s w = w
    handle_all-IsWithin g (e ∷ es) (s, ss) w =
        handle_all-IsWithin (handle g e) es ss (handle-IsWithin g e s w)
