-- ===== src/Risk/Engine.antt =====
-- risk.rs: `KillSwitch`, `authorize_entry` and `RiskEngine`. A method that changes the engine
-- returns the engine after it; the text of a rejection is a constructor.
use solana_bot.Prelude.{
  ℕ, Bool, true, false, ◌||◌, Option, none, some, if◌then◌else◌, leb, ltb, nat_beq, Result, ok, err,
  ◌>>=◌, ◌>>◌, reject_if, map_err, saturating_add, saturating_sub, u32_max, u64_max,
}
use solana_bot.Prelude.Decimal.{Decimal, ◌⊕◌, ◌⊖◌, ◌⊗◌, ◌⊘◌, of_nat, leq, lss, max_of}
use solana_bot.Prelude.Chrono.{Chrono, before, plus_minutes}
use solana_bot.Config.{RiskConfig}
use solana_bot.Economics.Viability.{ViabilityError}
use solana_bot.Economics.CostModel.{
  CostModel, EconomicGate, EconomicGateDecision, allowed, rejected, check,
}

pub data Rejection : Type 0 where
  kill_switch_latched size_not_positive liquidity_unknown position_limit trade_limit size_limit :
      Rejection
  exposure_limit slippage_limit impact_limit cooldown_active daily_loss_limit : Rejection
  cost_above_threshold stop_loss_not_positive above_risk_maximum nothing_to_exit : Rejection

pub data RiskError : Type 0 where
  economics : ViabilityError → RiskError
  refused : Rejection → RiskError

pub record KillSwitch (D : Type 0) : Type 0 where
  pub starting_capital_usd : D
  pub max_drawdown_pct : D
  pub tripped : Bool

pub record RiskState (D T : Type 0) : Type 0 where
  pub equity_usd : D
  pub day_start_equity_usd : D
  pub total_exposure_usd : D
  pub open_positions : ℕ
  pub trades_today : ℕ
  pub cooldown_until : Option T

pub record RiskEngine (D T : Type 0) : Type 0 where
  pub config : RiskConfig D
  pub kill_switch : KillSwitch D
  pub state : RiskState D T
  pub consecutive_failures : ℕ

module _ {D : Type 0} ⦃d : Decimal D⦄ where
  -- `KillSwitch::new` and `KillSwitch::observe_equity`.
  unfoldable pub new_switch : D → D → KillSwitch D
  new_switch capital drawdown = record {
    starting_capital_usd = capital;
    max_drawdown_pct = drawdown;
    tripped = false;
  }

  unfoldable pub observe : KillSwitch D → D → KillSwitch D
  observe k equity =
      if leq equity (k.starting_capital_usd ⊗ (of_nat 1 ⊖ k.max_drawdown_pct ⊘ of_nat 100))
      then record k { tripped = true }
      else k

  unfoldable pub force_trip : KillSwitch D → KillSwitch D
  force_trip k = record k { tripped = true }

abbrev pub decide_entry : {D : Type 0} → EconomicGateDecision D → Result RiskError (Unit {0})
decide_entry (allowed r) = ok tt
decide_entry (rejected r threshold) = err (refused cost_above_threshold)

module _ {D T : Type 0} ⦃d : Decimal D⦄ where
  unfoldable pub authorize_entry :
      KillSwitch D → EconomicGate D → CostModel D T → Result RiskError (Unit {0})
  authorize_entry switch gate model = do
    reject_if switch.tripped (refused kill_switch_latched)
    decision ← map_err economics (check gate model)
    decide_entry decision

  -- `RiskEngine::new`
  unfoldable pub new_engine : RiskConfig D → D → RiskEngine D T
  unfolding new_switch
  new_engine config equity = record {
    config = config;
    kill_switch = new_switch equity config.max_total_drawdown_before_kill_switch_pct;
    state = record {
      equity_usd = equity;
      day_start_equity_usd = equity;
      total_exposure_usd = of_nat 0;
      open_positions = 0;
      trades_today = 0;
      cooldown_until = none;
    };
    consecutive_failures = 0;
  }

  unfoldable pub max_position_usd : RiskEngine D T → D → Option D
  max_position_usd g stop_loss_pct =
      if leq stop_loss_pct (of_nat 0)
      then none
      else some (g.state.equity_usd ⊗ g.config.max_risk_per_trade_percent ⊘ stop_loss_pct)

  unfoldable pub validate_position_size : RiskEngine D T → D → D → Result RiskError (Unit {0})
  unfolding max_position_usd
  validate_position_size g position_usd stop_loss_pct = elim (max_position_usd g stop_loss_pct) [
    | none ↦ err (refused stop_loss_not_positive)
    | some max_size ↦ if lss max_size position_usd then err (refused above_risk_maximum) else ok tt
  ]

  unfoldable pub authorize_exit : RiskEngine D T → ℕ → Result RiskError (Unit {0})
  authorize_exit g remaining_qty =
      if nat_beq remaining_qty 0 then err (refused nothing_to_exit) else ok tt

  -- `RiskEngine::observe_equity`
  unfoldable pub observe_equity : RiskEngine D T → D → RiskEngine D T
  unfolding observe
  observe_equity g equity =
      let s = g.state in
      record g {
        state = record s { equity_usd = equity };
        kill_switch = observe g.kill_switch equity;
      }

  unfoldable pub set_total_exposure : RiskEngine D T → D → RiskEngine D T
  set_total_exposure g exposure =
      let s = g.state in record g { state = record s { total_exposure_usd = exposure } }

  unfoldable pub register_trade : RiskEngine D T → D → RiskEngine D T
  register_trade g exposure_usd =
      let s = g.state in
      record g {
        state = record s {
          trades_today = saturating_add u32_max s.trades_today 1;
          total_exposure_usd = s.total_exposure_usd ⊕ exposure_usd;
          open_positions = saturating_add u64_max s.open_positions 1;
        };
      }

  unfoldable pub register_exit : RiskEngine D T → D → RiskEngine D T
  register_exit g exposure_usd =
      let s = g.state in
      record g {
        state = record s {
          open_positions = saturating_sub s.open_positions 1;
          total_exposure_usd = max_of (s.total_exposure_usd ⊖ exposure_usd) (of_nat 0);
        };
      }

  -- The Boolean result says whether the switch was tripped by this call.
  unfoldable pub record_execution_failure : RiskEngine D T → Bool × RiskEngine D T
  unfolding force_trip
  record_execution_failure g =
      let failures = saturating_add u32_max g.consecutive_failures 1 in
      if leb g.config.max_consecutive_failures failures
      then (
        true,
        record g { consecutive_failures = failures; kill_switch = force_trip g.kill_switch },
      )
      else (false, record g { consecutive_failures = failures })

module _ {D T : Type 0} where
  unfoldable pub set_open_positions : RiskEngine D T → ℕ → RiskEngine D T
  set_open_positions g count =
      let s = g.state in record g { state = record s { open_positions = count } }

  unfoldable pub record_execution_success : RiskEngine D T → RiskEngine D T
  record_execution_success g = record g { consecutive_failures = 0 }

  unfoldable pub apply_loss_cooldown : ⦃c : Chrono T⦄ → RiskEngine D T → T → RiskEngine D T
  apply_loss_cooldown g now =
      let s = g.state in
      record g {
        state = record s {
          cooldown_until = some (plus_minutes now g.config.cooldown_after_loss_minutes);
        };
      }

abbrev pub cooling : {T : Type 0} ⦃c : Chrono T⦄ → Option T → T → Bool
cooling none now = false
cooling (some until) now = before now until

module _ {D T : Type 0} ⦃d : Decimal D⦄ ⦃c : Chrono T⦄ where
  abbrev pub daily_loss_reached : RiskEngine D T → Bool
  daily_loss_reached g =
      let start = g.state.day_start_equity_usd in
      if lss (of_nat 0) start
      then leq g.config.max_daily_loss_percent ((start ⊖ g.state.equity_usd) ⊘ start ⊗ of_nat 100)
      else false

  unfoldable pub authorize : RiskEngine D T → D → D → ℕ → ℕ → T → Result RiskError (Unit {0})
  authorize g position_usd liquidity_usd expected_slippage_bps price_impact_bps now = do
    reject_if g.kill_switch.tripped (refused kill_switch_latched)
    reject_if (leq position_usd (of_nat 0)) (refused size_not_positive)
    reject_if (leq liquidity_usd (of_nat 0)) (refused liquidity_unknown)
    reject_if (leb g.config.max_concurrent_positions g.state.open_positions)
        (refused position_limit)
    reject_if (leb g.config.max_trades_per_day g.state.trades_today) (refused trade_limit)
    reject_if
        (lss (g.state.equity_usd ⊗ g.config.max_position_percent_of_equity ⊘ of_nat 100)
            position_usd
          || lss (liquidity_usd ⊗ g.config.max_position_percent_of_liquidity ⊘ of_nat 100)
              position_usd)
        (refused size_limit)
    reject_if (leq g.config.max_live_capital_usd (g.state.total_exposure_usd ⊕ position_usd))
        (refused exposure_limit)
    reject_if (ltb g.config.max_slippage_bps expected_slippage_bps) (refused slippage_limit)
    reject_if (ltb g.config.max_slippage_bps price_impact_bps) (refused impact_limit)
    reject_if (cooling g.state.cooldown_until now) (refused cooldown_active)
    reject_if (daily_loss_reached g) (refused daily_loss_limit)
    ok tt
