-- ===== src/Runtime/Execute.antt =====
-- runtime.rs: `execute_exit_order`, from the plan to the result.
use solana_bot.Prelude.{
  ℕ, ◌/◌, Bool, true, false, Option, none, some, String, Result, ok, err, if◌then◌else◌, ltb,
  saturating_mul, u64_max, wrapping_sub,
}
use solana_bot.Prelude.Decimal.{Decimal}
use solana_bot.Prelude.Chrono.{Chrono}
use solana_bot.Config.{Config}
use solana_bot.Domain.Trade.{
  Fill, OrderRecord, OrderState, exit, sell, pending, submitted, failed, unknown, transition,
}
use solana_bot.Execution.{
  Quote, ExecutionRequest, ExecutionError, unknown_outcome, Executor, output_unit_price_usd,
}
use solana_bot.Portfolio.{ExitOutcome, sync_position, apply_exit}
use solana_bot.Storage.{Store, StorageError, Serde, reserve_order, update_order}
use solana_bot.Runtime.Types.{
  Failure, ExitExecResult, exit_confirmed, exit_unknown, exit_failed, exit_skipped, Formats,
  ExitTimes, World, reservation_failed, duplicate_exit, impact_limit, quote_failed,
  execution_failed, impact_exceeds, atomic_persistence_failed, transactional_persistence_failed,
}
use solana_bot.Runtime.Exit.{ExitPlan, id_or_mint, plan_exit, finalize_fill}
use solana_bot.Runtime.Settle.{settle_exit, run_tracing}

module _ {D T : Type 0} ⦃formats : Formats⦄ where
  unfoldable pub exit_order : ExitPlan D T → String → String → ExitTimes T → OrderRecord D T
  exit_order plan mint reason times = record {
    id = times.order_id;
    signal_id = plan.held.signal_id;
    mint = mint;
    kind = exit;
    position_id = plan.held.position_id;
    side = sell;
    input_mint = some mint;
    output_mint = some plan.route.base_mint;
    input_amount_atomic = some plan.remaining;
    input_value_usd = some plan.mark_value;
    output_mint_decimals = some plan.route.base_decimals;
    state = pending;
    idempotency_key =
        formats.exit_idempotency_key (id_or_mint plan.held mint) plan.remaining reason plan.attempt;
    created_at = times.started;
    signature = none;
    error = some reason;
  }

module _ {D T : Type 0} where
  -- A requested state; a refusal is only logged.
  abbrev pub advanced : OrderRecord D T → OrderState → OrderRecord D T
  advanced o next = (transition o next).1

  -- `some` replaces the signature, `none` keeps it.
  abbrev pub signed : Option String → OrderRecord D T → OrderRecord D T
  signed none o = o
  signed (some sig) o = record o { signature = some sig }

  abbrev pub with_error : OrderRecord D T → String → OrderRecord D T
  with_error o text = record o { error = some text }

-- `min_output`; the subtraction of a release build wraps around.
unfoldable pub min_output : ℕ → ℕ → ℕ
min_output output_amount slippage_bps =
    saturating_mul u64_max output_amount (wrapping_sub u64_max 10_000 slippage_bps) / 10_000

abbrev pub exit_request :
    {R D T : Type 0}
    → Config D
    → ExitPlan D T
    → OrderRecord D T
    → Quote R T
    → ExecutionRequest R D T
exit_request config plan order quote = record {
  order_id = order.id;
  quote = quote;
  max_slippage_bps = config.risk.max_slippage_bps;
  max_price_impact_bps = config.execution.max_price_impact_bps;
  min_output_amount = min_output quote.output_amount config.execution.slippage_bps;
  input_decimals = plan.route.token_decimals;
  output_decimals = plan.route.base_decimals;
  value_basis = output_unit_price_usd plan.route.base_price;
}

module _ {S J D T : Type 0} ⦃serde : Serde J D T⦄ where
  -- An update of an order of which an error is only logged.
  abbrev pub logged : OrderRecord D T → T → World S J D T → World S J D T
  logged o now w = record w { store = (update_order o now w.store).1 }

module _ {S J D T : Type 0} ⦃serde : Serde J D T⦄ ⦃d : Decimal D⦄ ⦃c : Chrono T⦄
    ⦃formats : Formats⦄ where
  -- After the transaction: the portfolio in memory follows a success; a failure leaves the order for
  -- the reconciliation.
  abbrev pub settled :
      ExitPlan D T
      → String
      → Fill D T
      → String
      → ExitTimes T
      → (Result Failure (ExitOutcome D) × Store J T) × OrderRecord D T
      → World S J D T
      → ExitExecResult D T × World S J D T
  settled plan mint fill reason times ((ok outcome, s), placed) w = (
    exit_confirmed fill,
    record w {
      store = s;
      portfolio =
          (apply_exit (sync_position w.portfolio plan.held) mint fill reason times.applied).1;
    },
  )
  settled plan mint fill reason times ((err e, s), placed) w = (
    exit_failed (transactional_persistence_failed e),
    logged
        (with_error (advanced (signed (some fill.signature) placed) unknown)
          (formats.shown (atomic_persistence_failed e)))
        times.written (record w { store = s }),
  )

  -- What the executor's answer leads to.
  unfoldable pub after_execute :
      Config D
      → ExitPlan D T
      → String
      → String
      → ExitTimes T
      → OrderRecord D T
      → Result ExecutionError (Fill D T)
      → World S J D T
      → ExitExecResult D T × World S J D T
  after_execute config plan mint reason times placed (ok raw) w =
      let fill = finalize_fill raw config.economics.sol_price_usd in
      settled plan mint fill reason times
        (run_tracing placed
          (settle_exit placed mint fill reason plan.held times.applied times.written) w.store)
        w
  after_execute config plan mint reason times placed (err (unknown_outcome sig detail)) w = (
    exit_unknown,
    logged (with_error (advanced (signed sig placed) unknown) detail) times.written w,
  )
  after_execute config plan mint reason times placed (err e) w = (
    exit_failed (execution_failed e),
    logged (with_error (advanced placed failed) (formats.shown (execution_failed e))) times.written
        w,
  )

module _ {S J R D T : Type 0} ⦃serde : Serde J D T⦄ ⦃d : Decimal D⦄ ⦃c : Chrono T⦄
    ⦃formats : Formats⦄ where
  -- From the quote of a reserved order.
  unfoldable pub after_quote :
      Executor S R D T
      → Config D
      → ExitPlan D T
      → String
      → String
      → ExitTimes T
      → OrderRecord D T
      → Result ExecutionError (Quote R T)
      → World S J D T
      → ExitExecResult D T × World S J D T
  after_quote ex config plan mint reason times order (err e) w = (
    exit_failed (quote_failed e),
    logged (advanced (with_error order (formats.shown (quote_failed e))) failed) times.written w,
  )
  after_quote ex config plan mint reason times order (ok quote) w =
      if ltb config.execution.max_price_impact_bps quote.price_impact_bps
      then (
        exit_failed (impact_exceeds quote.price_impact_bps config.execution.max_price_impact_bps),
        logged (advanced (with_error order (formats.shown impact_limit)) failed) times.written w,
      )
      else let placed = advanced order submitted in
        let told = logged placed times.written w in
        let answer = ex.execute told.executor (exit_request config plan order quote) times.moment in
        after_execute config plan mint reason times placed answer.0
          (record told { executor = answer.1 })

  -- What the reservation leads to.
  unfoldable pub after_reserve :
      Executor S R D T
      → Config D
      → ExitPlan D T
      → String
      → String
      → ExitTimes T
      → OrderRecord D T
      → Result StorageError Bool
      → World S J D T
      → ExitExecResult D T × World S J D T
  after_reserve ex config plan mint reason times order (err e) w =
      (exit_failed (reservation_failed e), w)
  after_reserve ex config plan mint reason times order (ok false) w =
      (exit_skipped duplicate_exit, w)
  after_reserve ex config plan mint reason times order (ok true) w =
      let quoted =
        ex.quote w.executor mint plan.route.base_mint plan.remaining
          config.execution.slippage_bps in
      after_quote ex config plan mint reason times order quoted.0 (record w { executor = quoted.1 })

  abbrev pub after_plan :
      Executor S R D T
      → Config D
      → String
      → String
      → ExitTimes T
      → Result (ExitExecResult D T) (ExitPlan D T) × Store J T
      → World S J D T
      → ExitExecResult D T × World S J D T
  after_plan ex config mint reason times (err early, s) w = (early, record w { store = s })
  after_plan ex config mint reason times (ok plan, s) w =
      let order = exit_order plan mint reason times in
      let reserved = reserve_order order times.started s in
      after_reserve ex config plan mint reason times order reserved.0
        (record w { store = reserved.1 })

  unfoldable pub execute_exit_order :
      Executor S R D T
      → Config D
      → String
      → String
      → ExitTimes T
      → World S J D T
      → ExitExecResult D T × World S J D T
  execute_exit_order ex config mint reason times w =
      after_plan ex config mint reason times (plan_exit mint w.store) w
