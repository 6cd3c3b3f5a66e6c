-- ===== src/Runtime/Guard.antt =====
-- runtime.rs: an exit reaches the executor only behind its guards.
use solana_bot.Prelude.{
  ◌≡◌, refl, sym, ap, ◌∙◌, ◌⊎◌, inl, inr, true, false, Bool, String, Result, ok, err, arith,
  Option-cases, Result-cases, Bool-cases, string_eq,
}
use solana_bot.Prelude.Decimal.{Decimal}
use solana_bot.Prelude.Chrono.{Chrono}
use solana_bot.Config.{Config}
use solana_bot.Domain.Trade.{OrderRecord}
use solana_bot.Execution.{Executor}
use solana_bot.Storage.{
  Store, StorageError, statement, Serde, check_order, taken, row_of, reserve_order,
}
use solana_bot.Storage.Keys.{reserve_order-true}
use solana_bot.Runtime.Types.{ExitExecResult, Formats, ExitTimes, World}
use solana_bot.Runtime.Exit.{ExitPlan, plan_exit}
use solana_bot.Runtime.Execute.{exit_order, after_reserve, after_plan, execute_exit_order}
use solana_bot.Runtime.Plan.{plan_exit-Keeps, plan_exit-IsFounded, IsFounded}

module _ {J D T : Type 0} ⦃serde : Serde J D T⦄ where
  -- A reservation that does not succeed writes nothing.
  reserve_order-cases :
      (o : OrderRecord D T) (now : T) (s : Store J T)
      → ((reserve_order o now s).0 ≡ ok true) ⊎ ((reserve_order o now s).1.tables ≡ s.tables)
  unfolding reserve_order statement
  reserve_order-cases o now s = elim (Result-cases (check_order o)) [
    | inr (x, bad) ↦ inr (ground arith)
    | inl (done, fine) ↦ elim (Option-cases (s.fault s.calls)) [
      | inr (e, failed) ↦ inr (ground arith)
      | inl works ↦ elim (Bool-cases (taken (row_of o now) s.tables.orders)) [
        | inl clash ↦ inr (ground arith)
        | inr fresh ↦ inl (ground arith)
      ]
    ]
  ]

module _ {S J D T : Type 0} where
  -- Neither the executor, nor a table, nor the portfolio in memory has changed.
  abbrev pub IsUntouched : World S J D T → World S J D T → Type 0
  IsUntouched w w' =
      (w'.executor ≡ w.executor) × (w'.store.tables ≡ w.store.tables) × (w'.portfolio ≡ w.portfolio)

module _ {S J R D T : Type 0} ⦃serde : Serde J D T⦄ ⦃d : Decimal D⦄ ⦃c : Chrono T⦄
    ⦃formats : Formats⦄ (ex : Executor S R D T) (config : Config D) (mint reason : String)
    (times : ExitTimes T) where
  -- There is a plan with a footing in the store, and its order has a fresh identifier and key.
  abbrev pub IsReserved : World S J D T → Type 0
  IsReserved w =
      (plan : ExitPlan D T) × IsFounded mint w.store plan
      × (taken (row_of (exit_order plan mint reason times) times.started) w.store.tables.orders
          ≡ false)

  after_reserve_guarded :
      (plan : ExitPlan D T) (s : Store J T) (w : World S J D T) (res : Result StorageError Bool)
      → s.tables ≡ w.store.tables
      → IsFounded mint w.store plan
      → (reserve_order (exit_order plan mint reason times) times.started s).0 ≡ res
      → IsUntouched w
          (after_reserve ex config plan mint reason times
            (exit_order plan mint reason times)
            res
            (record w {
              store = (reserve_order (exit_order plan mint reason times) times.started s).1;
            })).1
        ⊎ IsReserved w
  unfolding after_reserve
  after_reserve_guarded plan s w (err e) same founded done =
      elim (reserve_order-cases (exit_order plan mint reason times) times.started s) [
        | inl won ↦ ground arith
        | inr kept ↦ inl (refl, kept ∙ same, refl)
      ]
  after_reserve_guarded plan s w (ok false) same founded done =
      elim (reserve_order-cases (exit_order plan mint reason times) times.started s) [
        | inl won ↦ ground arith
        | inr kept ↦ inl (refl, kept ∙ same, refl)
      ]
  after_reserve_guarded plan s w (ok true) same founded done = inr (
    plan,
    founded,
    ap (λ x. taken (row_of (exit_order plan mint reason times) times.started) x.orders) (sym same)
        ∙ (reserve_order-true (exit_order plan mint reason times) times.started s done).0,
  )

  after_plan_guarded :
      (w : World S J D T) (r : Result (ExitExecResult D T) (ExitPlan D T) × Store J T)
      → plan_exit mint w.store ≡ r
      → IsUntouched w (after_plan ex config mint reason times r w).1 ⊎ IsReserved w
  after_plan_guarded w (err early, s) done =
      inl (refl, sym (ap (λ x. x.1.tables) done) ∙ (plan_exit-Keeps D mint w.store).0, refl)
  after_plan_guarded w (ok plan, s) done =
      after_reserve_guarded plan s w _
        (sym (ap (λ x. x.1.tables) done) ∙ (plan_exit-Keeps D mint w.store).0)
        (plan_exit-IsFounded mint w.store s plan done) refl

  -- An exit leaves the executor, the tables and the portfolio alone, unless there is an open
  -- position of the mint with a trusted quantity, no exit of it among the incomplete orders, and
  -- neither the identifier nor the idempotency key of its order is taken.
  pub execute_exit_order_guarded :
      (w : World S J D T)
      → IsUntouched w (execute_exit_order ex config mint reason times w).1 ⊎ IsReserved w
  unfolding execute_exit_order
  execute_exit_order_guarded w = after_plan_guarded w (plan_exit mint w.store) refl
