-- ===== src/Runtime/Confirmed.antt =====
-- runtime.rs: an exit that is reported as confirmed is stored as a whole.
use solana_bot.Prelude.{
  ℕ, ◌≡◌, refl, sym, ap, ◌∙◌, Bool, true, false, none, some, List, [], ◌∷◌, ◌==◌, String, Result,
  ok, err, arith, inl, inr, Result-cases, ltb, Bool-cases, string_eq,
}
use mathlib.Core.Path.{subst}
use solana_bot.Prelude.Decimal.{Decimal}
use solana_bot.Prelude.Chrono.{Chrono}
use solana_bot.Config.{Config}
use solana_bot.Domain.Trade.{Fill, OrderRecord, OrderState, transition, submitted}
use solana_bot.Domain.Position.{Position, trusted_remaining}
use solana_bot.Execution.{Executor, ExecutionError, Quote}
use solana_bot.Portfolio.{ExitOutcome}
use solana_bot.Storage.{Store, StorageError, Serde, check_order, update_order, reserve_order}
use solana_bot.Storage.Throughout.{reserve_order-ok, reserve_order-err}
use solana_bot.Runtime.Types.{Failure, ExitExecResult, exit_confirmed, Formats, ExitTimes, World}
use solana_bot.Runtime.Exit.{ExitPlan, find_mint, finalize_fill, plan_exit}
use solana_bot.Runtime.Settle.{settle_exit, run_tracing}
use solana_bot.Runtime.Execute.{
  exit_order, settled, after_execute, after_quote, after_reserve, after_plan, execute_exit_order,
  advanced, logged,
}
use solana_bot.Runtime.Steps.{statement-saved}
use solana_bot.Runtime.Early.{plan_exit-early}
use solana_bot.Runtime.Plan.{IsFounded, plan_exit-IsFounded, plan_exit-Keeps}
use solana_bot.Runtime.Booked.{IsBooked}
use solana_bot.Runtime.Traced.{tracing-IsBooked}

module _ {D T : Type 0} where
  find_mint-mint :
      (mint : String) (stored : List (Position D T)) (p : Position D T)
      → find_mint mint stored ≡ some p
      → p.mint ≡ mint
  find_mint-mint mint [] p found = ground arith
  find_mint-mint mint (q ∷ stored) p found = elim (Bool-cases (q.mint == mint)) [
    | inl same ↦ ground (arith, string_eq.beq_iff q.mint mint)
    | inr other ↦ find_mint-mint mint stored p (ground arith)
  ]

  trusted_remaining-some :
      (p : Position D T) (n : ℕ)
      → trusted_remaining p ≡ some n
      → p.remaining_quantity_atomic ≡ some n
  unfolding trusted_remaining
  trusted_remaining-some p n trusted = ground arith

  advanced-id : (o : OrderRecord D T) (next : OrderState) → (advanced o next).id ≡ o.id
  unfolding transition
  advanced-id o next = ground arith

module _ {J D T : Type 0} ⦃serde : Serde J D T⦄ where
  reserve_order-saved :
      (o : OrderRecord D T) (now : T) (s : Store J T) → (reserve_order o now s).1.saved ≡ s.saved
  reserve_order-saved o now s = elim (Result-cases (check_order o)) [
    | inl (done, good) ↦ ap (λ x. x.1.saved) (reserve_order-ok o now s good) ∙ statement-saved _ s
    | inr (x, bad) ↦ ap (λ x. x.1.saved) (reserve_order-err o now s x bad)
  ]

module _ {J D T : Type 0} ⦃serde : Serde J D T⦄ ⦃d : Decimal D⦄ where
  -- The store after a confirmed exit.
  abbrev pub IsStored : String → String → ExitPlan D T → Fill D T → Store J T → Type 0
  IsStored mint order_id plan fill s =
      (s.saved ≡ none) × IsBooked mint order_id plan.held plan.remaining fill s.tables

module _ {S J D T : Type 0} ⦃serde : Serde J D T⦄ where
  logged-saved :
      (o : OrderRecord D T) (now : T) (w : World S J D T)
      → (logged o now w).store.saved ≡ w.store.saved
  unfolding update_order
  logged-saved o now w = statement-saved _ w.store

module _ {S J D T : Type 0} ⦃serde : Serde J D T⦄ ⦃d : Decimal D⦄ ⦃c : Chrono T⦄ ⦃formats : Formats⦄
    (plan : ExitPlan D T) (mint reason : String) (times : ExitTimes T) where
  settled-confirmed :
      (fill f : Fill D T) (r : (Result Failure (ExitOutcome D) × Store J T) × OrderRecord D T)
      (w : World S J D T)
      → (settled plan mint fill reason times r w).0 ≡ exit_confirmed f
      → (outcome : ExitOutcome D) × (r.0
          ≡ (ok outcome, (settled plan mint fill reason times r w).1.store))
        × (fill ≡ f)
  settled-confirmed fill f ((ok outcome, s), placed) w done = (outcome, refl, ground arith)
  settled-confirmed fill f ((err e, s), placed) w done = ground arith

  executed-IsStored :
      (config : Config D) (placed : OrderRecord D T) (answer : Result ExecutionError (Fill D T))
      (w : World S J D T) (f : Fill D T)
      → placed.id ≡ times.order_id
      → plan.held.mint ≡ mint
      → trusted_remaining plan.held ≡ some plan.remaining
      → w.store.saved ≡ none
      → (after_execute config plan mint reason times placed answer w).0 ≡ exit_confirmed f
      → IsStored mint times.order_id plan f
          (after_execute config plan mint reason times placed answer w).1.store
  unfolding after_execute
  executed-IsStored config placed (ok raw) w f id same trusted closed done =
      let fill = finalize_fill raw config.economics.sol_price_usd in
      let traced =
        run_tracing placed
          (settle_exit placed mint fill reason plan.held times.applied times.written) w.store in
      let (outcome, result, filled) = settled-confirmed fill f traced w done in
      let after = (settled plan mint fill reason times traced w).1.store in
      let (ended, booked) =
        tracing-IsBooked placed mint fill reason plan.held times.applied times.written
          plan.remaining w.store after outcome closed same
          (trusted_remaining-some plan.held plan.remaining trusted) result in
      (
        ended,
        subst (λ x. IsBooked mint x plan.held plan.remaining f after.tables) id
            (subst (λ x. IsBooked mint placed.id plan.held plan.remaining x after.tables) filled
              booked),
      )
  executed-IsStored config placed (err e) w f id same trusted closed done = ground arith

module _ {S J R D T : Type 0} ⦃serde : Serde J D T⦄ ⦃d : Decimal D⦄ ⦃c : Chrono T⦄
    ⦃formats : Formats⦄ (ex : Executor S R D T) (config : Config D) (mint reason : String)
    (times : ExitTimes T) where
  quoted-IsStored :
      (plan : ExitPlan D T) (order : OrderRecord D T) (answer : Result ExecutionError (Quote R T))
      (w : World S J D T) (f : Fill D T)
      → order.id ≡ times.order_id
      → plan.held.mint ≡ mint
      → trusted_remaining plan.held ≡ some plan.remaining
      → w.store.saved ≡ none
      → (after_quote ex config plan mint reason times order answer w).0 ≡ exit_confirmed f
      → IsStored mint times.order_id plan f
          (after_quote ex config plan mint reason times order answer w).1.store
  unfolding after_quote
  quoted-IsStored plan order (err e) w f id same trusted closed = λ done. ground arith
  quoted-IsStored plan order (ok quote) w f id same trusted closed =
      elim (Bool-cases (ltb config.execution.max_price_impact_bps quote.price_impact_bps)) [
        | inl over ↦ rw over (λ done. ground arith)
        | inr fine ↦ rw fine (λ done.
            executed-IsStored plan mint reason times config (advanced order submitted) _ _ f
              (advanced-id order submitted ∙ id) same trusted
              (logged-saved (advanced order submitted) times.written w ∙ closed) done)
      ]

  reserved-IsStored :
      (plan : ExitPlan D T) (order : OrderRecord D T) (answer : Result StorageError Bool)
      (w : World S J D T) (f : Fill D T)
      → order.id ≡ times.order_id
      → plan.held.mint ≡ mint
      → trusted_remaining plan.held ≡ some plan.remaining
      → w.store.saved ≡ none
      → (after_reserve ex config plan mint reason times order answer w).0 ≡ exit_confirmed f
      → IsStored mint times.order_id plan f
          (after_reserve ex config plan mint reason times order answer w).1.store
  unfolding after_reserve
  reserved-IsStored plan order (err e) w f id same trusted closed done = ground arith
  reserved-IsStored plan order (ok false) w f id same trusted closed done = ground arith
  reserved-IsStored plan order (ok true) w f id same trusted closed done =
      quoted-IsStored plan order _ _ f id same trusted closed done

  planned-IsStored :
      (r : Result (ExitExecResult D T) (ExitPlan D T) × Store J T) (w : World S J D T)
      (f : Fill D T)
      → plan_exit mint w.store ≡ r
      → w.store.saved ≡ none
      → (after_plan ex config mint reason times r w).0 ≡ exit_confirmed f
      → (plan : ExitPlan D T) × IsFounded mint w.store plan
        × IsStored mint times.order_id plan f (after_plan ex config mint reason times r w).1.store
  unfolding exit_order
  planned-IsStored (err early, s) w f found closed done =
      ground (arith, plan_exit-early mint w.store s early found)
  planned-IsStored (ok plan, s) w f found closed done =
      let founded = plan_exit-IsFounded mint w.store s plan found in
      let order = exit_order plan mint reason times in
      let kept : s.saved ≡ none =
        sym (ap (λ x. x.1.saved) found) ∙ (plan_exit-Keeps D mint w.store).1 ∙ closed in
      (
        plan,
        founded,
        reserved-IsStored plan order _ _ f refl
            (find_mint-mint mint founded.stored plan.held founded.found) founded.trusted
            (reserve_order-saved order times.started s ∙ kept) done,
      )

  -- Where an exit outside a transaction reports a confirmed fill, the stored position of the mint
  -- has the sold units less, of which there were enough, and is closed exactly when none are left;
  -- the fill is stored, the order is updated as confirmed, and no transaction is open.
  pub execute_exit_order_confirmed :
      (w : World S J D T) (f : Fill D T)
      → w.store.saved ≡ none
      → (execute_exit_order ex config mint reason times w).0 ≡ exit_confirmed f
      → (plan : ExitPlan D T) × IsFounded mint w.store plan
        × IsStored mint times.order_id plan f
            (execute_exit_order ex config mint reason times w).1.store
  unfolding execute_exit_order
  execute_exit_order_confirmed w f closed done =
      planned-IsStored (plan_exit mint w.store) w f refl closed done
