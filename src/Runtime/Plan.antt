-- ===== src/Runtime/Plan.antt =====
-- runtime.rs: what the reading part of `execute_exit_order` establishes.
use solana_bot.Prelude.{
  ℕ, ◌≡◌, refl, sym, ap, ◌∙◌, true, false, some, List, String, ok, arith, any, string_eq,
}
use mathlib.Core.Path.{subst}
use solana_bot.Prelude.Decimal.{Decimal}
use solana_bot.Prelude.Chrono.{Chrono}
use solana_bot.Domain.Trade.{OrderRecord}
use solana_bot.Domain.Position.{Position, is_open, trusted_remaining}
use solana_bot.Storage.{
  Store, StorageError, Db, and_then, Serde, read_all, incomplete_texts, positions,
  incomplete_orders, orders, position_texts,
}
use solana_bot.Runtime.Types.{
  within, exit_failed, exit_skipped, history_read_failed, inflight_check_failed, store_read_failed,
}
use solana_bot.Runtime.Exit.{
  ExitPlan, ExitRoute, choose, route_of, complete_plan, plan_routed, plan_chosen, find_mint,
  is_exit_of, plan_exit,
}
use solana_bot.Runtime.Steps.{
  Keeps, query-Keeps, query-ok, caught-1, within-ok, and_then-ok, and_then-R,
}

module _ {J T : Type 0} where
  pub Keeps-chain : (s t u : Store J T) → Keeps s t → Keeps t u → Keeps s u
  Keeps-chain s t u (a, b) (x, y) = (x ∙ a, y ∙ b)

  within-Keeps :
      {E A B : Type 0} (f : StorageError → E) (m : Db J T StorageError A) (s : Store J T)
      (k : A → Db J T E B)
      → Keeps s (m s).1
      → ((a : A) (t : Store J T) → Keeps t (k a t).1)
      → Keeps s (and_then (within f m s) k).1
  within-Keeps f m s k kept rest =
      and_then-R Keeps Keeps-chain s (within f m s) k
        (subst (Keeps s) (sym (caught-1 f (m s))) kept) rest

module _ {J T : Type 0} (D : Type 0) ⦃serde : Serde J D T⦄ where
  pub positions-Keeps : (s : Store J T) → Keeps s (positions {D = D} s).1
  unfolding positions
  positions-Keeps s = query-Keeps _ s

  incomplete-Keeps : (s : Store J T) → Keeps s (incomplete_orders {D = D} s).1
  unfolding incomplete_orders
  incomplete-Keeps s = query-Keeps _ s

module _ {J T : Type 0} (D : Type 0) ⦃serde : Serde J D T⦄ ⦃d : Decimal D⦄ ⦃c : Chrono T⦄ where
  orders-Keeps : (s : Store J T) → Keeps s (orders {D = D} s).1
  unfolding orders
  orders-Keeps s = query-Keeps _ s

  routed-Keeps :
      (mint : String) (chosen : Position D T × ℕ) (route : ExitRoute D) (s : Store J T)
      → Keeps s (plan_routed {D = D} mint chosen route s).1
  unfolding plan_routed
  routed-Keeps mint chosen route s =
      within-Keeps _ (orders {D = D}) s _ (orders-Keeps s) (λ history t. (refl, refl))

  chosen-Keeps :
      (mint : String) (chosen : Position D T × ℕ) (s : Store J T)
      → Keeps s (plan_chosen {D = D} mint chosen s).1
  unfolding plan_chosen
  chosen-Keeps mint chosen s =
      within-Keeps _ (incomplete_orders {D = D}) s _ (incomplete-Keeps D s) (λ incomplete t.
        and_then-R Keeps Keeps-chain t (route_of chosen.0 incomplete, t) (plan_routed mint chosen)
          (refl, refl) (routed-Keeps mint chosen))

  -- Whatever it finds, the reading part changes no table.
  pub plan_exit-Keeps : (mint : String) (s : Store J T) → Keeps s (plan_exit {D = D} mint s).1
  unfolding plan_exit
  plan_exit-Keeps mint s = within-Keeps _ (positions {D = D}) s _ (positions-Keeps D s) (λ stored t.
      and_then-R Keeps Keeps-chain t (choose mint stored, t) (plan_chosen mint) (refl, refl)
        (chosen-Keeps mint))

module _ {J D T : Type 0} ⦃serde : Serde J D T⦄ where
  -- A plan is for the open, trusted position that is stored for the mint, and no exit of that position
  -- is among the stored orders that are incomplete.
  pub record IsFounded (mint : String) (s : Store J T) (plan : ExitPlan D T) : Type 0 where
    pub stored : List (Position D T)
    pub incomplete : List (OrderRecord D T)
    pub stored_read : read_all serde.position_from (position_texts s.tables.kv) ≡ ok stored
    pub found : find_mint mint stored ≡ some plan.held
    pub trusted : trusted_remaining plan.held ≡ some plan.remaining
    pub opened : is_open plan.held ≡ true
    pub incomplete_read :
        read_all serde.order_from (incomplete_texts s.tables.orders) ≡ ok incomplete
    pub idle : any (is_exit_of plan.held.position_id) incomplete ≡ false

module _ {D T : Type 0} ⦃d : Decimal D⦄ where
  choose-ok :
      (mint : String) (stored : List (Position D T)) (chosen : Position D T × ℕ)
      → choose mint stored ≡ ok chosen
      → (find_mint mint stored ≡ some chosen.0)
        × (is_open chosen.0 ≡ true)
        × (trusted_remaining chosen.0 ≡ some chosen.1)
  unfolding choose
  choose-ok mint stored chosen done = ground arith

  route_of-ok :
      (p : Position D T) (incomplete : List (OrderRecord D T)) (route : ExitRoute D)
      → route_of p incomplete ≡ ok route
      → any (is_exit_of p.position_id) incomplete ≡ false
  unfolding route_of
  route_of-ok p incomplete route done = ground arith

  complete_plan-ok :
      (mint : String) (chosen : Position D T × ℕ) (route : ExitRoute D)
      (history : List (OrderRecord D T)) (plan : ExitPlan D T)
      → complete_plan mint chosen route history ≡ ok plan
      → (plan.held ≡ chosen.0) × (plan.remaining ≡ chosen.1)
  unfolding complete_plan
  complete_plan-ok mint chosen route history plan done = ground arith

module _ {J D T : Type 0} ⦃serde : Serde J D T⦄ ⦃d : Decimal D⦄ ⦃c : Chrono T⦄ where
  positions-ok :
      (s t : Store J T) (stored : List (Position D T))
      → positions s ≡ (ok stored, t)
      → (read_all serde.position_from (position_texts s.tables.kv) ≡ ok stored)
        × (t.tables ≡ s.tables)
  unfolding positions
  positions-ok s t stored done = query-ok _ s t stored done

  incomplete_orders-ok :
      (s t : Store J T) (incomplete : List (OrderRecord D T))
      → incomplete_orders s ≡ (ok incomplete, t)
      → (read_all serde.order_from (incomplete_texts s.tables.orders) ≡ ok incomplete)
        × (t.tables ≡ s.tables)
  unfolding incomplete_orders
  incomplete_orders-ok s t incomplete done = query-ok _ s t incomplete done

  routed-ok :
      (mint : String) (chosen : Position D T × ℕ) (route : ExitRoute D) (s t : Store J T)
      (plan : ExitPlan D T)
      → plan_routed mint chosen route s ≡ (ok plan, t)
      → (plan.held ≡ chosen.0) × (plan.remaining ≡ chosen.1)
  unfolding plan_routed
  routed-ok mint chosen route s t plan done =
      let (history, u, read, made) =
        within-ok (λ e. exit_failed (history_read_failed e)) (orders {D = D})
          (λ history t. (complete_plan mint chosen route history, t)) s t plan done in
      complete_plan-ok mint chosen route history plan (ap (λ x. x.0) made)

  chosen-ok :
      (mint : String) (chosen : Position D T × ℕ) (s t : Store J T) (plan : ExitPlan D T)
      → plan_chosen mint chosen s ≡ (ok plan, t)
      → (incomplete : List (OrderRecord D T)) × (read_all serde.order_from
            (incomplete_texts s.tables.orders)
          ≡ ok incomplete)
        × (any (is_exit_of chosen.0.position_id) incomplete ≡ false)
        × (plan.held ≡ chosen.0)
        × (plan.remaining ≡ chosen.1)
  unfolding plan_chosen
  chosen-ok mint chosen s t plan done =
      let (incomplete, u, read, rest) =
        within-ok (λ e. exit_failed (inflight_check_failed e)) (incomplete_orders {D = D})
          (λ incomplete t. and_then (route_of chosen.0 incomplete, t) (plan_routed mint chosen)) s t
          plan done in
      let (route, v, routed, made) =
        and_then-ok (route_of chosen.0 incomplete, u) (plan_routed mint chosen) plan t rest in
      let found = incomplete_orders-ok s u incomplete read in
      let (same, left) = routed-ok mint chosen route v t plan made in
      (
        incomplete,
        found.0,
        route_of-ok chosen.0 incomplete route (ap (λ x. x.0) routed),
        same,
        left,
      )

  pub plan_exit-IsFounded :
      (mint : String) (s t : Store J T) (plan : ExitPlan D T)
      → plan_exit mint s ≡ (ok plan, t)
      → IsFounded mint s plan
  unfolding plan_exit
  plan_exit-IsFounded mint s t plan done =
      let (stored, u, read, rest) =
        within-ok (λ e. exit_skipped (store_read_failed e)) (positions {D = D})
          (λ stored t. and_then (choose mint stored, t) (plan_chosen mint)) s t plan done in
      let (chosen, v, picked, made) =
        and_then-ok (choose mint stored, u) (plan_chosen mint) plan t rest in
      let (stored_read, same) = positions-ok s u stored read in
      let (found, opened, trusted) = choose-ok mint stored chosen (ap (λ x. x.0) picked) in
      let (incomplete, incomplete_read, idle, held, left) = chosen-ok mint chosen v t plan made in
      let tables : v.tables ≡ s.tables = ap (λ x. x.1.tables) (sym picked) ∙ same in
      record {
        stored = stored;
        incomplete = incomplete;
        stored_read = stored_read;
        found = found ∙ ap some (sym held);
        trusted = ap trusted_remaining held ∙ trusted ∙ ap some (sym left);
        opened = ap is_open held ∙ opened;
        incomplete_read =
            ap (λ x. read_all serde.order_from (incomplete_texts x.orders)) (sym tables)
            ∙ incomplete_read;
        idle = ap (λ p. any (is_exit_of p.position_id) incomplete) held ∙ idle;
      }
