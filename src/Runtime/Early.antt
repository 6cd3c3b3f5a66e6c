-- ===== src/Runtime/Early.antt =====
-- runtime.rs: the reading part of an exit never reports a confirmed fill.
use solana_bot.Prelude.{
  ℕ, ◌≡◌, refl, sym, ap, ◌∙◌, Bool, true, false, String, List, Result, ok, err, arith,
}
use solana_bot.Prelude.Decimal.{Decimal}
use solana_bot.Prelude.Chrono.{Chrono}
use solana_bot.Domain.Trade.{OrderRecord}
use solana_bot.Domain.Position.{Position}
use solana_bot.Storage.{
  Store, StorageError, Db, and_then, caught, Serde, positions, incomplete_orders, orders,
}
use solana_bot.Runtime.Types.{
  ExitExecResult, exit_confirmed, exit_failed, exit_skipped, within, store_read_failed,
  inflight_check_failed, history_read_failed,
}
use solana_bot.Runtime.Exit.{
  ExitRoute, choose, route_of, complete_plan, plan_routed, plan_chosen, plan_exit,
}

module _ {D T : Type 0} where
  abbrev pub is_confirmed : ExitExecResult D T → Bool
  is_confirmed (exit_confirmed f) = true
  is_confirmed _ = false

module _ {J D T A : Type 0} where
  abbrev leaks : Result (ExitExecResult D T) A × Store J T → Bool
  leaks (ok a, s) = false
  leaks (err x, s) = is_confirmed x

module _ {J D T A B : Type 0} where
  and_then-leaks :
      (r : Result (ExitExecResult D T) A × Store J T) (k : A → Db J T (ExitExecResult D T) B)
      → leaks r ≡ false
      → ((a : A) (t : Store J T) → leaks (k a t) ≡ false)
      → leaks (and_then r k) ≡ false
  and_then-leaks (ok a, s) k first rest = rest a s
  and_then-leaks (err x, s) k first rest = first

module _ {J D T A : Type 0} where
  caught-leaks :
      (f : StorageError → ExitExecResult D T) (r : Result StorageError A × Store J T)
      → ((e : StorageError) → is_confirmed (f e) ≡ false)
      → leaks (caught f r) ≡ false
  caught-leaks f (ok a, s) never = refl
  caught-leaks f (err e, s) never = never e

module _ {J D T : Type 0} ⦃d : Decimal D⦄ (t : Store J T) where
  choose-leaks :
      (mint : String) (stored : List (Position D T)) → leaks (choose mint stored, t) ≡ false
  unfolding choose
  choose-leaks mint stored = ground arith

  route_of-leaks :
      (p : Position D T) (incomplete : List (OrderRecord D T))
      → leaks (route_of p incomplete, t) ≡ false
  unfolding route_of
  route_of-leaks p incomplete = ground arith

  complete_plan-leaks :
      (mint : String) (chosen : Position D T × ℕ) (route : ExitRoute D)
      (history : List (OrderRecord D T))
      → leaks (complete_plan mint chosen route history, t) ≡ false
  unfolding complete_plan
  complete_plan-leaks mint chosen route history = ground arith

module _ {J D T : Type 0} ⦃serde : Serde J D T⦄ ⦃d : Decimal D⦄ ⦃c : Chrono T⦄ where
  routed-leaks :
      (mint : String) (chosen : Position D T × ℕ) (route : ExitRoute D) (s : Store J T)
      → leaks (plan_routed mint chosen route s) ≡ false
  unfolding plan_routed
  routed-leaks mint chosen route s =
      let f : StorageError → ExitExecResult D T = λ e. exit_failed (history_read_failed e) in
      and_then-leaks (within f (orders {D = D}) s)
        (λ history t. (complete_plan mint chosen route history, t))
        (caught-leaks f (orders {D = D} s) (λ e. refl))
        (λ history t. complete_plan-leaks t mint chosen route history)

  chosen-leaks :
      (mint : String) (chosen : Position D T × ℕ) (s : Store J T)
      → leaks (plan_chosen mint chosen s) ≡ false
  unfolding plan_chosen
  chosen-leaks mint chosen s =
      let f : StorageError → ExitExecResult D T = λ e. exit_failed (inflight_check_failed e) in
      and_then-leaks (within f (incomplete_orders {D = D}) s)
        (λ incomplete t. and_then (route_of chosen.0 incomplete, t) (plan_routed mint chosen))
        (caught-leaks f (incomplete_orders {D = D} s) (λ e. refl))
        (λ incomplete t.
          and_then-leaks (route_of chosen.0 incomplete, t) (plan_routed mint chosen)
            (route_of-leaks t chosen.0 incomplete) (routed-leaks mint chosen))

  pub plan_exit-early :
      (mint : String) (s t : Store J T) (x : ExitExecResult D T)
      → plan_exit mint s ≡ (err x, t)
      → is_confirmed x ≡ false
  unfolding plan_exit
  plan_exit-early mint s t x found =
      let f : StorageError → ExitExecResult D T = λ e. exit_skipped (store_read_failed e) in
      sym (ap leaks found)
      ∙ and_then-leaks (within f (positions {D = D}) s)
          (λ stored t. and_then (choose mint stored, t) (plan_chosen mint))
          (caught-leaks f (positions {D = D} s) (λ e. refl))
          (λ stored t.
            and_then-leaks (choose mint stored, t) (plan_chosen mint) (choose-leaks t mint stored)
              (chosen-leaks mint))
