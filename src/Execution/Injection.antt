-- ===== src/Execution/Injection.antt =====
-- execution/paper.rs: every n-th call fails on purpose.
use solana_bot.Prelude.{
  ℕ, suc, ◌+◌, ◌%◌, ◌≤◌, ◌<◌, ◌≡◌, ◌↔◌, ◌≢◌, true, List, [], ◌∷◌, arith, sym, ap, ◌∙◌, ok, err,
  u64_max, length, Bool-cases, All, inl, inr, String,
}
use mathlib.Core.Path.{subst}
use solana_bot.Prelude.Decimal.{Decimal}
use solana_bot.Prelude.Chrono.{Chrono}
use solana_bot.Execution.Quoting.{
  ExecutionRequest, transaction, Moment, ValueBasis, price_fill, price_legs, units,
}
use solana_bot.Execution.Paper.{
  PaperExecutor, inject, with_failure_injection, check_request, simulate, execute, after_haircut,
  slipped, slippage_of_impact,
}
use solana_bot.Execution.PaperLaws.{execute-checked}

module _ {S : Type 0} where
  inject-counts :
      (p : PaperExecutor S)
      → 0 < p.fail_every_n
      → p.call_counter < u64_max
      → (inject p).1 ≡ record p { call_counter = p.call_counter + 1 }
  unfolding inject
  inject-counts p on room =
      let same : (p.call_counter + 1) % (u64_max + 1) ≡ p.call_counter + 1 = omega arith in
      ground arith

  inject_iff :
      (p : PaperExecutor S)
      → 0 < p.fail_every_n
      → p.call_counter < u64_max
      → ((inject p).0 ≡ true) ↔ ((p.call_counter + 1) % p.fail_every_n ≡ 0)
  unfolding inject
  inject_iff p on room =
      let same : (p.call_counter + 1) % (u64_max + 1) ≡ p.call_counter + 1 = omega arith in
      ground arith

module _ {J D T : Type 0} ⦃c : Chrono T⦄ where
  -- A call whose request passes the checks.
  abbrev pub IsChecked : ExecutionRequest J D T × Moment T → Type 0
  IsChecked call = check_request call.0 call.1.started_at ≡ ok tt

module _ {D : Type 0} ⦃d : Decimal D⦄ where
  price_fill-transaction :
      (basis : ValueBasis D) (input_amount input_decimals output_amount output_decimals : ℕ)
      (text : String)
      → price_fill basis input_amount input_decimals output_amount output_decimals
        ≢ err (transaction text)
  unfolding price_fill price_legs units
  price_fill-transaction basis input_amount input_decimals output_amount output_decimals text e =
      ground arith

module _ {S J D T : Type 0} ⦃d : Decimal D⦄ where
  simulate-transaction :
      (p : PaperExecutor S) (r : ExecutionRequest J D T) (moment : Moment T) (text : String)
      → simulate p r moment ≢ err (transaction text)
  unfolding simulate
  simulate-transaction p r moment text e =
      let output =
        slipped (after_haircut r.quote.output_amount p.fill_haircut_bps)
          (slippage_of_impact r.quote.price_impact_bps) in
      let never =
        price_fill-transaction r.value_basis r.quote.input_amount r.input_decimals output
          r.output_decimals text in
      ground (arith, never)

module _ {S J D T : Type 0} ⦃d : Decimal D⦄ ⦃c : Chrono T⦄ where
  -- The executor after a list of calls.
  unfoldable pub after_calls :
      PaperExecutor S → List (ExecutionRequest J D T × Moment T) → PaperExecutor S
  after_calls p [] = p
  after_calls p ((r, moment) ∷ rest) = after_calls (execute p r moment).1 rest

  after_calls-count :
      (p : PaperExecutor S) (calls : List (ExecutionRequest J D T × Moment T))
      → 0 < p.fail_every_n
      → All IsChecked calls
      → p.call_counter + length calls ≤ u64_max
      → after_calls p calls ≡ record p { call_counter = p.call_counter + length calls }
  unfolding after_calls
  after_calls-count p [] on all room = ground arith
  after_calls-count p ((r, moment) ∷ rest) on (one, all) room =
      let next : PaperExecutor S = record p { call_counter = p.call_counter + 1 } in
      let step : (execute p r moment).1 ≡ next =
        ap (λ x. x.1) (execute-checked p r moment one) ∙ inject-counts p on (omega arith) in
      let others = after_calls-count next rest on all (omega arith) in
      let sum : p.call_counter + 1 + length rest ≡ p.call_counter + suc (length rest) =
        omega arith in
      ap (λ q. after_calls q rest) step ∙ others ∙ ap (λ n. record p { call_counter = n }) sum

  checked_failure_iff :
      (p : PaperExecutor S) (r : ExecutionRequest J D T) (moment : Moment T)
      → IsChecked (r, moment)
      → ((execute p r moment).0 ≡ err (transaction "paper: simulated transaction failure"))
        ↔ ((inject p).0 ≡ true)
  checked_failure_iff p r moment good =
      let same = execute-checked p r moment good in
      let never = simulate-transaction p r moment "paper: simulated transaction failure" in
      elim (Bool-cases (inject p).0) [
        | inl fails ↦ (λ _. fails, λ _. ground arith)
        | inr works ↦ (λ e. ground (arith, never), λ f. ground arith)
      ]

  -- Of the calls whose requests pass the checks, exactly every n-th one since the executor was made
  -- ends in a simulated transaction failure.
  pub paper_failure_iff :
      (quotes : S) (haircut n : ℕ) (calls : List (ExecutionRequest J D T × Moment T))
      (r : ExecutionRequest J D T) (moment : Moment T)
      → 0 < n
      → All IsChecked calls
      → IsChecked (r, moment)
      → length calls < u64_max
      → ((execute (after_calls (with_failure_injection quotes haircut n) calls) r moment).0
          ≡ err (transaction "paper: simulated transaction failure"))
        ↔ ((length calls + 1) % n ≡ 0)
  paper_failure_iff quotes haircut n calls r moment on all good room =
      let start = with_failure_injection quotes haircut n in
      let now = record start { call_counter = length calls } in
      let same : after_calls start calls ≡ now =
        after_calls-count start calls on all (omega arith)
        ∙ ap (λ k. record start { call_counter = k }) (omega arith) in
      let here = checked_failure_iff now r moment good in
      let due = inject_iff now on room in
      subst
        (λ p.
          ((execute p r moment).0 ≡ err (transaction "paper: simulated transaction failure"))
          ↔ ((length calls + 1) % n ≡ 0))
        (sym same) (λ e. due.0 (here.0 e), λ e. here.1 (due.1 e))
