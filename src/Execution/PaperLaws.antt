-- ===== src/Execution/PaperLaws.antt =====
-- execution/paper.rs: what a simulated fill is worth, and which calls fail on purpose.
use solana_bot.Prelude.{
  ℕ, ◌+◌, ◌-◌, ◌*◌, ◌/◌, ◌≤◌, ◌≡◌, arith, ok, err, wrapping_sub, u64_max, Result-cases, inl, inr,
  Bool-cases,
}
use native.Mathlib.Nat.{mul-le-mul_left}
use solana_bot.Prelude.Decimal.{Decimal}
use solana_bot.Prelude.Chrono.{Chrono}
use solana_bot.Domain.Trade.{Fill}
use solana_bot.Execution.Quoting.{ExecutionRequest, ExecutionError, Moment}
use solana_bot.Execution.Paper.{
  PaperExecutor, inject, injected, after_haircut, slippage_of_impact, slipped, check_request,
  simulate, execute,
}

haircut-le :
    (amount haircut : ℕ) → 10_000 * after_haircut amount haircut ≤ amount * (10_000 - haircut)
unfolding after_haircut
haircut-le amount haircut = omega arith

-- An impact of at most the whole leaves a share of the output.
slipped-le :
    (amount impact : ℕ) → impact ≤ 10_000 → slipped amount (slippage_of_impact impact) ≤ amount
unfolding slipped slippage_of_impact
slipped-le amount impact small =
    let slippage = impact / 3 + 5 in
    let share : wrapping_sub u64_max 10_000 slippage ≤ 10_000 = omega arith in
    let cut = mul-le-mul_left amount share in omega (arith, cut)

module _ {J D T : Type 0} ⦃c : Chrono T⦄ where
  checked-impact :
      (r : ExecutionRequest J D T) (now : T)
      → check_request r now ≡ ok tt
      → r.quote.price_impact_bps ≤ r.max_price_impact_bps
  unfolding check_request
  checked-impact r now good = ground arith

module _ {S J D T : Type 0} ⦃d : Decimal D⦄ where
  -- The amounts of a simulated fill.
  record IsSimulated (p : PaperExecutor S) (r : ExecutionRequest J D T) (fill : Fill D T)
      : Type 0 where
    input : fill.input_amount ≡ r.quote.input_amount
    output :
        fill.output_amount
        ≡ slipped
            (after_haircut r.quote.output_amount p.fill_haircut_bps)
            (slippage_of_impact r.quote.price_impact_bps)
    enough : r.min_output_amount ≤ fill.output_amount

  simulate-IsSimulated :
      (p : PaperExecutor S) (r : ExecutionRequest J D T) (moment : Moment T) (fill : Fill D T)
      → simulate p r moment ≡ ok fill
      → IsSimulated p r fill
  unfolding simulate
  simulate-IsSimulated p r moment fill e = record {
    input = ground arith;
    output = ground arith;
    enough = ground arith;
  }

module _ {S J D T : Type 0} ⦃d : Decimal D⦄ ⦃c : Chrono T⦄ where
  pub execute-checked :
      (p : PaperExecutor S) (r : ExecutionRequest J D T) (moment : Moment T)
      → check_request r moment.started_at ≡ ok tt
      → execute p r moment ≡ (injected (inject p).0 (simulate p r moment), (inject p).1)
  unfolding execute
  execute-checked p r moment good = ground arith

  execute-refused :
      (p : PaperExecutor S) (r : ExecutionRequest J D T) (moment : Moment T) (x : ExecutionError)
      → check_request r moment.started_at ≡ err x
      → execute p r moment ≡ (err x, p)
  unfolding execute
  execute-refused p r moment x bad = ground arith

  execute-ok :
      (p : PaperExecutor S) (r : ExecutionRequest J D T) (moment : Moment T) (fill : Fill D T)
      → (execute p r moment).0 ≡ ok fill
      → (check_request r moment.started_at ≡ ok tt) × (simulate p r moment ≡ ok fill)
  execute-ok p r moment fill e = elim (Result-cases (check_request r moment.started_at)) [
    | inr (x, bad) ↦ let same = execute-refused p r moment x bad in ground arith
    | inl (done, good) ↦
        let same = execute-checked p r moment good in
        elim (Bool-cases (inject p).0) [
          | inl fails ↦ ground arith
          | inr works ↦ (good, ground arith)
        ]
  ]

  -- With an impact limit of at most the whole, a paper fill spends the quoted input, gives at least
  -- the minimum output and at most the quoted output less the haircut, and its quote kept the
  -- impact limit.
  pub paper_fill_bounds :
      (p : PaperExecutor S) (r : ExecutionRequest J D T) (moment : Moment T) (fill : Fill D T)
      → r.max_price_impact_bps ≤ 10_000
      → (execute p r moment).0 ≡ ok fill
      → (fill.input_amount ≡ r.quote.input_amount)
        × (r.min_output_amount ≤ fill.output_amount)
        × (10_000 * fill.output_amount ≤ r.quote.output_amount * (10_000 - p.fill_haircut_bps))
        × (r.quote.price_impact_bps ≤ r.max_price_impact_bps)
  paper_fill_bounds p r moment fill limit e =
      let (good, done) = execute-ok p r moment fill e in
      let sim = simulate-IsSimulated p r moment fill done in
      let impact = checked-impact r moment.started_at good in
      let cut = haircut-le r.quote.output_amount p.fill_haircut_bps in
      let output = after_haircut r.quote.output_amount p.fill_haircut_bps in
      let slip = slipped-le output r.quote.price_impact_bps (omega arith) in
      (sim.input, sim.enough, omega (arith, sim.output), impact)
