-- ===== src/Execution/FillTests.antt =====
-- Runs of the paper and the replay executor, and the theorems at those inputs.
use solana_bot.Prelude.{ℕ, ◌-◌, ◌*◌, ◌%◌, ◌≤◌, ◌≡◌, refl, ◌↔◌, some, [], ◌∷◌, arith, ok, err}
use solana_bot.Prelude.Int.{pos, ◌-ℤ◌, ◌*ℤ◌, ◌/ℤ◌}
use solana_bot.Prelude.Fixed.{Fixed, ticks, Instant, nanos, fixed_decimal, instant_chrono}
use solana_bot.Domain.Trade.{Fill}
use solana_bot.Execution.Quoting.{
  Quote, ExecutionRequest, transaction, stale_quote, Moment, input_value_usd, units, price_fill,
  price_legs, fee_usd,
}
use solana_bot.Execution.Paper.{
  new_paper, with_failure_injection, inject, after_haircut, slippage_of_impact, slipped,
  check_request, simulate, execute,
}
use solana_bot.Execution.PaperLaws.{paper_fill_bounds}
use solana_bot.Execution.Injection.{after_calls, paper_failure_iff}
use solana_bot.Execution.Deterministic.{DeterministicExecutor, replay}

abbrev quoted : ℕ → ℕ → Quote (Unit {0}) Instant
quoted amount output = record {
  input_mint = "SOL";
  output_mint = "T";
  input_amount = amount;
  output_amount = output;
  price_impact_bps = 10;
  route = tt;
  observed_at = nanos (pos 1_000);
}

abbrev request : ExecutionRequest (Unit {0}) Fixed Instant
request = record {
  order_id = "o";
  quote = quoted 1_000_000 10_000_000;
  max_slippage_bps = 500;
  max_price_impact_bps = 300;
  min_output_amount = 5_000_000;
  input_decimals = 9;
  output_decimals = 6;
  value_basis = input_value_usd (ticks (pos 100_000));
}

abbrev moment : Moment Instant
moment = record { started_at = nanos (pos 2_000); finished_at = nanos (pos 3_000); uuid = "u" }

abbrev paper_fill : Fill Fixed Instant
paper_fill = record {
  order_id = "o";
  signature = "paper:u";
  input_amount = 1_000_000;
  output_amount = 9_892_080;
  price_usd = ticks (pos 10_109);
  fees_usd = ticks (pos 0);
  slippage_bps = 8;
  confirmed_at = nanos (pos 3_000);
  latency_ms = 0;
  fee_lamports = 15_000;
  input_value_usd = some (ticks (pos 100_000));
  expected_output_amount = some 10_000_000;
}

-- The amounts of `paper_fill_applies_haircut_slippage_and_fees`.
paper_filled : (execute (new_paper tt 100) request moment).0 ≡ ok paper_fill
unfolding execute check_request inject simulate after_haircut slippage_of_impact slipped price_fill
    price_legs units fee_usd ◌-ℤ◌ ◌*ℤ◌ ◌/ℤ◌
paper_filled = refl

-- A quote older than 300 seconds.
stale :
    (execute
      (new_paper tt 100)
      request
      (record moment { started_at = nanos (pos 300_000_001_001) })).0
    ≡ err stale_quote
unfolding execute check_request ◌-ℤ◌
stale = refl

checked : check_request request (nanos (pos 2_000)) ≡ ok tt
unfolding check_request ◌-ℤ◌
checked = refl

paper_fill_bounds_example :
    (paper_fill.input_amount ≡ 1_000_000)
    × (5_000_000 ≤ 9_892_080)
    × (10_000 * 9_892_080 ≤ 10_000_000 * (10_000 - 100))
    × (10 ≤ 300)
paper_fill_bounds_example =
    paper_fill_bounds (new_paper tt 100) request moment paper_fill (omega arith) paper_filled

paper_failure_iff_example :
    ((execute
        (after_calls (with_failure_injection tt 100 3) ((request, moment) ∷ (request, moment) ∷ []))
        request
        moment).0
      ≡ err (transaction "paper: simulated transaction failure"))
    ↔ (3 % 3 ≡ 0)
paper_failure_iff_example =
    paper_failure_iff tt 100 3 ((request, moment) ∷ (request, moment) ∷ []) request moment
      (omega arith) (checked, (checked, tt)) checked (omega arith)

abbrev replayed : Fill Fixed Instant
replayed = record paper_fill {
  signature = "replay:u";
  output_amount = 10_000_000;
  price_usd = ticks (pos 10_000);
  slippage_bps = 0;
  fee_lamports = 0;
}

replay_filled : replay request moment ≡ ok replayed
unfolding replay price_fill price_legs units ◌*ℤ◌ ◌/ℤ◌
replay_filled = refl

abbrev empty : DeterministicExecutor (Unit {0}) Instant
empty = record { quotes = [] }
