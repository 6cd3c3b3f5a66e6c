-- ===== src/Domain/Tests.antt =====
-- Runs of domain/, and the theorems at those inputs.
use solana_bot.Prelude.{ℕ, ◌+◌, ◌≤◌, ◌≡◌, refl, Option, none, some, [], ◌∷◌, err}
use solana_bot.Domain.Trade.{
  Fill, realised_slippage_bps, slippage_against, OrderState, pending, submitted, confirmed, failed,
  unknown, entry, buy, OrderRecord, is_terminal, can_transition, transition, illegal_transition,
}
use solana_bot.Domain.Order.{run, changes, run-IsTerminal, changes-le}

abbrev order : OrderState → OrderRecord ℕ ℕ
order s = record {
  id = "o";
  signal_id = "s";
  mint = "m";
  kind = entry;
  position_id = some "p";
  side = buy;
  input_mint = some "b";
  output_mint = some "m";
  input_amount_atomic = some 1;
  input_value_usd = some 1;
  output_mint_decimals = some 6;
  state = s;
  idempotency_key = "k";
  created_at = 0;
  signature = none;
  error = none;
}

abbrev fill : ℕ → Option ℕ → Fill ℕ ℕ
fill out expected = record {
  order_id = "o";
  signature = "sig";
  input_amount = 1;
  output_amount = out;
  price_usd = 1;
  fees_usd = 0;
  slippage_bps = 0;
  confirmed_at = 0;
  latency_ms = 0;
  fee_lamports = 0;
  input_value_usd = none;
  expected_output_amount = expected;
}

happy_path : run (order pending) (submitted ∷ confirmed ∷ unknown ∷ []) ≡ order confirmed
unfolding run transition can_transition
happy_path = refl

must_pass_submitted :
    transition (order pending) confirmed
    ≡ (err (illegal_transition pending confirmed), order pending)
unfolding transition can_transition
must_pass_submitted = refl

slippage_one_percent : realised_slippage_bps (fill 990 (some 1_000)) ≡ 100
unfolding realised_slippage_bps slippage_against
slippage_one_percent = refl

run-IsTerminal_example : run (order confirmed) (pending ∷ unknown ∷ []) ≡ order confirmed
unfolding is_terminal
run-IsTerminal_example = run-IsTerminal (order confirmed) (pending ∷ unknown ∷ []) refl

changes-le_example : changes (order pending) (submitted ∷ unknown ∷ failed ∷ pending ∷ []) + 0 ≤ 3
changes-le_example = changes-le (order pending) (submitted ∷ unknown ∷ failed ∷ pending ∷ [])
