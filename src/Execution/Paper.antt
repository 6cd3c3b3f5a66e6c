-- ===== src/Execution/Paper.antt =====
-- execution/paper.rs: fills that are simulated from quotes.
use solana_bot.Prelude.{
  ℕ, ◌+◌, ◌/◌, ◌%◌, Bool, true, false, ◌||◌, none, some, Result, ok, err, reject_if, ◌>>=◌, ◌>>◌,
  ltb, nat_beq, if◌then◌else◌, saturating_mul, saturating_sub, wrapping_add, wrapping_sub, u64_max,
}
use Prim.Native.String.{◌++◌ as str_append}
use solana_bot.Prelude.Int.{pos, ltb_ℤ}
use solana_bot.Prelude.Decimal.{Decimal}
use solana_bot.Prelude.Chrono.{Chrono, since}
use solana_bot.Domain.Trade.{Fill}
use solana_bot.Execution.Quoting.{
  ExecutionRequest, ExecutionError, stale_quote, invalid_quote, transaction, Moment, Executor,
  price_fill, fee_usd,
}

pub record PaperExecutor (S : Type 0) : Type 0 where
  pub quotes : S
  pub fill_haircut_bps : ℕ
  pub base_fee_lamports : ℕ
  pub priority_fee_lamports : ℕ
  pub call_counter : ℕ
  pub fail_every_n : ℕ

module _ {S : Type 0} where
  abbrev pub with_failure_injection : S → ℕ → ℕ → PaperExecutor S
  with_failure_injection quotes fill_haircut_bps fail_every_n = record {
    quotes = quotes;
    fill_haircut_bps = fill_haircut_bps;
    base_fee_lamports = 5_000;
    priority_fee_lamports = 10_000;
    call_counter = 0;
    fail_every_n = fail_every_n;
  }

  -- `PaperExecutor::new`
  abbrev pub new_paper : S → ℕ → PaperExecutor S
  new_paper quotes fill_haircut_bps = with_failure_injection quotes fill_haircut_bps 0

  abbrev pub with_quotes_of : {A : Type 0} → PaperExecutor S → A × S → A × PaperExecutor S
  with_quotes_of p (a, quotes) = (a, record p { quotes = quotes })

  -- Whether this call is one that fails, and the executor after the count.
  unfoldable pub inject : PaperExecutor S → Bool × PaperExecutor S
  inject p =
      let count = wrapping_add u64_max p.call_counter 1 in
      if ltb 0 p.fail_every_n
      then (nat_beq (count % p.fail_every_n) 0, record p { call_counter = count })
      else (false, p)

-- The output after the haircut, and after the slippage as well.
unfoldable pub after_haircut : ℕ → ℕ → ℕ
after_haircut output_amount fill_haircut_bps =
    saturating_mul u64_max output_amount (saturating_sub 10_000 fill_haircut_bps) / 10_000

unfoldable pub slippage_of_impact : ℕ → ℕ
slippage_of_impact price_impact_bps = price_impact_bps / 3 + 5

unfoldable pub slipped : ℕ → ℕ → ℕ
slipped output slippage_bps =
    saturating_mul u64_max output (wrapping_sub u64_max 10_000 slippage_bps) / 10_000

module _ {J D T : Type 0} ⦃c : Chrono T⦄ where
  -- The checks before the failure injection. 300 seconds are 300 000 000 000 nanoseconds.
  unfoldable pub check_request : ExecutionRequest J D T → T → Result ExecutionError (Unit {0})
  check_request r now = do
    reject_if
        (ltb_ℤ (since now r.quote.observed_at) (pos 0)
          || ltb_ℤ (pos 300_000_000_000) (since now r.quote.observed_at))
        stale_quote
    reject_if
        (nat_beq r.quote.output_amount 0
          || ltb r.max_price_impact_bps r.quote.price_impact_bps
          || ltb r.quote.output_amount r.min_output_amount)
        invalid_quote

abbrev pub injected :
    {D T : Type 0} → Bool → Result ExecutionError (Fill D T) → Result ExecutionError (Fill D T)
injected true fill = err (transaction "paper: simulated transaction failure")
injected false fill = fill

module _ {S J D T : Type 0} ⦃d : Decimal D⦄ where
  -- The rest of `execute`, after the failure injection.
  unfoldable pub simulate :
      PaperExecutor S → ExecutionRequest J D T → Moment T → Result ExecutionError (Fill D T)
  simulate p r moment =
      let output = after_haircut r.quote.output_amount p.fill_haircut_bps in
      let slippage_bps = slippage_of_impact r.quote.price_impact_bps in
      let after_slippage = slipped output slippage_bps in
      let fee_lamports = p.base_fee_lamports + p.priority_fee_lamports in
      do
        reject_if (ltb output r.min_output_amount) invalid_quote
        reject_if (ltb after_slippage r.min_output_amount) invalid_quote
        priced ←
            price_fill r.value_basis r.quote.input_amount r.input_decimals after_slippage
              r.output_decimals
        ok record {
          order_id = r.order_id;
          signature = str_append "paper:" moment.uuid;
          input_amount = r.quote.input_amount;
          output_amount = after_slippage;
          price_usd = priced.1;
          fees_usd = fee_usd fee_lamports none;
          slippage_bps = slippage_bps;
          confirmed_at = moment.finished_at;
          latency_ms = 0;
          fee_lamports = fee_lamports;
          input_value_usd = some priced.0;
          expected_output_amount = some r.quote.output_amount;
        }

  unfoldable pub execute :
      ⦃c : Chrono T⦄
      → PaperExecutor S
      → ExecutionRequest J D T
      → Moment T
      → Result ExecutionError (Fill D T) × PaperExecutor S
  execute p r moment = elim (check_request r moment.started_at) [
    | err x ↦ (err x, p)
    | ok _ ↦ let (fails, counted) = inject p in (injected fails (simulate p r moment), counted)
  ]

module _ {S J D T : Type 0} ⦃d : Decimal D⦄ ⦃c : Chrono T⦄ where
  -- Quotes and health are those of the wrapped executor; `execute` never asks it.
  abbrev pub paper_executor : Executor S J D T → Executor (PaperExecutor S) J D T
  paper_executor inner = record {
    quote = λ p a b amount slippage. with_quotes_of p (inner.quote p.quotes a b amount slippage);
    execute = execute;
    health = λ p. with_quotes_of p (inner.health p.quotes);
    signer_pubkey = λ _. none;
    is_live = λ _. false;
    register_quote = λ p q. record p { quotes = inner.register_quote p.quotes q };
  }
