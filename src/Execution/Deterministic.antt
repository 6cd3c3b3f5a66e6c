-- ===== src/Execution/Deterministic.antt =====
-- execution/deterministic.rs: quotes that are registered before they are asked for.
use solana_bot.Prelude.{
  ℕ, ◌≡◌, refl, ◌↔◌, ◌≢◌, Bool, true, false, ◌&&◌, none, some, List, [], ◌∷◌, ◌++◌, String, arith,
  Eq, ◌==◌, string_eq, nat_eq, Result, ok, ok_or, ◌>>=◌, All, ◌∙◌,
}
use Prim.Native.String.{◌++◌ as str_append}
use solana_bot.Prelude.Map.{lookup, insert, lookup-insert_self, lookup-insert_ne}
use solana_bot.Prelude.Decimal.{Decimal, of_nat}
use solana_bot.Domain.Trade.{Fill, realised_slippage_bps, slippage_against}
use solana_bot.Execution.Quoting.{
  Quote, ExecutionRequest, ExecutionError, no_quote, Moment, Executor, price_fill,
}

-- The key of the map: input mint, output mint, input amount and a slippage that is always 0.
pub record QuoteKey : Type 0 where
  pub input : String
  pub output : String
  pub amount : ℕ
  pub slippage : ℕ

abbrev pub key_beq : QuoteKey → QuoteKey → Bool
key_beq a b =
    a.input == b.input && a.output == b.output && a.amount == b.amount && a.slippage == b.slippage

pub key_beq_iff : (a b : QuoteKey) → (key_beq a b ≡ true) ↔ (a ≡ b)
key_beq_iff a b =
    ground (arith, string_eq.beq_iff a.input b.input, string_eq.beq_iff a.output b.output)

instance abbrev pub key_eq : Eq QuoteKey
key_eq = record { beq = key_beq; beq_iff = key_beq_iff }

pub record DeterministicExecutor (J T : Type 0) : Type 0 where
  pub quotes : List (QuoteKey × Quote J T)

module _ {J T : Type 0} where
  abbrev pub key_of : Quote J T → QuoteKey
  key_of q = record {
    input = q.input_mint;
    output = q.output_mint;
    amount = q.input_amount;
    slippage = 0;
  }

  unfoldable pub register_quote : DeterministicExecutor J T → Quote J T → DeterministicExecutor J T
  register_quote x q = record { quotes = insert (key_of q) q x.quotes }

  unfoldable pub with_quotes :
      DeterministicExecutor J T → List (Quote J T) → DeterministicExecutor J T
  with_quotes x [] = x
  with_quotes x (q ∷ rest) = with_quotes (record { quotes = insert (key_of q) q x.quotes }) rest

  -- `quote`; the text of the error also prints the mints and the amount.
  unfoldable pub find_quote :
      DeterministicExecutor J T → String → String → ℕ → ℕ → Result ExecutionError (Quote J T)
  find_quote x input_mint output_mint amount slippage_bps =
      ok_or
        (lookup (record { input = input_mint; output = output_mint; amount = amount; slippage = 0 })
          x.quotes)
        (no_quote "no deterministic quote")

module _ {J D T : Type 0} ⦃d : Decimal D⦄ where
  unfoldable pub replay : ExecutionRequest J D T → Moment T → Result ExecutionError (Fill D T)
  replay r moment = do
    priced ←
        price_fill r.value_basis r.quote.input_amount r.input_decimals r.quote.output_amount
          r.output_decimals
    ok record {
      order_id = r.order_id;
      signature = str_append "replay:" moment.uuid;
      input_amount = r.quote.input_amount;
      output_amount = r.quote.output_amount;
      price_usd = priced.1;
      fees_usd = of_nat 0;
      slippage_bps = 0;
      confirmed_at = moment.finished_at;
      latency_ms = 0;
      fee_lamports = 0;
      input_value_usd = some priced.0;
      expected_output_amount = some r.quote.output_amount;
    }

  abbrev pub deterministic_executor : Executor (DeterministicExecutor J T) J D T
  deterministic_executor = record {
    quote = λ x input output amount slippage. (find_quote x input output amount slippage, x);
    execute = λ x r moment. (replay r moment, x);
    health = λ x. (ok tt, x);
    signer_pubkey = λ _. none;
    is_live = λ _. false;
    register_quote = register_quote;
  }

  -- A replayed fill has the amounts of its quote and shows no slippage against it.
  replay_exact :
      (r : ExecutionRequest J D T) (moment : Moment T) (fill : Fill D T)
      → replay r moment ≡ ok fill
      → (fill.input_amount ≡ r.quote.input_amount)
        × (fill.output_amount ≡ r.quote.output_amount)
        × (realised_slippage_bps fill ≡ 0)
  unfolding replay realised_slippage_bps slippage_against
  replay_exact r moment fill e = (ground arith, ground arith, ground arith)

module _ {J T : Type 0} where
  find-register :
      (x : DeterministicExecutor J T) (q : Quote J T) (slippage_bps : ℕ)
      → find_quote (register_quote x q) q.input_mint q.output_mint q.input_amount slippage_bps
        ≡ ok q
  unfolding find_quote register_quote
  find-register x q slippage_bps = rw (lookup-insert_self (key_of q) q x.quotes) refl

  find-register_ne :
      (x : DeterministicExecutor J T) (q other : Quote J T) (slippage_bps : ℕ)
      → key_of q ≢ key_of other
      → find_quote (register_quote x other) q.input_mint q.output_mint q.input_amount slippage_bps
        ≡ find_quote x q.input_mint q.output_mint q.input_amount slippage_bps
  unfolding find_quote register_quote
  find-register_ne x q other slippage_bps apart =
      rw (lookup-insert_ne (key_of other) (key_of q) other x.quotes apart) refl

  find-with_quotes_ne :
      (x : DeterministicExecutor J T) (q : Quote J T) (rest : List (Quote J T)) (slippage_bps : ℕ)
      → All (λ other. key_of q ≢ key_of other) rest
      → find_quote (with_quotes x rest) q.input_mint q.output_mint q.input_amount slippage_bps
        ≡ find_quote x q.input_mint q.output_mint q.input_amount slippage_bps
  unfolding with_quotes register_quote
  find-with_quotes_ne x q [] slippage_bps all = refl
  find-with_quotes_ne x q (other ∷ rest) slippage_bps (one, all) =
      find-with_quotes_ne (register_quote x other) q rest slippage_bps all
      ∙ find-register_ne x q other slippage_bps one

  -- Of the quotes that the executor is seeded with, the last one for a pair of mints and an amount
  -- is the one that is served, at any slippage.
  find_quote_last :
      (x : DeterministicExecutor J T) (before rest : List (Quote J T)) (q : Quote J T)
      (slippage_bps : ℕ)
      → All (λ other. key_of q ≢ key_of other) rest
      → find_quote
          (with_quotes x (before ++ q ∷ rest))
          q.input_mint
          q.output_mint
          q.input_amount
          slippage_bps
        ≡ ok q
  unfolding with_quotes register_quote
  find_quote_last x [] rest q slippage_bps all =
      find-with_quotes_ne (register_quote x q) q rest slippage_bps all
      ∙ find-register x q slippage_bps
  find_quote_last x (b ∷ before) rest q slippage_bps all =
      find_quote_last (register_quote x b) before rest q slippage_bps all
