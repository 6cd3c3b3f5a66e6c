-- ===== src/Runtime/Sample.antt =====
-- An executor, a position and a store at which the tests of runtime.rs and exit_monitor.rs run.
use solana_bot.Prelude.{ℕ, ◌+◌, false, Option, none, some, [], ◌∷◌, ok}
use solana_bot.Prelude.Int.{pos}
use solana_bot.Prelude.Fixed.{Fixed, ticks, Instant, nanos, fixed_decimal, instant_chrono}
use solana_bot.Config.{Config}
use solana_bot.Domain.Trade.{Fill, OrderRecord}
use solana_bot.Domain.Position.{Position, opened, reconciled}
use solana_bot.Execution.{Executor}
use solana_bot.Storage.{StorageError, Serde, key_eq, position_key}
use solana_bot.Runtime.Types.{Formats, ExitTimes, World}

-- Texts that keep their values.
pub data Doc : Type 0 where
  order_doc : OrderRecord Fixed Instant → Doc
  position_doc : Position Fixed Instant → Doc
  fill_doc : Fill Fixed Instant → Doc

abbrev pub doc_order : Doc → Option (OrderRecord Fixed Instant)
doc_order (order_doc o) = some o
doc_order _ = none

abbrev pub doc_position : Doc → Option (Position Fixed Instant)
doc_position (position_doc p) = some p
doc_position _ = none

abbrev pub doc_fill : Doc → Option (Fill Fixed Instant)
doc_fill (fill_doc f) = some f
doc_fill _ = none

instance abbrev pub docs : Serde Doc Fixed Instant
docs = record {
  order_text = order_doc;
  order_from = doc_order;
  position_text = position_doc;
  position_from = doc_position;
  fill_text = fill_doc;
  fill_from = doc_fill;
}

instance abbrev pub plain_formats : Formats
plain_formats = record {
  shown = λ _. "error";
  exit_idempotency_key = λ position_id remaining reason attempt. position_id;
}

abbrev pub num : ℕ → Fixed
num n = ticks (pos n)

abbrev pub config : Config Fixed
config = record {
  rpc = record {
    http_endpoints = "x" ∷ [];
    websocket_endpoints = [];
    max_data_age_secs = pos 15;
    request_timeout_secs = 8;
    max_attempts = 2;
    unknown_after_secs = pos 180;
  };
  strategy = record {
    base_mint = "sol";
    min_wallet_score = num 600_000;
    min_wallet_samples = 20;
    min_consensus_wallets = 2;
    min_signal_score = num 400_000;
    min_token_age_secs = pos 3600;
    stop_loss_pct = num 100_000;
    take_profit_pct = num 200_000;
    trailing_stop_pct = num 80_000;
    max_holding_minutes = pos 60;
  };
  economics = record {
    round_trip_cost_threshold_pct = num 80_000;
    min_expected_net_return_pct = num 10_000;
    max_quote_age_secs = pos 10;
    uncertainty_haircut_pct = num 0;
    sol_price_usd = none;
  };
  risk = record {
    starting_capital_usd = num 1_000_000;
    max_live_capital_usd = num 500_000;
    max_concurrent_positions = 2;
    max_position_percent_of_equity = num 200_000;
    max_position_percent_of_liquidity = num 10_000;
    max_risk_per_trade_percent = num 20_000;
    max_daily_loss_percent = num 50_000;
    max_total_drawdown_before_kill_switch_pct = num 200_000;
    cooldown_after_loss_minutes = pos 30;
    max_slippage_bps = 100;
    min_liquidity_usd = num 100_000_000;
    max_trades_per_day = 10;
    max_consecutive_failures = 3;
  };
  execution = record { slippage_bps = 50; max_price_impact_bps = 300 };
  runtime = record { quote_cache_ttl_secs = 30; max_liquidity_age_secs = 300 };
}

abbrev pub holding : Position Fixed Instant
holding = record {
  mint = "m";
  position_id = some "p";
  token_mint = some "m";
  base_mint = some "sol";
  entry_input_amount_atomic = some 100;
  entry_output_amount_atomic = some 10;
  token_decimals = some 0;
  base_mint_decimals = some 2;
  entry_fees_usd = some (num 0);
  entry_slippage_bps = some 0;
  entry_cost_model = none;
  quantity = num 100_000;
  remaining_quantity_atomic = some 10;
  entry_cost_usd = some (num 1_000_000);
  base_entry_price_usd = some (num 10_000);
  state = opened;
  reconciliation_status = reconciled;
  last_reconciled_at = none;
  exit_signature = none;
  exit_fees_usd = none;
  exit_time = none;
  entry_price_usd = num 1_000_000;
  entry_time = nanos (pos 0);
  entry_signature = "sig";
  high_water_price_usd = num 1_050_000;
  realized_pnl_usd = num 0;
  unrealized_pnl_usd = num 0;
  fees_usd = num 0;
  current_value_usd = num 1_000_000;
  signal_id = "s";
  exit_reason = none;
}

abbrev pub sale : Fill Fixed Instant
sale = record {
  order_id = "e";
  signature = "tx";
  input_amount = 10;
  output_amount = 100;
  price_usd = num 1_000_000;
  fees_usd = num 0;
  slippage_bps = 0;
  confirmed_at = nanos (pos 0);
  latency_ms = 0;
  fee_lamports = 0;
  input_value_usd = some (num 1_000_000);
  expected_output_amount = none;
}

-- An executor that counts its calls.
abbrev pub counting : Executor ℕ (Unit {0}) Fixed Instant
counting = record {
  quote = λ n input output amount slippage. (
    ok (record {
      input_mint = input;
      output_mint = output;
      input_amount = amount;
      output_amount = 100;
      price_impact_bps = 10;
      route = tt;
      observed_at = nanos (pos 0);
    }),
    n + 1,
  );
  execute = λ n request moment. (ok sale, n + 1);
  health = λ n. (ok tt, n);
  signer_pubkey = λ n. none;
  is_live = λ n. false;
  register_quote = λ n quote. n;
}

abbrev pub times : ExitTimes Instant
times = record {
  started = nanos (pos 1);
  written = nanos (pos 2);
  applied = nanos (pos 3);
  moment = record { started_at = nanos (pos 1); finished_at = nanos (pos 2); uuid = "u" };
  order_id = "e";
}

abbrev pub world : (ℕ → Option StorageError) → World ℕ Doc Fixed Instant
world fault = record {
  executor = 0;
  store = record {
    tables = record {
      kv = (position_key "m", position_doc holding) ∷ [];
      orders = [];
      fills = [];
      observations = [];
    };
    saved = none;
    fault = fault;
    rolled_back = λ _. false;
    calls = 0;
  };
  portfolio = [];
}

abbrev pub never : ℕ → Option StorageError
never n = none
