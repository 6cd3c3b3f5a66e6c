-- ===== src/Runtime/PendingTests.antt =====
-- A run of `reconcile_pending_orders`, and the theorem at it.
use solana_bot.Prelude.{◌≡◌, refl, false, none, some, [], ◌∷◌, ok, map}
use solana_bot.Prelude.Int.{pos}
use solana_bot.Prelude.Fixed.{Fixed, Instant, nanos, fixed_decimal, instant_chrono}
use solana_bot.Domain.Trade.{OrderRecord, entry, buy, submitted, failed, transition, can_transition}
use solana_bot.Storage.{key_eq, incomplete_orders, update_order, statement, query}
use solana_bot.Chain.{Node, ChainTexts}
use solana_bot.Runtime.Pending.{
  Site, Operator, mark_order, settle_pending, settle_all, reconcile_pending_orders,
}
use solana_bot.Runtime.Sample.{Doc, order_doc, docs, plain_formats, num, config, never}

abbrev left_over : OrderRecord Fixed Instant
left_over = record {
  id = "o";
  signal_id = "s";
  mint = "m";
  kind = entry;
  position_id = some "p";
  side = buy;
  input_mint = some "b";
  output_mint = some "m";
  input_amount_atomic = some 1;
  input_value_usd = some (num 1);
  output_mint_decimals = some 6;
  state = submitted;
  idempotency_key = "k";
  created_at = nanos (pos 0);
  signature = none;
  error = none;
}

instance abbrev silent_node : Node (Unit {0})
silent_node = record {
  signature_status = λ n sig. (ok none, n);
  transaction = λ n sig. (ok none, n);
  token_balances = λ n owner. (ok [], n);
}

instance abbrev plain_texts : ChainTexts
plain_texts = record { on_chain_failure = λ j. "failure"; unverifiable_text = λ u. "unverifiable" }

abbrev paper : Operator Instant
paper = record {
  live = false;
  owner = none;
  now = nanos (pos 5);
  times = record { confirmed_at = nanos (pos 5); written = nanos (pos 6); fallback_id = "f" };
}

abbrev restarted : Site (Unit {0}) Doc Instant
restarted = record {
  node = tt;
  store = record {
    tables = record {
      kv = [];
      orders =
          record {
            id = "o";
            idempotency_key = "k";
            state = submitted;
            payload = order_doc left_over;
            order_kind = entry;
            position_id = some "p";
            side = buy;
            updated_at = nanos (pos 0);
          }
          ∷ [];
      fills = [];
      observations = [];
    };
    saved = none;
    fault = never;
    rolled_back = λ _. false;
    calls = 0;
  };
}

paper_order_fails :
    map (λ r. r.state) (reconcile_pending_orders config paper restarted).1.store.tables.orders
    ≡ failed ∷ []
unfolding reconcile_pending_orders settle_all settle_pending mark_order update_order statement
    incomplete_orders query transition can_transition
paper_order_fails = refl
