-- ===== src/Monitor/Tests.antt =====
-- A position whose sell quote has no impact, and the theorem at it.
use solana_bot.Prelude.{ℕ, ◌≡◌, refl, none, []}
use solana_bot.Prelude.Int.{pos, ◌*ℤ◌, ◌/ℤ◌}
use solana_bot.Prelude.Decimal.{Rounding}
use solana_bot.Prelude.Fixed.{Fixed, Instant, nanos, fixed_decimal, instant_chrono}
use solana_bot.Storage.{Notes, key_eq, query, last_liquidity, is_signal_invalidated}
use solana_bot.Runtime.{execute_exit_order}
use solana_bot.Runtime.Sample.{
  Doc, position_doc, docs, plain_formats, num, config, holding, counting, times, world, never,
}
use solana_bot.Monitor.Watch.{Watch}
use solana_bot.Monitor.Tick.{Glance, known_liquidity, liquidity_for, decide, with_store}
use solana_bot.Monitor.Laws.{decide_zero_impact}

instance abbrev no_rounding : Rounding Fixed
no_rounding = record { round_dp = λ x places. x }

-- Notes that are never read back; any text stands for them.
abbrev blank : Doc
blank = position_doc holding

instance abbrev blank_notes : Notes Doc Fixed Instant
blank_notes = record {
  wallet_text = λ w. blank;
  stop_text = λ reason at. blank;
  stop_from = λ j. none;
  reason_text = λ reason. blank;
  reason_from = λ j. none;
  liquidity_text = λ liquidity at. blank;
  liquidity_from = λ j. none;
  invalidated_text = λ at. blank;
  invalidated_from = λ j. none;
}

abbrev watching : Watch ℕ (Unit {0}) Doc Fixed Instant
watching = record { world = world never; cache = [] }

abbrev small : Glance Fixed Instant
small = record {
  held = holding;
  remaining = 10;
  route = record {
    base_price = num 10_000;
    base_decimals = 2;
    token_decimals = 0;
    base_mint = "sol";
  };
  mark = num 1_000_000;
  impact_bps = 0;
}

no_evidence :
    known_liquidity {D = Fixed} config.runtime.max_liquidity_age_secs
      (nanos (pos 5))
      (last_liquidity "m" watching.world.store).0
    ≡ none
unfolding last_liquidity query
no_evidence = refl

decide_zero_impact_example :
    let w' = (liquidity_for counting config (nanos (pos 5)) (λ mint. times) "m" small watching).1 in
    decide counting config (nanos (pos 5)) (λ mint. times) "m" small watching ≡ (
      let read = with_store w' (is_signal_invalidated Fixed "s" w'.world.store).1 in
      record read {
        world =
            (execute_exit_order counting config "m" "liquidity_deterioration" times read.world).1;
      })
unfolding ◌*ℤ◌ ◌/ℤ◌
decide_zero_impact_example =
    decide_zero_impact counting config (nanos (pos 5)) (λ mint. times) "m" small watching
      no_evidence refl refl
