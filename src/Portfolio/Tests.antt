-- ===== src/Portfolio/Tests.antt =====
-- Runs of portfolio/mod.rs at fixed-point decimals, and the theorems at those inputs.
use solana_bot.Prelude.{
  ℕ, ◌+◌, ◌≡◌, refl, ◌≢◌, false, none, some, List, [], ◌∷◌, String, arith, ok, err, saturating_add,
  u64_max, string_eq,
}
use solana_bot.Prelude.Int.{pos, ◌+ℤ◌, ◌-ℤ◌, ◌*ℤ◌, ◌/ℤ◌}
use solana_bot.Prelude.Map.{lookup}
use solana_bot.Prelude.Fixed.{Fixed, ticks, fixed_decimal, Fixed-IsOrdered}
use solana_bot.Economics.CostModel.{CostModel}
use solana_bot.Domain.Trade.{Fill}
use solana_bot.Domain.Position.{Position, closed, trusted_remaining}
use solana_bot.Portfolio.Book.{
  Portfolio, EntryTerms, oversold, base_price, grow, fresh, apply_entry,
}
use solana_bot.Portfolio.Unwind.{
  sell_down, exit_position, apply_exit, mark, mark_to_market, reconcile_with_chain,
}
use solana_bot.Portfolio.Entry.{IsEntered, held, apply_entry_effect}
use solana_bot.Portfolio.Exit.{IsSold, apply_exit_effect}
use solana_bot.Portfolio.Chain.{Settles, reconcile_with_chain-Settles, reentry_counts_vanished}
use solana_bot.Portfolio.Quantity.{
  Trade, enter, leave, revalue, after, after_all, bought, all_bought, all_sold, after_all_conserves,
}
use solana_bot.Portfolio.HighWater.{Covers, high_water_grows}

abbrev costs : CostModel Fixed ℕ
costs = record {
  observed_at = 0;
  source = "test";
  is_live_snapshot = false;
  input = record {
    position_size_usd = ticks (pos 100_000);
    avg_priority_fee_usd = ticks (pos 10);
    avg_swap_fee_bps = ticks (pos 300_000);
    avg_slippage_bps = ticks (pos 0);
    avg_price_impact_bps = ticks (pos 0);
    failed_tx_rate = ticks (pos 0);
    avg_failed_tx_cost_usd = ticks (pos 0);
    assumed_win_loss_ratio = ticks (pos 20_000);
    assumed_avg_loss_pct = ticks (pos 100_000);
  };
}

abbrev terms : EntryTerms Fixed ℕ
terms = record {
  mint = "m";
  base_mint = "sol";
  token_decimals = 0;
  base_mint_decimals = 2;
  position_id = "p";
  price = ticks (pos 10_000);
  signal_id = "s";
  cost_model = costs;
}

abbrev fill : ℕ → ℕ → Fixed → Fill Fixed ℕ
fill in_amount out_amount value = record {
  order_id = "o";
  signature = "sig";
  input_amount = in_amount;
  output_amount = out_amount;
  price_usd = ticks (pos 12_000);
  fees_usd = ticks (pos 100);
  slippage_bps = 5;
  confirmed_at = 7;
  latency_ms = 0;
  fee_lamports = 5000;
  input_value_usd = some value;
  expected_output_amount = none;
}

abbrev bought_ten : Fill Fixed ℕ
bought_ten = fill 100 10 (ticks (pos 100_000))

abbrev sold_four : Fill Fixed ℕ
sold_four = fill 4 48 (ticks (pos 48_000))

abbrev book : Portfolio Fixed ℕ
book = (apply_entry [] terms bought_ten).1

abbrev first_position : Position Fixed ℕ
first_position = fresh terms bought_ten (ticks (pos 100_000))

book-lookup : lookup "m" book ≡ some first_position
unfolding apply_entry
book-lookup = refl

-- Ten units for 10 dollars, four sold for 4.80: a gain of 0.80 less the fee of 0.01.
partial_exit :
    (apply_exit book "m" sold_four "take_profit" 9).0
    ≡ ok (record { realized_pnl_usd = ticks (pos 7_900); closed_out = false })
unfolding apply_entry fresh base_price apply_exit exit_position ◌+ℤ◌ ◌-ℤ◌ ◌*ℤ◌ ◌/ℤ◌
partial_exit = refl

cannot_oversell : (apply_exit book "m" (fill 11 1 (ticks (pos 1))) "x" 9).0 ≡ err (oversold 11 10)
unfolding apply_entry fresh base_price apply_exit exit_position
cannot_oversell = refl

apply_entry_effect_example :
    let pf' = (apply_entry book terms bought_ten).1 in
    (p' : Position Fixed ℕ) × (lookup "m" pf' ≡ some p')
    × IsEntered (held book "m") 10 p'
    × ((other : String) → other ≢ "m" → lookup other pf' ≡ lookup other book)
unfolding apply_entry
apply_entry_effect_example = apply_entry_effect book terms bought_ten (omega arith) refl

apply_exit_effect_example :
    let pf' = (apply_exit book "m" sold_four "take_profit" 9).1 in
    (p' : Position Fixed ℕ) × (lookup "m" pf' ≡ some p')
    × IsSold first_position 10 sold_four p'
        (record { realized_pnl_usd = ticks (pos 7_900); closed_out = false })
    × ((other : String) → other ≢ "m" → lookup other pf' ≡ lookup other book)
unfolding fresh
apply_exit_effect_example =
    apply_exit_effect book "m" sold_four "take_profit" 9 first_position 10
      (record { realized_pnl_usd = ticks (pos 7_900); closed_out = false }) book-lookup refl
      partial_exit

reconcile_with_chain-Settles_example : Settles book "m" 3 (reconcile_with_chain book "m" 3 0 9)
unfolding fresh
reconcile_with_chain-Settles_example =
    reconcile_with_chain-Settles book "m" 3 0 9 first_position book-lookup refl

-- The ten units that left the wallet are counted beside the ten that were bought again.
reentry_counts_vanished_example :
    ((gone : Position Fixed ℕ) × (lookup "m" (reconcile_with_chain book "m" 0 0 9).1 ≡ some gone)
      × (gone.state ≡ closed)
      × (gone.remaining_quantity_atomic ≡ some 10))
    × (p' : Position Fixed ℕ) × (lookup "m"
          (apply_entry (reconcile_with_chain book "m" 0 0 9).1 terms bought_ten).1
        ≡ some p')
    × (trusted_remaining p' ≡ some (saturating_add u64_max 10 10))
unfolding fresh apply_entry
reentry_counts_vanished_example =
    reentry_counts_vanished book terms bought_ten 0 9 first_position 9 book-lookup refl refl
      (omega arith) refl

abbrev calls : List (Trade Fixed ℕ)
calls =
    enter terms bought_ten
    ∷ leave "m" sold_four "take_profit" 9
    ∷ leave "m" (fill 11 1 (ticks (pos 1))) "too_much" 9
    ∷ revalue "m" (ticks (pos 9_000))
    ∷ []

after_all_conserves_example :
    held (after_all [] calls) "m" + all_sold "m" [] calls ≡ 0 + all_bought "m" [] calls
unfolding all_bought bought after apply_entry
after_all_conserves_example =
    after_all_conserves {D = Fixed} "m" [] calls (ground arith) (omega arith)

after_all_run : held (after_all [] calls) "m" ≡ 6
unfolding after_all after apply_entry fresh base_price apply_exit exit_position sell_down
    mark_to_market mark ◌/ℤ◌ ◌*ℤ◌
after_all_run = refl

high_water_grows_example :
    let price : Fixed = ticks (pos 9_000) in
    let value : Fixed = ticks (pos 1) in
    let p = first_position in
    Covers (grow p sold_four price value).high_water_price_usd p.high_water_price_usd price
    × Covers
        (sell_down p sold_four "x" 9 6 value).high_water_price_usd
        p.high_water_price_usd
        (ticks (pos 12_000))
    × Covers (mark p price 6).1.high_water_price_usd p.high_water_price_usd price
high_water_grows_example =
    high_water_grows Fixed-IsOrdered first_position sold_four (ticks (pos 9_000)) (ticks (pos 1))
      (ticks (pos 1)) "x" 9 6 6
