-- ===== src/Collector/Wallet.antt =====
-- collector/wallet_monitor.rs: the methods of `WalletAccumulator` that take observations.
use solana_bot.Prelude.{
  Option, none, some, List, [], ◌∷◌, ◌++◌, String, if◌then◌else◌, length, string_eq, wrapping_add,
  u32_max, unwrap_or,
}
use solana_bot.Prelude.Int.{ℤ, leb_ℤ}
use solana_bot.Prelude.Decimal.{Decimal, Rounding, ◌⊘◌, of_nat, leq}
use solana_bot.Prelude.Map.{lookup, insert}
use solana_bot.Collector.Lots.{
  Unix, SwapDirection, bought, sold, Lot, CompletedTrade, WalletAccumulator, Selling, sell_loop,
}

abbrev pub later_of : Option ℤ → ℤ → Option ℤ
later_of none now = some now
later_of (some seen) now = some (if leb_ℤ seen now then now else seen)

abbrev pub earlier_of : Option ℤ → ℤ → Option ℤ
earlier_of none now = some now
earlier_of (some seen) now = some (if leb_ℤ seen now then seen else now)

module _ {D T : Type 0} ⦃d : Decimal D⦄ ⦃r : Rounding D⦄ where
  -- The fuel of the loop is the number of open lots; `none` is that it does not suffice.
  abbrev pub after_sale :
      String
      → WalletAccumulator D T
      → Option (Selling D T)
      → Option (Option (CompletedTrade D T) × WalletAccumulator D T)
  after_sale mint acc none = none
  after_sale mint acc (some st) = some (
    st.last_trade,
    record acc {
      open_positions = insert mint st.queue acc.open_positions;
      completed_trades = st.trades;
    },
  )

  abbrev pub sell_from :
      String
      → D
      → D
      → T
      → WalletAccumulator D T
      → Option (List (Lot D T))
      → Option (Option (CompletedTrade D T) × WalletAccumulator D T)
  sell_from mint tokens_sold sol_received sell_time acc none = some (none, acc)
  sell_from mint tokens_sold sol_received sell_time acc (some []) = some (none, acc)
  sell_from mint tokens_sold sol_received sell_time acc (some (lot ∷ rest)) =
      if leq tokens_sold (of_nat 0)
      then some (none, acc)
      else after_sale mint acc (
          sell_loop (sol_received ⊘ tokens_sold) sell_time (length (lot ∷ rest)) (record {
            queue = lot ∷ rest;
            remaining = tokens_sold;
            trades = acc.completed_trades;
            last_trade = none;
          }))

  unfoldable pub record_sell :
      String
      → D
      → D
      → T
      → WalletAccumulator D T
      → Option (Option (CompletedTrade D T) × WalletAccumulator D T)
  record_sell mint tokens_sold sol_received sell_time acc =
      sell_from mint tokens_sold sol_received sell_time acc (lookup mint acc.open_positions)

abbrev pub second_of : {A B : Type 0} → Option (A × B) → Option B
second_of none = none
second_of (some (a, b)) = some b

module _ {D T : Type 0} where
  unfoldable pub observe_dex : String → WalletAccumulator D T → WalletAccumulator D T
  observe_dex dex acc = record acc {
    dex_activity =
        insert dex (wrapping_add u32_max (unwrap_or (lookup dex acc.dex_activity) 0) 1)
          acc.dex_activity;
  }

  abbrev pub seen_at : ℤ → WalletAccumulator D T → WalletAccumulator D T
  seen_at block_time acc = record acc {
    last_activity_ts = later_of acc.last_activity_ts block_time;
    first_activity_ts = earlier_of acc.first_activity_ts block_time;
  }

module _ {D T : Type 0} ⦃d : Decimal D⦄ ⦃r : Rounding D⦄ ⦃u : Unix T⦄ where
  unfoldable pub record_observation :
      String → SwapDirection → D → D → T → WalletAccumulator D T → Option (WalletAccumulator D T)
  record_observation mint bought input_amount output_amount ts acc =
      let seen = seen_at (u.timestamp ts) acc in
      some (record seen {
        buys = wrapping_add u32_max seen.buys 1;
        open_positions =
            insert mint
              (unwrap_or (lookup mint seen.open_positions) []
                ++ (record {
                  sol_spent = input_amount;
                  tokens_received = output_amount;
                  timestamp = ts;
                }
                    ∷ []))
              seen.open_positions;
      })
  record_observation mint sold input_amount output_amount ts acc =
      let seen = seen_at (u.timestamp ts) acc in
      second_of (
        record_sell mint input_amount output_amount ts
          (record seen { sells = wrapping_add u32_max seen.sells 1 }))
