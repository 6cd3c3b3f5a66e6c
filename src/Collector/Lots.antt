-- ===== src/Collector/Lots.antt =====
-- collector/wallet_monitor.rs: the open lots of a wallet, first in first out.
use solana_bot.Prelude.{
  ℕ, zero, suc, Option, none, some, List, [], ◌∷◌, ◌++◌, String, if◌then◌else◌, string_eq,
}
use solana_bot.Prelude.Int.{ℤ}
use solana_bot.Prelude.Decimal.{Decimal, Rounding, ◌⊖◌, ◌⊗◌, ◌⊘◌, of_nat, leq, lss, same, min_of}

-- `DateTime::timestamp`
pub record Unix (T : Type 0) : Type 0 where
  pub timestamp : T → ℤ

pub data SwapDirection : Type 0 where
  bought sold : SwapDirection

-- `OpenPosition`
pub record Lot (D T : Type 0) : Type 0 where
  pub sol_spent : D
  pub tokens_received : D
  pub timestamp : T

pub record CompletedTrade (D T : Type 0) : Type 0 where
  pub return_pct : D
  pub pnl_sol : D
  pub entry_time : T
  pub exit_time : T

pub record WalletAccumulator (D T : Type 0) : Type 0 where
  pub open_positions : List (String × List (Lot D T))
  pub completed_trades : List (CompletedTrade D T)
  pub buys : ℕ
  pub sells : ℕ
  pub dex_activity : List (String × ℕ)
  pub last_activity_ts : Option ℤ
  pub first_activity_ts : Option ℤ

abbrev pub new_accumulator : {D T : Type 0} → WalletAccumulator D T
new_accumulator = record {
  open_positions = [];
  completed_trades = [];
  buys = 0;
  sells = 0;
  dex_activity = [];
  last_activity_ts = none;
  first_activity_ts = none;
}

-- What the loop of `record_sell` changes.
pub record Selling (D T : Type 0) : Type 0 where
  pub queue : List (Lot D T)
  pub remaining : D
  pub trades : List (CompletedTrade D T)
  pub last_trade : Option (CompletedTrade D T)

module _ {D T : Type 0} ⦃d : Decimal D⦄ where
  -- The front of the queue, while something is left to sell.
  abbrev pub front : List (Lot D T) → Option (Lot D T × List (Lot D T))
  front [] = none
  front (lot ∷ rest) = some (lot, rest)

  unfoldable pub running : Selling D T → Option (Lot D T × List (Lot D T))
  running st = if lss (of_nat 0) st.remaining then front st.queue else none

module _ {D T : Type 0} ⦃d : Decimal D⦄ ⦃r : Rounding D⦄ (proceeds_per_token : D)
    (sell_time : T) where
  abbrev pub slice_trade : Lot D T → D → D → CompletedTrade D T
  slice_trade lot cost proceeds = record {
    return_pct =
        if lss (of_nat 0) cost
        then r.round_dp ((proceeds ⊖ cost) ⊘ cost ⊗ of_nat 100) 2
        else of_nat 0;
    pnl_sol = proceeds ⊖ cost;
    entry_time = lot.timestamp;
    exit_time = sell_time;
  }

  -- A slice of the front lot, which is dropped where it is exhausted.
  unfoldable pub sell_slice : Lot D T → List (Lot D T) → Selling D T → Selling D T
  sell_slice lot rest st =
      let amount = min_of lot.tokens_received st.remaining in
      let cost = lot.sol_spent ⊗ amount ⊘ lot.tokens_received in
      let trade = slice_trade lot cost (proceeds_per_token ⊗ amount) in
      let left = lot.tokens_received ⊖ amount in
      record {
        queue =
            if same left (of_nat 0)
            then rest
            else record lot { tokens_received = left; sol_spent = lot.sol_spent ⊖ cost } ∷ rest;
        remaining = st.remaining ⊖ amount;
        trades = st.trades ++ (trade ∷ []);
        last_trade = some trade;
      }

  -- One round of the loop; an empty lot is dropped.
  unfoldable pub sell_step : Lot D T → List (Lot D T) → Selling D T → Selling D T
  sell_step lot rest st =
      if leq lot.tokens_received (of_nat 0)
      then record st { queue = rest }
      else sell_slice lot rest st

  -- The loop, which is `none` where the fuel does not suffice.
  unfoldable pub sell_loop : ℕ → Selling D T → Option (Selling D T)
  sell_loop zero st = elim (running st) [ none ↦ some st | some _ ↦ none ]
  sell_loop (suc n) st = elim (running st) [
    | none ↦ some st
    | some (lot, rest) ↦ sell_loop n (sell_step lot rest st)
  ]
