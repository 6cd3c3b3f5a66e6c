-- ===== src/Backtest/Ambiguity.antt =====
-- backtest/data.rs and backtest/engine.rs: candles in which the order of the prices is unknown.
use solana_bot.Prelude.{Option, none, some, if◌then◌else◌, unwrap_or}
use solana_bot.Prelude.Decimal.{Decimal, ◌⊕◌, ◌⊖◌, ◌⊗◌, ◌⊘◌, of_nat, leq, min_of, max_of}

pub record PriceObservation (D T : Type 0) : Type 0 where
  pub timestamp : T
  pub price_usd : D
  pub liquidity_usd : D
  pub open_usd : Option D
  pub high_usd : Option D
  pub low_usd : Option D
  pub close_usd : Option D
  pub volume : Option D

-- What the text of an ambiguity shows.
pub record Ambiguity (D : Type 0) : Type 0 where
  pub sl_price : D
  pub tp_price : D
  pub interval_low : D
  pub interval_high : D

module _ {D T : Type 0} where
  abbrev pub effective_open : PriceObservation D T → D
  effective_open obs = unwrap_or obs.open_usd obs.price_usd

  abbrev pub effective_high : PriceObservation D T → D
  effective_high obs = unwrap_or obs.high_usd obs.price_usd

  abbrev pub effective_low : PriceObservation D T → D
  effective_low obs = unwrap_or obs.low_usd obs.price_usd

  abbrev pub effective_close : PriceObservation D T → D
  effective_close obs = unwrap_or obs.close_usd obs.price_usd

module _ {D : Type 0} ⦃d : Decimal D⦄ where
  -- Both levels lie within the range of the two candles.
  abbrev pub ambiguity : D → D → D → D → Option (Ambiguity D)
  ambiguity sl_price tp_price interval_low interval_high =
      if leq interval_low sl_price
      then (if leq tp_price interval_high
          then some (record {
            sl_price = sl_price;
            tp_price = tp_price;
            interval_low = interval_low;
            interval_high = interval_high;
          })
          else none)
      else none

module _ {D T : Type 0} ⦃d : Decimal D⦄ where
  unfoldable pub detect_ambiguity :
      PriceObservation D T → PriceObservation D T → D → D → D → Option (Ambiguity D)
  detect_ambiguity prev_obs curr_obs entry_price sl_pct tp_pct =
      if leq entry_price (of_nat 0)
      then none
      else ambiguity (entry_price ⊗ (of_nat 1 ⊖ sl_pct ⊘ of_nat 100))
          (entry_price ⊗ (of_nat 1 ⊕ tp_pct ⊘ of_nat 100))
          (min_of (effective_low prev_obs) (effective_low curr_obs))
          (max_of (effective_high prev_obs) (effective_high curr_obs))
