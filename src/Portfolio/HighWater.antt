-- ===== src/Portfolio/HighWater.antt =====
-- The high-water mark of portfolio/mod.rs, on which the trailing stop rests.
use solana_bot.Prelude.{ℕ, String, arith}
use solana_bot.Prelude.Decimal.{Decimal, IsOrdered, ◌≼◌, max_of}
use solana_bot.Domain.Trade.{Fill}
use solana_bot.Domain.Position.{Position}
use solana_bot.Portfolio.Book.{grow}
use solana_bot.Portfolio.Unwind.{sell_down, mark}

module _ {D : Type 0} ⦃d : Decimal D⦄ where
  -- The mark `high` is not below the old mark `low`, nor below the price `price`.
  abbrev pub Covers : D → D → D → Type 0
  Covers high low price = (low ≼ high) × (price ≼ high)

  max_of-Covers : IsOrdered D → (low price : D) → Covers (max_of low price) low price
  max_of-Covers order low price =
      ground (arith, order.leq_total low price, order.leq_refl low, order.leq_refl price)

module _ {D T : Type 0} ⦃d : Decimal D⦄ (order : IsOrdered D) where
  -- No further entry, exit or mark lowers the high-water mark of a position, and after each the
  -- mark is at least the price that was seen.
  pub high_water_grows :
      (p : Position D T) (fill : Fill D T) (price value realized : D) (reason : String) (now : T)
      (left remaining : ℕ)
      → Covers (grow p fill price value).high_water_price_usd p.high_water_price_usd price
        × Covers
            (sell_down p fill reason now left realized).high_water_price_usd
            p.high_water_price_usd
            fill.price_usd
        × Covers (mark p price remaining).1.high_water_price_usd p.high_water_price_usd price
  unfolding grow sell_down mark
  high_water_grows p fill price value realized reason now left remaining =
      let entered = max_of-Covers order p.high_water_price_usd price in
      let sold = max_of-Covers order p.high_water_price_usd fill.price_usd in
      (entered, ground arith, ground arith)
