-- ===== src/Collector/Tests.antt =====
-- Runs of the open lots of a wallet, and the theorem at one of them.
use solana_bot.Prelude.{
  ℕ, ◌≡◌, refl, false, none, some, List, [], ◌∷◌, map, Option, arith, is_none, string_eq, ap,
}
use solana_bot.Prelude.Int.{ℤ, pos, negsuc, ◌-ℤ◌, ◌*ℤ◌, ◌/ℤ◌, ◌+ℤ◌}
use solana_bot.Prelude.Decimal.{Rounding, ◌⊖◌, of_nat}
use solana_bot.Prelude.Fixed.{Fixed, ticks, Instant, nanos, fixed_decimal, Fixed-IsOrdered}
use solana_bot.Collector.Lots.{
  Lot, WalletAccumulator, new_accumulator, running, sell_slice, sell_step, sell_loop,
}
use solana_bot.Collector.Wallet.{record_sell, second_of}
use solana_bot.Collector.Fuel.{record_sell_ends}

instance abbrev no_rounding : Rounding Fixed
no_rounding = record { round_dp = λ x places. x }

abbrev lot : ℕ → ℕ → Lot Fixed Instant
lot spent tokens = record {
  sol_spent = ticks (pos spent);
  tokens_received = ticks (pos tokens);
  timestamp = nanos (pos 0);
}

-- Ten tokens for five SOL, then ten for ten.
abbrev two_lots : WalletAccumulator Fixed Instant
two_lots = record new_accumulator {
  open_positions = ("m", lot 50_000 100_000 ∷ lot 100_000 100_000 ∷ []) ∷ [];
}

abbrev profits : Option (WalletAccumulator Fixed Instant) → List Fixed
profits none = []
profits (some acc) = map (λ t. t.pnl_sol) acc.completed_trades

-- Fifteen tokens for fifteen SOL: a profit of five on the first lot and of none on the second.
fifo :
    profits (
      second_of
        (record_sell "m" (ticks (pos 150_000)) (ticks (pos 150_000)) (nanos (pos 1)) two_lots))
    ≡ ticks (pos 50_000) ∷ ticks (pos 0) ∷ []
unfolding record_sell sell_loop sell_step sell_slice running ◌-ℤ◌ ◌*ℤ◌ ◌/ℤ◌ ◌+ℤ◌
fifo = refl

cancels : (z : ℤ) → z -ℤ z ≡ pos 0
unfolding ◌-ℤ◌
cancels (pos n) = ground arith
cancels (negsuc n) = ground arith

Fixed-exact : (x : Fixed) → x ⊖ x ≡ of_nat 0
unfolding ◌*ℤ◌ ◌/ℤ◌
Fixed-exact (ticks z) = ap ticks (cancels z)

record_sell_ends_example :
    is_none (record_sell "m" (ticks (pos 150_000)) (ticks (pos 150_000)) (nanos (pos 1)) two_lots)
    ≡ false
record_sell_ends_example =
    record_sell_ends Fixed-IsOrdered Fixed-exact "m" (ticks (pos 150_000)) (ticks (pos 150_000))
      (nanos (pos 1)) two_lots
