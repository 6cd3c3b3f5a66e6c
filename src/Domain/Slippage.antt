-- ===== src/Domain/Slippage.antt =====
-- `Fill::realised_slippage_bps` of domain/trade.rs against the exact ratio.
use solana_bot.Prelude.{
  ℕ, ◌+◌, ◌-◌, ◌*◌, ◌/◌, ◌≤◌, ◌<◌, ◌≡◌, none, some, arith, u64_max, saturating_mul,
}
use solana_bot.Domain.Trade.{Fill, slippage_against, slippage_of, realised_slippage_bps}

part-le : (e d n : ℕ) → 0 < e → d ≤ e → n ≤ d * 10_000 → n / e ≤ 10_000
part-le e d n h k l = grind arith

slippage_against-le : (expected output : ℕ) → slippage_against expected output ≤ 10_000
unfolding slippage_against
slippage_against-le expected output =
    let lost = expected - output in
    ground (arith, part-le expected lost (saturating_mul u64_max lost 10_000))

-- The realised slippage never exceeds the whole, 10 000 basis points.
realised_slippage_bps-le : {D T : Type 0} (f : Fill D T) → realised_slippage_bps f ≤ 10_000
unfolding realised_slippage_bps
realised_slippage_bps-le f =
    elim (f.expected_output_amount) as (λ o. slippage_of o f.output_amount ≤ 10_000) [
      | none ↦ omega arith
      | some expected ↦ slippage_against-le expected f.output_amount
    ]

slippage_against-eq :
    (expected output : ℕ)
    → output < expected
    → expected ≤ u64_max / 10_000
    → slippage_against expected output ≡ (expected - output) * 10_000 / expected
unfolding slippage_against
slippage_against-eq expected output h k =
    let lost = expected - output in ground (arith, part-le expected lost (lost * 10_000))

div_bounds : (a b : ℕ) → 0 < b → (a / b * b ≤ a) × (a < (a / b + 1) * b)
div_bounds a b h = (grind arith, grind arith)

-- For a shortfall against an expected output that leaves room for the factor 10 000 in a `u64`,
-- the realised slippage is the ratio of the shortfall in basis points, rounded down.
realised_slippage_bps_ratio :
    {D T : Type 0} (f : Fill D T) (expected : ℕ)
    → f.expected_output_amount ≡ some expected
    → f.output_amount < expected
    → expected ≤ u64_max / 10_000
    → let lost = (expected - f.output_amount) * 10_000 in
      (realised_slippage_bps f * expected ≤ lost)
      × (lost < (realised_slippage_bps f + 1) * expected)
unfolding realised_slippage_bps
realised_slippage_bps_ratio f expected e h k =
    rw (e, slippage_against-eq expected f.output_amount h k) (div_bounds _ expected (omega arith))
