-- ===== src/Prelude/Words.antt =====
-- The saturating, checked and converting operations of the unsigned machine integers; the first
-- argument is the largest value of the type.
use Prim.Native.Nat.{ℕ, ◌+◌, ◌-◌, ◌*◌, ◌%◌, ◌^◌, min}
use mathlib.Core.Option.{Option, none, some}
use solana_bot.Prelude.Tests.{leb, if◌then◌else◌}

abbrev pub u8_max : ℕ
u8_max = 255

abbrev pub u32_max : ℕ
u32_max = 4_294_967_295

abbrev pub u64_max : ℕ
u64_max = 18_446_744_073_709_551_615

abbrev pub saturating_add : ℕ → ℕ → ℕ → ℕ
saturating_add top a b = min (a + b) top

abbrev pub saturating_mul : ℕ → ℕ → ℕ → ℕ
saturating_mul top a b = min (a * b) top

-- `-` stops at 0, as `saturating_sub` does.
abbrev pub saturating_sub : ℕ → ℕ → ℕ
saturating_sub a b = a - b

abbrev pub checked_add : ℕ → ℕ → ℕ → Option ℕ
checked_add top a b = if leb (a + b) top then some (a + b) else none

abbrev pub checked_sub : ℕ → ℕ → Option ℕ
checked_sub a b = if leb b a then some (a - b) else none

-- `try_from`
abbrev pub try_from : ℕ → ℕ → Option ℕ
try_from top a = if leb a top then some a else none

abbrev pub checked_pow : ℕ → ℕ → ℕ → Option ℕ
checked_pow top base exponent = try_from top (base ^ exponent)

-- What a build without overflow checks computes, for a type whose largest value is `top`.
abbrev pub wrapping_add : ℕ → ℕ → ℕ → ℕ
wrapping_add top a b = (a + b) % (top + 1)

abbrev pub wrapping_sub : ℕ → ℕ → ℕ → ℕ
wrapping_sub top a b = (a + (top + 1) - b) % (top + 1)
