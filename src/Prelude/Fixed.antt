-- ===== src/Prelude/Fixed.antt =====
-- The interfaces of `Decimal` and `Chrono` can be met: integers with four decimal places, and
-- instants as nanoseconds. The tests and the witnesses run at these.
use Prim.Native.Nat.{◌^◌}
use mathlib.Core.Path.{◌≡◌, refl}
use mathlib.Core.Bool.{true, false}
use native.Mathlib.Omega.{arith}
use solana_bot.Prelude.Int.{ℤ, pos, negsuc, ◌+ℤ◌, ◌-ℤ◌, ◌*ℤ◌, ◌/ℤ◌, leb_ℤ, ltb_ℤ}
use solana_bot.Prelude.Decimal.{Decimal, IsOrdered, IsSigned}
use solana_bot.Prelude.Chrono.{Chrono, IsChronological}

pub data Fixed : Type 0 where
  ticks : ℤ → Fixed

abbrev pub raw : Fixed → ℤ
raw (ticks n) = n

instance abbrev pub fixed_decimal : Decimal Fixed
fixed_decimal = record {
  scaled = λ n s. ticks (◌/ℤ◌ (n *ℤ pos 10000) (pos (10 ^ s)));
  add = λ x y. ticks (raw x +ℤ raw y);
  sub = λ x y. ticks (raw x -ℤ raw y);
  mul = λ x y. ticks (◌/ℤ◌ (raw x *ℤ raw y) (pos 10000));
  div = λ x y. ticks (◌/ℤ◌ (raw x *ℤ pos 10000) (raw y));
  neg = λ x. ticks (pos 0 -ℤ raw x);
  leq = λ x y. leb_ℤ (raw x) (raw y);
}

pub data Instant : Type 0 where
  nanos : ℤ → Instant

abbrev pub nanos_of : Instant → ℤ
nanos_of (nanos n) = n

instance abbrev pub instant_chrono : Chrono Instant
instant_chrono = record {
  earlier = λ a b. ltb_ℤ (nanos_of a) (nanos_of b);
  since = λ a b. nanos_of a -ℤ nanos_of b;
  num_minutes = λ n. ◌/ℤ◌ n (pos 60_000_000_000);
  num_seconds = λ n. ◌/ℤ◌ n (pos 1_000_000_000);
  plus_minutes = λ t m. nanos (nanos_of t +ℤ m *ℤ pos 60_000_000_000);
}

leb_ℤ_scaled :
    (m n : ℤ) → leb_ℤ (◌/ℤ◌ (m *ℤ pos 10000) (pos 1)) (◌/ℤ◌ (n *ℤ pos 10000) (pos 1)) ≡ leb_ℤ m n
unfolding ◌*ℤ◌ ◌/ℤ◌
leb_ℤ_scaled m n = ground arith

pub Fixed-IsOrdered : IsOrdered Fixed
Fixed-IsOrdered = record {
  leq_refl = λ x. ground arith;
  leq_trans = λ x y z h k. ground arith;
  leq_total = λ x y. ground arith;
  leq_scaled = leb_ℤ_scaled;
}

scaled_zero : ◌/ℤ◌ (pos 0 *ℤ pos 10000) (pos (10 ^ 0)) ≡ pos 0
unfolding ◌*ℤ◌ ◌/ℤ◌
scaled_zero = refl

add_pos :
    (x y : ℤ) → leb_ℤ (pos 0) x ≡ true → leb_ℤ (pos 0) y ≡ true → leb_ℤ (pos 0) (x +ℤ y) ≡ true
unfolding ◌+ℤ◌
add_pos x y h k = ground arith

mul_pos :
    (x y : ℤ) → leb_ℤ (pos 0) x ≡ true → leb_ℤ (pos 0) y ≡ true → leb_ℤ (pos 0) (x *ℤ y) ≡ true
unfolding ◌*ℤ◌
mul_pos (pos x) (pos y) h k = ground arith
mul_pos (pos x) (negsuc y) h k = ground arith
mul_pos (negsuc x) y h k = ground arith

div_pos :
    (x y : ℤ) → leb_ℤ (pos 0) x ≡ true → leb_ℤ (pos 0) y ≡ true → leb_ℤ (pos 0) (◌/ℤ◌ x y) ≡ true
unfolding ◌/ℤ◌
div_pos (pos x) (pos y) h k = ground arith
div_pos (pos x) (negsuc y) h k = ground arith
div_pos (negsuc x) y h k = ground arith

div_not_neg :
    (x y : ℤ)
    → leb_ℤ (pos 0) x ≡ true
    → leb_ℤ y (pos 0) ≡ false
    → leb_ℤ (pos 0) (◌/ℤ◌ (x *ℤ pos 10000) y) ≡ true
div_not_neg x y h k = div_pos (x *ℤ pos 10000) y (mul_pos x (pos 10000) h refl) (ground arith)

sub_pos : (x y : ℤ) → leb_ℤ (pos 0) y ≡ true → leb_ℤ (x -ℤ y) x ≡ true
unfolding ◌-ℤ◌
sub_pos x y h = ground arith

pub Fixed-IsSigned : IsSigned Fixed
Fixed-IsSigned = record {
  add_nonneg = λ x y. simp scaled_zero (add_pos (raw x) (raw y));
  mul_nonneg = λ x y.
      simp scaled_zero
        (λ h k. div_pos (raw x *ℤ raw y) (pos 10000) (mul_pos (raw x) (raw y) h k) refl);
  sub_le = λ x y. simp scaled_zero (sub_pos (raw x) (raw y));
  div_nonneg = λ x y. simp scaled_zero (div_not_neg (raw x) (raw y));
}

pub Instant-IsChronological : IsChronological Instant
Instant-IsChronological = record {
  earlier_asym = λ a b h. ground arith;
  later_trans = λ x y z h k. ground arith;
}
