-- ===== src/Prelude/Decimal.antt =====
-- What the program uses of the crate `rust_decimal`, as an interface. An operation that would
-- overflow panics in the crate; the interface speaks of the results of the others.
use Prim.Native.Nat.{ℕ}
use mathlib.Core.Path.{◌≡◌}
use mathlib.Core.Bool.{Bool, true, false, not}
use mathlib.Core.Logic.{◌⊎◌}
use solana_bot.Prelude.Tests.{if◌then◌else◌}
use solana_bot.Prelude.Int.{ℤ, pos, leb_ℤ}

-- `scaled n s` is `Decimal::new(n, s)`, `Decimal::from(n)` and the literals `dec!(…)`.
pub record Decimal (D : Type 0) : Type 0 where
  pub scaled : ℤ → ℕ → D
  pub add : D → D → D
  pub sub : D → D → D
  pub mul : D → D → D
  pub div : D → D → D
  pub neg : D → D
  pub leq : D → D → Bool

infixl 65 ◌⊕◌ ◌⊖◌
infixl 70 ◌⊗◌ ◌⊘◌
module _ {D : Type 0} ⦃d : Decimal D⦄ where
  abbrev pub ◌⊕◌ : D → D → D
  ◌⊕◌ = d.add

  abbrev pub ◌⊖◌ : D → D → D
  ◌⊖◌ = d.sub

  abbrev pub ◌⊗◌ : D → D → D
  ◌⊗◌ = d.mul

  abbrev pub ◌⊘◌ : D → D → D
  ◌⊘◌ = d.div

  abbrev pub negate : D → D
  negate = d.neg

  abbrev pub leq : D → D → Bool
  leq = d.leq

  -- `<` of a total order.
  abbrev pub lss : D → D → Bool
  lss x y = not (d.leq y x)

  -- `==` compares by value.
  abbrev pub same : D → D → Bool
  same x y = if d.leq x y then d.leq y x else false

  abbrev pub of_nat : ℕ → D
  of_nat n = d.scaled (pos n) 0

  abbrev pub decimal : ℤ → ℕ → D
  decimal = d.scaled

  -- `Ord::max`, `Ord::min` and `clamp`.
  abbrev pub max_of : D → D → D
  max_of x y = if leq x y then y else x

  abbrev pub min_of : D → D → D
  min_of x y = if leq x y then x else y

  abbrev pub clamp : D → D → D → D
  clamp x lo hi = if lss x lo then lo else if lss hi x then hi else x

infix 4 ◌≼◌ ◌≺◌
abbrev pub ◌≼◌ : {D : Type 0} ⦃d : Decimal D⦄ → D → D → Type 0
x ≼ y = leq x y ≡ true

abbrev pub ◌≺◌ : {D : Type 0} ⦃d : Decimal D⦄ → D → D → Type 0
x ≺ y = leq y x ≡ false

-- `Decimal::round_dp`
pub record Rounding (D : Type 0) : Type 0 where
  pub round_dp : D → ℕ → D

-- The order of `Decimal` is total, and it is that of the integers on integers.
pub record IsOrdered (D : Type 0) ⦃d : Decimal D⦄ : Type 0 where
  pub leq_refl : (x : D) → x ≼ x
  pub leq_trans : (x y z : D) → x ≼ y → y ≼ z → x ≼ z
  pub leq_total : (x y : D) → (x ≼ y) ⊎ (y ≼ x)
  pub leq_scaled : (m n : ℤ) → leq (d.scaled m 0) (d.scaled n 0) ≡ leb_ℤ m n

-- Signs: the rounding of a result never takes it across zero.
pub record IsSigned (D : Type 0) ⦃d : Decimal D⦄ : Type 0 where
  pub add_nonneg : (x y : D) → of_nat 0 ≼ x → of_nat 0 ≼ y → of_nat 0 ≼ x ⊕ y
  pub mul_nonneg : (x y : D) → of_nat 0 ≼ x → of_nat 0 ≼ y → of_nat 0 ≼ x ⊗ y
  pub div_nonneg : (x y : D) → of_nat 0 ≼ x → of_nat 0 ≺ y → of_nat 0 ≼ x ⊘ y
  pub sub_le : (x y : D) → of_nat 0 ≼ y → x ⊖ y ≼ x
