-- ===== src/Portfolio/Quantity.antt =====
-- Units are neither made nor lost: over any sequence of calls of `apply_entry`, `apply_exit` and
-- `mark_to_market` of portfolio/mod.rs, for any mints, what is held of a mint and what was sold of
-- it add up to what was bought.
use solana_bot.Prelude.{
  ℕ, ◌+◌, ◌≤◌, ◌≡◌, List, [], ◌∷◌, String, arith, is_ok, All, u64_max, string_eq, if◌then◌else◌,
  ◌==◌,
}
use solana_bot.Prelude.Decimal.{Decimal}
use solana_bot.Domain.Trade.{Fill}
use solana_bot.Portfolio.Book.{Portfolio, EntryTerms, apply_entry}
use solana_bot.Portfolio.Unwind.{apply_exit, mark_to_market}
use solana_bot.Portfolio.Entry.{held}
use solana_bot.Portfolio.Units.{enter_units, leave_units, revalue_units}

-- A call, with its arguments.
pub data Trade (D T : Type 0) : Type 0 where
  enter : EntryTerms D T → Fill D T → Trade D T
  leave : String → Fill D T → String → T → Trade D T
  revalue : String → D → Trade D T

module _ {D T : Type 0} ⦃d : Decimal D⦄ where
  unfoldable pub after : Portfolio D T → Trade D T → Portfolio D T
  after pf (enter e fill) = (apply_entry pf e fill).1
  after pf (leave mint fill reason now) = (apply_exit pf mint fill reason now).1
  after pf (revalue mint price) = (mark_to_market pf mint price).1

  -- The units of a mint that a call buys, or sells, where it succeeds.
  unfoldable pub bought : String → Portfolio D T → Trade D T → ℕ
  bought m pf (enter e fill) =
      if e.mint == m then if is_ok (apply_entry pf e fill).0 then fill.output_amount else 0 else 0
  bought m pf _ = 0

  unfoldable pub sold : String → Portfolio D T → Trade D T → ℕ
  sold m pf (leave mint fill reason now) =
      if mint == m
      then if is_ok (apply_exit pf mint fill reason now).0 then fill.input_amount else 0
      else 0
  sold m pf _ = 0

  -- The portfolio after a list of calls, and the totals of a mint over them.
  unfoldable pub after_all : Portfolio D T → List (Trade D T) → Portfolio D T
  after_all pf [] = pf
  after_all pf (t ∷ ts) = after_all (after pf t) ts

  unfoldable pub all_bought : String → Portfolio D T → List (Trade D T) → ℕ
  all_bought m pf [] = 0
  all_bought m pf (t ∷ ts) = bought m pf t + all_bought m (after pf t) ts

  unfoldable pub all_sold : String → Portfolio D T → List (Trade D T) → ℕ
  all_sold m pf [] = 0
  all_sold m pf (t ∷ ts) = sold m pf t + all_sold m (after pf t) ts

  -- The amounts of a call are `u64` values.
  abbrev pub IsWord : Trade D T → Type 0
  IsWord (enter e fill) = fill.output_amount ≤ u64_max
  IsWord _ = Unit

  after_units :
      (m : String) (pf : Portfolio D T) (t : Trade D T)
      → IsWord t
      → held pf m + bought m pf t ≤ u64_max
      → held (after pf t) m + sold m pf t ≡ held pf m + bought m pf t
  unfolding after bought sold
  after_units m pf (enter e fill) w small = omega (arith, enter_units m pf e fill w small)
  after_units m pf (leave mint fill reason now) w small =
      omega (arith, leave_units m pf mint fill reason now)
  after_units m pf (revalue mint price) w small = omega (arith, revalue_units m pf mint price)

  -- From any portfolio and over any list of calls, for any mint: as long as the units held at first
  -- and the units bought fit a `u64` together, the units held at the end and those sold add up to
  -- the units held at first and those bought.
  pub after_all_conserves :
      (m : String) (pf : Portfolio D T) (ts : List (Trade D T))
      → All IsWord ts
      → held pf m + all_bought m pf ts ≤ u64_max
      → held (after_all pf ts) m + all_sold m pf ts ≡ held pf m + all_bought m pf ts
  unfolding after_all all_bought all_sold
  after_all_conserves m pf [] w small = omega arith
  after_all_conserves m pf (t ∷ ts) (w, ws) small =
      let now = after_units m pf t w (omega arith) in
      omega (arith, now, after_all_conserves m (after pf t) ts ws (omega arith))
