-- ===== src/Prelude/Chrono.antt =====
-- What the program uses of the crate `chrono`: instants, the signed distance between two of them
-- in nanoseconds, and the whole minutes and seconds of a distance.
use mathlib.Core.Path.{◌≡◌}
use mathlib.Core.Bool.{Bool, true, false, not}
use solana_bot.Prelude.Int.{ℤ}

pub record Chrono (T : Type 0) : Type 0 where
  pub earlier : T → T → Bool
  pub since : T → T → ℤ
  pub num_minutes : ℤ → ℤ
  pub num_seconds : ℤ → ℤ
  pub plus_minutes : T → ℤ → T

module _ {T : Type 0} ⦃c : Chrono T⦄ where
  -- `a < b` and `a <= b` on instants.
  abbrev pub before : T → T → Bool
  before = c.earlier

  abbrev pub not_after : T → T → Bool
  not_after a b = not (c.earlier b a)

  -- `a - b`.
  abbrev pub since : T → T → ℤ
  since = c.since

  -- `t + Duration::minutes(m)`.
  abbrev pub plus_minutes : T → ℤ → T
  plus_minutes = c.plus_minutes

-- Instants are in one line: `earlier` is the strict part of a total order.
pub record IsChronological (T : Type 0) ⦃c : Chrono T⦄ : Type 0 where
  pub earlier_asym : (a b : T) → c.earlier a b ≡ true → c.earlier b a ≡ false
  pub later_trans :
      (x y z : T) → c.earlier y x ≡ false → c.earlier z y ≡ false → c.earlier z x ≡ false
