-- ===== src/Backtest/Split.antt =====
-- backtest/split.rs.
use solana_bot.Prelude.{
  Bool, false, ◌&&◌, Option, none, some, List, map, Result, ok, reject_if, ◌>>◌, is_none,
  if◌then◌else◌,
}
use solana_bot.Prelude.Chrono.{Chrono, before, not_after}

pub data Split : Type 0 where
  train validation out_of_sample : Split

pub record SplitConfig (T : Type 0) : Type 0 where
  pub train_end : Option T
  pub validation_start : Option T
  pub validation_end : Option T
  pub oos_start : Option T

-- The texts of the errors and of the exclusion, with the instants that they print.
pub data BoundaryError (T : Type 0) : Type 0 where
  train_after_validation validation_reversed validation_after_oos : T → T → BoundaryError T

pub data Exclusion (T : Type 0) : Type 0 where
  in_gap : T → T → T → Exclusion T

abbrev pub no_split : {T : Type 0} → SplitConfig T
no_split = record {
  train_end = none;
  validation_start = none;
  validation_end = none;
  oos_start = none;
}

-- A test on two boundaries, where both are given.
abbrev pub both : {T : Type 0} → (T → T → Bool) → Option T → Option T → Bool
both test (some a) (some b) = test a b
both test _ _ = false

abbrev pub one : {T : Type 0} → (T → Bool) → Option T → Bool
one test (some a) = test a
one test none = false

-- An error with two boundaries; it is only raised where both are given.
abbrev pub pair_error :
    {T : Type 0}
    → (T → T → BoundaryError T)
    → (T → T → Bool)
    → Option T
    → Option T
    → Result (BoundaryError T) (Unit {0})
pair_error e test (some a) (some b) = reject_if (test a b) (e a b)
pair_error e test _ _ = ok tt

module _ {T : Type 0} ⦃c : Chrono T⦄ where
  unfoldable pub validate_boundaries : SplitConfig T → Result (BoundaryError T) (Unit {0})
  validate_boundaries s = do
    pair_error train_after_validation (λ te vs. before vs te) s.train_end s.validation_start
    pair_error validation_reversed (λ vs ve. not_after ve vs) s.validation_start s.validation_end
    pair_error validation_after_oos (λ ve os. before os ve) s.validation_end s.oos_start

  -- The last check: the gap between the end of the validation and the start of the last period.
  abbrev pub gap : T → Option T → Option T → Split × Option (Exclusion T)
  gap ts (some ve) (some os) =
      if not_after ve ts && before ts os then (train, some (in_gap ts ve os)) else (train, none)
  gap ts _ _ = (train, none)

  unfoldable pub classify_split_with_exclusion : T → SplitConfig T → Split × Option (Exclusion T)
  classify_split_with_exclusion ts s =
      if one (λ os. not_after os ts) s.oos_start
      then (out_of_sample, none)
      else if is_none s.oos_start && one (λ ve. not_after ve ts) s.validation_end
      then (out_of_sample, none)
      else if both (λ vs ve. not_after vs ts && before ts ve) s.validation_start s.validation_end
      then (validation, none)
      else gap ts s.validation_end s.oos_start

  unfoldable pub assign_splits : List T → SplitConfig T → Result (BoundaryError T) (List Split)
  assign_splits timestamps s = do
    validate_boundaries s
    ok (map (λ ts. (classify_split_with_exclusion ts s).0) timestamps)
