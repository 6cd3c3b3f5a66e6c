-- ===== src/Backtest/SplitLaws.antt =====
-- backtest/split.rs: periods follow each other in time, and what becomes of the time between them.
use solana_bot.Prelude.{◌≤◌, ℕ, ◌≡◌, true, Option, none, some, ok, arith, inl, inr, Option-cases}
use solana_bot.Prelude.Chrono.{Chrono, IsChronological, before, not_after}
use solana_bot.Backtest.Split.{
  Split, train, validation, out_of_sample, SplitConfig, validate_boundaries,
  classify_split_with_exclusion,
}

abbrev pub rank : Split → ℕ
rank train = 0
rank validation = 1
rank out_of_sample = 2

module _ {T : Type 0} ⦃c : Chrono T⦄ (time : IsChronological T) where
  -- The statement of the theorem, for boundaries on their own.
  abbrev Ranks : SplitConfig T → T → T → Type 0
  Ranks s a b =
      (classify_split_with_exclusion a s).1 ≡ none
      → (classify_split_with_exclusion b s).1 ≡ none
      → rank (classify_split_with_exclusion a s).0 ≤ rank (classify_split_with_exclusion b s).0

  classify-Ranks :
      (te vs ve os : Option T) (a b : T)
      → not_after a b ≡ true
      → Ranks
          (record { train_end = te; validation_start = vs; validation_end = ve; oos_start = os })
          a
          b
  unfolding classify_split_with_exclusion
  classify-Ranks te vs none none a b le ka kb = ground arith
  classify-Ranks te vs none (some o) a b le ka kb = ground (arith, time.later_trans o a b)
  classify-Ranks te none (some v) none a b le ka kb = ground (arith, time.later_trans v a b)
  classify-Ranks te none (some v) (some o) a b le ka kb =
      ground (arith, time.later_trans v a b, time.later_trans o a b)
  classify-Ranks te (some w) (some v) none a b le ka kb =
      ground (arith, time.later_trans v a b, time.later_trans w a b)
  classify-Ranks te (some w) (some v) (some o) a b le ka kb =
      ground (arith, time.later_trans v a b, time.later_trans o a b, time.later_trans w a b)

  -- Of two signals that no gap excludes, the later one is never in an earlier period.
  pub classify_monotone :
      (s : SplitConfig T) (a b : T)
      → not_after a b ≡ true
      → (classify_split_with_exclusion a s).1 ≡ none
      → (classify_split_with_exclusion b s).1 ≡ none
      → rank (classify_split_with_exclusion a s).0 ≤ rank (classify_split_with_exclusion b s).0
  classify_monotone s a b le ka kb =
      classify-Ranks s.train_end s.validation_start s.validation_end s.oos_start a b le ka kb

  -- With boundaries that pass the validation and of which the end of the training and both ends of
  -- the validation period are set, a signal that is not before the end of the training and before the
  -- start of the validation period is classified as training data and not excluded, where instants
  -- are totally ordered.
  pub classify_after_train_end :
      (s : SplitConfig T) (ts te vs ve : T)
      → s.train_end ≡ some te
      → s.validation_start ≡ some vs
      → s.validation_end ≡ some ve
      → validate_boundaries s ≡ ok tt
      → not_after te ts ≡ true
      → before ts vs ≡ true
      → classify_split_with_exclusion ts s ≡ (train, none)
  unfolding classify_split_with_exclusion validate_boundaries
  classify_after_train_end s ts te vs ve e1 e2 e3 valid late early =
      let from_vs = time.earlier_asym ts vs in
      elim (Option-cases s.oos_start) [
        | inl missing ↦ ground (arith, from_vs, time.later_trans ve ts vs)
        | inr (os, given) ↦ ground (
          arith,
          from_vs,
          time.later_trans ve ts vs,
          time.later_trans os ts vs,
          time.later_trans ve os vs,
        )
      ]
