-- ===== src/Strategy/SignalLaws.antt =====
-- What an accepted signal of strategy/signal.rs guarantees.
use solana_bot.Prelude.{
  ℕ, ◌%◌, ◌^◌, ◌≤◌, ◌≡◌, ◌≢◌, true, false, Option, none, some, List, [], ◌∷◌, map, String, arith,
  length, any, All, ok,
}
use solana_bot.Prelude.Int.{pos, negsuc, ◌≤ℤ◌}
use solana_bot.Prelude.Decimal.{Decimal, IsOrdered, of_nat, decimal, ◌≼◌, min_of, clamp}
use solana_bot.Prelude.Chrono.{Chrono, before}
use solana_bot.Config.{Config}
use solana_bot.Economics.CostModel.{ExpectedValue}
use solana_bot.Domain.Wallet.{WalletStats}
use solana_bot.Domain.Market.{MarketSnapshot, age_seconds, TokenSafety, TradeSignal}
use solana_bot.Strategy.Signal.{
  least, is_unsafe, is_weak, part_scores, score_signal, evaluate_signal,
}

module _ {D : Type 0} ⦃d : Decimal D⦄ where
  -- A change of the liquidity in percent that is not below -20; an unknown one counts as none.
  abbrev pub IsSteady : Option D → Type 0
  IsSteady none = decimal (negsuc 19) 0 ≼ of_nat {D = D} 0
  IsSteady (some change) = decimal (negsuc 19) 0 ≼ change

module _ {D T : Type 0} ⦃d : Decimal D⦄ ⦃c : Chrono T⦄ where
  -- A wallet whose evidence counts.
  pub record IsStrong (config : Config D) (now : T) (w : WalletStats D T) : Type 0 where
    pub samples : config.strategy.min_wallet_samples ≤ w.trades
    pub scored : config.strategy.min_wallet_score ≼ w.score
    pub dated : before now w.updated_at ≡ false

  any-is_weak :
      (config : Config D) (now : T) (ws : List (WalletStats D T))
      → any (is_weak config now) ws ≡ false
      → All (IsStrong config now) ws
  any-is_weak config now [] h = tt
  any-is_weak config now (w ∷ ws) h = ground (arith, any-is_weak config now ws)

  -- A token that passes the filter; a fact that is asked for has to be known.
  pub record IsSafe (config : Config D) (safety : TokenSafety D T) : Type 0 where
    pub old_enough : config.strategy.min_token_age_secs ≤ℤ safety.token_age_secs
    pub no_mint_authority : safety.mint_authority_present ≡ false
    pub no_freeze_authority : safety.freeze_authority_present ≡ false
    pub spread : safety.holder_top10_pct ≼ of_nat 70
    pub sellable : safety.sellable ≡ some true
    pub routed : safety.route_available ≡ some true
    pub unsuspicious : safety.creator_suspicious ≢ some true
    pub normal : safety.abnormal_activity ≢ some true
    pub steady : IsSteady safety.liquidity_change_pct

  is_unsafe-IsSafe :
      (config : Config D) (safety : TokenSafety D T)
      → is_unsafe config safety ≡ false
      → IsSafe config safety
  unfolding is_unsafe
  is_unsafe-IsSafe config safety h = record {
    old_enough = ground arith;
    no_mint_authority = ground arith;
    no_freeze_authority = ground arith;
    spread = ground arith;
    sellable = ground arith;
    routed = ground arith;
    unsuspicious = λ q. ground arith;
    normal = λ q. ground arith;
    steady = ground arith;
  }

  -- The gates that an accepted signal has passed.
  pub record IsQualified (config : Config D) (wallets : List (WalletStats D T))
      (market : MarketSnapshot D T) (safety : TokenSafety D T) (expected : ExpectedValue D)
      (now : T) (s : TradeSignal D T) : Type 0 where
    pub observed : before now market.observed_at ≡ false
    pub checked : before now safety.observed_at ≡ false
    pub fresh : age_seconds market now ≤ℤ config.rpc.max_data_age_secs
    pub liquid : config.risk.min_liquidity_usd ≼ market.liquidity_usd
    pub safe : IsSafe config safety
    pub agreed : config.strategy.min_consensus_wallets ≤ length wallets
    pub strong : any (is_weak config now) wallets ≡ false
    pub worthwhile : config.economics.min_expected_net_return_pct ≼ expected.net_return_pct
    pub confident : config.strategy.min_signal_score ≼ s.score.final_signal_score
    pub score_eq : s.score ≡ score_signal wallets market expected (of_nat (length wallets % 2 ^ 32))

  evaluate_signal-IsQualified :
      (config : Config D) (mint : String) (wallets : List (WalletStats D T))
      (market : MarketSnapshot D T) (safety : TokenSafety D T) (expected : ExpectedValue D)
      (now : T) (id : String) (s : TradeSignal D T)
      → evaluate_signal config mint wallets market safety expected now id ≡ ok s
      → IsQualified config wallets market safety expected now s
  unfolding evaluate_signal
  evaluate_signal-IsQualified config mint wallets market safety expected now id s e = record {
    observed = ground arith;
    checked = ground arith;
    fresh = ground arith;
    liquid = ground arith;
    safe = is_unsafe-IsSafe config safety (ground arith);
    agreed = ground arith;
    strong = ground arith;
    worthwhile = ground arith;
    confident = ground arith;
    score_eq = ground arith;
  }

  -- An accepted signal rests on market data that are neither future-dated nor too old, on safety data
  -- that are not future-dated, on enough liquidity, on a token that is old enough, without a mint or
  -- freeze authority, with at most 70 % in its ten largest accounts, known to be sellable and to have
  -- a route, not known to be suspicious or abnormal, and with a liquidity that did not fall by more
  -- than 20 %, where an unknown change counts as zero, on enough wallets, each of them with enough trades, a sufficient score and a date that is
  -- not in the future, and on a net return and a final score that reach their minimum.
  pub evaluate_signal_gates :
      (config : Config D) (mint : String) (wallets : List (WalletStats D T))
      (market : MarketSnapshot D T) (safety : TokenSafety D T) (expected : ExpectedValue D)
      (now : T) (id : String) (s : TradeSignal D T)
      → evaluate_signal config mint wallets market safety expected now id ≡ ok s
      → IsQualified config wallets market safety expected now s × All (IsStrong config now) wallets
  evaluate_signal_gates config mint wallets market safety expected now id s e =
      let q = evaluate_signal-IsQualified config mint wallets market safety expected now id s e in
      (q, any-is_weak config now wallets q.strong)

module _ {D T : Type 0} ⦃d : Decimal D⦄ where
  abbrev trades_of : WalletStats D T → ℕ
  trades_of w = w.trades

  least-All :
      (b : ℕ) (ws : List (WalletStats D T))
      → b ≤ least (map trades_of ws)
      → All (λ w. b ≤ w.trades) ws
  unfolding least
  least-All b [] h = tt
  least-All b (w ∷ []) h = (h, tt)
  least-All b (w ∷ v ∷ ws) h = (omega arith, least-All b (v ∷ ws) (omega arith))

module _ {D : Type 0} ⦃d : Decimal D⦄ (order : IsOrdered D) where
  min_of-le : (x y : D) → min_of x y ≼ y
  min_of-le x y = ground (arith, order.leq_refl y)

  clamp_bounds : (x lo hi : D) → lo ≼ hi → (lo ≼ clamp x lo hi) × (clamp x lo hi ≼ hi)
  clamp_bounds x lo hi h =
      ground
        (arith, order.leq_refl lo, order.leq_refl hi, order.leq_total x lo, order.leq_total x hi)

  zero-le-hundred : of_nat {D = D} 0 ≼ of_nat 100
  zero-le-hundred = order.leq_scaled (pos 0) (pos 100)

module _ {D T : Type 0} ⦃d : Decimal D⦄ ⦃c : Chrono T⦄ (order : IsOrdered D) where
  -- The capped components of an accepted signal's score are at most 100, the momentum is not
  -- negative, and the sample size is at most the number of trades of any of the wallets.
  pub evaluate_signal_scores :
      (config : Config D) (mint : String) (wallets : List (WalletStats D T))
      (market : MarketSnapshot D T) (safety : TokenSafety D T) (expected : ExpectedValue D)
      (now : T) (id : String) (s : TradeSignal D T)
      → evaluate_signal config mint wallets market safety expected now id ≡ ok s
      → let r = s.score in
        (r.consensus_score ≼ of_nat 100)
        × (r.liquidity_score ≼ of_nat 100)
        × (of_nat 0 ≼ r.momentum_score)
        × (r.momentum_score ≼ of_nat 100)
        × (r.economic_score ≼ of_nat 100)
        × All (λ w. r.wallet_sample_size ≤ w.trades) wallets
  unfolding score_signal part_scores
  evaluate_signal_scores config mint wallets market safety expected now id s e =
      let q = evaluate_signal-IsQualified config mint wallets market safety expected now id s e in
      let momentum = clamp_bounds order _ _ _ (zero-le-hundred order) in
      rw q.score_eq (
        min_of-le order _ _,
        min_of-le order _ _,
        momentum.0,
        momentum.1,
        min_of-le order _ _,
        least-All _ wallets (omega arith),
      )
