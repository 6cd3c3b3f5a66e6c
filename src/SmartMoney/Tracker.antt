-- ===== src/SmartMoney/Tracker.antt =====
-- smart_money/tracker.rs.
use solana_bot.Prelude.{
  Bool, true, false, ◌&&◌, Option, none, some, List, [], ◌∷◌, ◌++◌, String, ◌==◌, string_eq, any,
}
use Prim.Native.String.{◌++◌ as str_append}
use solana_bot.Prelude.Int.{ℤ, leb_ℤ}
use solana_bot.Prelude.Map.{lookup, insert}
use solana_bot.Prelude.Decimal.{Decimal}
use solana_bot.Prelude.Chrono.{Chrono, not_after, since}
use solana_bot.Domain.Wallet.{
  WalletStats, WalletTradeObservation, WalletTier, qualified, high_confidence, Side, buy, sell,
}
use solana_bot.SmartMoney.Classifier.{SmartMoneyThresholds, score_wallet}

pub record WalletTracker (D T : Type 0) : Type 0 where
  pub wallets : List (String × WalletStats D T)
  pub observations : List (WalletTradeObservation D T)
  pub thresholds : SmartMoneyThresholds D

-- The tests on a tier and on a side of `qualified_consensus_at`.
abbrev pub counts : WalletTier → Bool
counts qualified = true
counts high_confidence = true
counts _ = false

abbrev pub is_buy : Side → Bool
is_buy buy = true
is_buy sell = false

abbrev pub is_member : String → List String → Bool
is_member k xs = any (λ x. x == k) xs

abbrev pub entity_name : Option String → String → String
entity_name none wallet = str_append "wallet:" wallet
entity_name (some entity_id) wallet = entity_id

module _ {D T : Type 0} where
  abbrev pub new_tracker : SmartMoneyThresholds D → WalletTracker D T
  new_tracker thresholds = record { wallets = []; observations = []; thresholds = thresholds }

  unfoldable pub upsert : ⦃d : Decimal D⦄ → WalletTracker D T → WalletStats D T → WalletTracker D T
  upsert tracker stats =
      let scored = score_wallet stats tracker.thresholds in
      record tracker { wallets = insert scored.wallet scored tracker.wallets }

  unfoldable pub observe : WalletTracker D T → WalletTradeObservation D T → WalletTracker D T
  observe tracker observation = record tracker {
    observations = tracker.observations ++ (observation ∷ []);
  }

  unfoldable pub entity : WalletStats D T → String
  entity w = entity_name w.entity_id w.wallet

  -- The last filter: the set of entities grows as it goes along.
  unfoldable pub distinct : List String → List (WalletStats D T) → List (WalletStats D T)
  distinct entities [] = []
  distinct entities (w ∷ rest) = elim (is_member (entity w) entities) [
    | true ↦ distinct entities rest
    | false ↦ w ∷ distinct (entity w ∷ entities) rest
  ]

module _ {D T : Type 0} ⦃c : Chrono T⦄ where
  -- The filter on observations; a duration is in nanoseconds.
  unfoldable pub is_relevant : String → T → ℤ → WalletTradeObservation D T → Bool
  is_relevant mint as_of max_age o =
      o.mint == mint
      && is_buy o.side
      && not_after o.observed_at as_of
      && not_after o.received_at as_of
      && leb_ℤ (since as_of o.observed_at) max_age

  unfoldable pub is_eligible : T → ℤ → WalletStats D T → Bool
  is_eligible as_of max_age w =
      counts w.tier && not_after w.updated_at as_of && leb_ℤ (since as_of w.updated_at) max_age

  -- The wallets of the relevant observations that are eligible, in their order.
  unfoldable pub eligible :
      List (String × WalletStats D T)
      → String
      → T
      → ℤ
      → List (WalletTradeObservation D T)
      → List (WalletStats D T)
  eligible wallets mint as_of max_age [] = []
  eligible wallets mint as_of max_age (o ∷ rest) = elim (is_relevant mint as_of max_age o) [
    | false ↦ eligible wallets mint as_of max_age rest
    | true ↦ elim (lookup o.wallet wallets) [
      | none ↦ eligible wallets mint as_of max_age rest
      | some w ↦ elim (is_eligible as_of max_age w) [
        | false ↦ eligible wallets mint as_of max_age rest
        | true ↦ w ∷ eligible wallets mint as_of max_age rest
      ]
    ]
  ]

  unfoldable pub qualified_consensus_at :
      WalletTracker D T → String → T → ℤ → List (WalletStats D T)
  qualified_consensus_at tracker mint as_of max_age =
      distinct [] (eligible tracker.wallets mint as_of max_age tracker.observations)
