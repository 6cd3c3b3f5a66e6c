-- ===== src/SmartMoney/Consensus.antt =====
-- smart_money/tracker.rs: which wallets make up a consensus.
use solana_bot.Prelude.{
  ◌≡◌, refl, ◌⊎◌, inl, inr, true, some, List, [], ◌∷◌, String, arith, sym, ◌∙◌, ◌↔◌, string_eq,
  IsIn, Bool-cases, Option-cases, ℕ, get_elem?,
}
use mathlib.Core.Path.{subst}
use solana_bot.Prelude.Int.{ℤ}
use solana_bot.Prelude.Map.{lookup}
use solana_bot.Prelude.Chrono.{Chrono}
use solana_bot.Domain.Wallet.{WalletStats, WalletTradeObservation}
use solana_bot.SmartMoney.Tracker.{
  WalletTracker, entity, is_relevant, is_eligible, eligible, qualified_consensus_at,
}
use solana_bot.SmartMoney.Distinct.{distinct-IsApart, distinct-IsIn, distinct-IsCovered}

module _ {D T : Type 0} ⦃c : Chrono T⦄ where
  -- An eligible wallet of the store, and a relevant observation of it.
  abbrev pub IsBacked :
      List (String × WalletStats D T)
      → String
      → T
      → ℤ
      → WalletTradeObservation D T
      → WalletStats D T
      → Type 0
  IsBacked wallets mint as_of max_age o w =
      (is_relevant mint as_of max_age o ≡ true)
      × (lookup o.wallet wallets ≡ some w)
      × (is_eligible as_of max_age w ≡ true)

  module _ (wallets : List (String × WalletStats D T)) (mint : String) (as_of : T)
      (max_age : ℤ) where
    eligible-hit :
        (o : WalletTradeObservation D T) (rest : List (WalletTradeObservation D T))
        (w : WalletStats D T)
        → IsBacked wallets mint as_of max_age o w
        → eligible wallets mint as_of max_age (o ∷ rest)
          ≡ w ∷ eligible wallets mint as_of max_age rest
    unfolding eligible
    eligible-hit o rest w (relevant, found, good) = ground arith

    eligible-cases :
        (o : WalletTradeObservation D T) (rest : List (WalletTradeObservation D T))
        → ((w : WalletStats D T) × IsBacked wallets mint as_of max_age o w)
          ⊎ (eligible wallets mint as_of max_age (o ∷ rest)
              ≡ eligible wallets mint as_of max_age rest)
    unfolding eligible
    eligible-cases o rest = elim (Bool-cases (is_relevant mint as_of max_age o)) [
      | inr irrelevant ↦ inr (ground arith)
      | inl relevant ↦ elim (Option-cases (lookup o.wallet wallets)) [
        | inl missing ↦ inr (ground arith)
        | inr (w, found) ↦ elim (Bool-cases (is_eligible as_of max_age w)) [
          | inr bad ↦ inr (ground arith)
          | inl good ↦ inl (w, (relevant, found, good))
        ]
      ]
    ]

    eligible-IsBacked :
        (obs : List (WalletTradeObservation D T)) (w : WalletStats D T)
        → IsIn w (eligible wallets mint as_of max_age obs)
        → (o : WalletTradeObservation D T) × IsIn o obs × IsBacked wallets mint as_of max_age o w
    unfolding eligible
    eligible-IsBacked [] w there = elim there [ ]
    eligible-IsBacked (o ∷ rest) w there = elim (eligible-cases o rest) [
      | inl (v, backed) ↦ elim (subst (IsIn w) (eligible-hit o rest v backed) there) [
        | inl same ↦ (o, inl refl, subst (IsBacked wallets mint as_of max_age o) same backed)
        | inr later ↦ let (x, place, b) = eligible-IsBacked rest w later in (x, inr place, b)
      ]
      | inr skip ↦
          let (x, place, b) = eligible-IsBacked rest w (subst (IsIn w) skip there) in
          (x, inr place, b)
    ]

    IsBacked-eligible :
        (obs : List (WalletTradeObservation D T)) (o : WalletTradeObservation D T)
        (w : WalletStats D T)
        → IsIn o obs
        → IsBacked wallets mint as_of max_age o w
        → IsIn w (eligible wallets mint as_of max_age obs)
    IsBacked-eligible [] o w there backed = elim there [ ]
    IsBacked-eligible (x ∷ rest) o w (inl same) backed =
        let here = subst (λ y. IsBacked wallets mint as_of max_age y w) (sym same) backed in
        subst (IsIn w) (sym (eligible-hit x rest w here)) (inl refl)
    IsBacked-eligible (x ∷ rest) o w (inr later) backed =
        let found = IsBacked-eligible rest o w later backed in
        elim (eligible-cases x rest) [
          | inl (v, b) ↦ subst (IsIn w) (sym (eligible-hit x rest v b)) (inr found)
          | inr skip ↦ subst (IsIn w) (sym skip) found
        ]

  -- Two places of a consensus never hold wallets of one entity.
  pub consensus_distinct :
      (tracker : WalletTracker D T) (mint : String) (as_of : T) (max_age : ℤ) (i j : ℕ)
      (a b : WalletStats D T)
      → get_elem? (qualified_consensus_at tracker mint as_of max_age) i ≡ some a
      → get_elem? (qualified_consensus_at tracker mint as_of max_age) j ≡ some b
      → entity a ≡ entity b
      → i ≡ j
  unfolding qualified_consensus_at
  consensus_distinct tracker mint as_of max_age =
      distinct-IsApart [] (eligible tracker.wallets mint as_of max_age tracker.observations)

  -- An entity has a wallet in the consensus exactly when some stored and eligible wallet of that
  -- entity has a relevant observation.
  pub consensus_iff :
      (tracker : WalletTracker D T) (mint : String) (as_of : T) (max_age : ℤ) (name : String)
      → ((w : WalletStats D T) × IsIn w (qualified_consensus_at tracker mint as_of max_age)
          × (entity w ≡ name))
        ↔ ((w : WalletStats D T) × (o : WalletTradeObservation D T) × IsIn o tracker.observations
            × IsBacked tracker.wallets mint as_of max_age o w
            × (entity w ≡ name))
  unfolding qualified_consensus_at
  consensus_iff tracker mint as_of max_age name =
      let ws = eligible tracker.wallets mint as_of max_age tracker.observations in
      (
        λ (w, there, named).
            let (o, place, backed) =
              eligible-IsBacked tracker.wallets mint as_of max_age tracker.observations w
                (distinct-IsIn [] ws w there) in
            (w, o, place, backed, named),
        λ (w, o, place, backed, named).
            let there =
              IsBacked-eligible tracker.wallets mint as_of max_age tracker.observations o w place
                backed in
            elim (distinct-IsCovered [] ws w there) [
              | inl empty ↦ ground arith
              | inr (b, kept, same) ↦ (b, kept, same ∙ named)
            ],
      )
