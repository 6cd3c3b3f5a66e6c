-- ===== src/SmartMoney/Distinct.antt =====
-- smart_money/tracker.rs: linked wallets are counted once.
use solana_bot.Prelude.{
  ℕ, zero, suc, ◌≡◌, refl, ◌⊎◌, inl, inr, true, false, some, List, [], ◌∷◌, String, arith, sym, ap,
  ◌∙◌, get_elem?, IsIn, Bool-cases, string_eq, ◌==◌,
}
use mathlib.Core.Path.{subst}
use solana_bot.Domain.Wallet.{WalletStats}
use solana_bot.SmartMoney.Tracker.{is_member, entity, distinct}

module _ {D T : Type 0} where
  distinct-seen :
      (entities : List String) (w : WalletStats D T) (rest : List (WalletStats D T))
      → is_member (entity w) entities ≡ true
      → distinct entities (w ∷ rest) ≡ distinct entities rest
  unfolding distinct
  distinct-seen entities w rest seen = ground arith

  distinct-new :
      (entities : List String) (w : WalletStats D T) (rest : List (WalletStats D T))
      → is_member (entity w) entities ≡ false
      → distinct entities (w ∷ rest) ≡ w ∷ distinct (entity w ∷ entities) rest
  unfolding distinct
  distinct-new entities w rest new = ground arith

  -- No wallet that is kept has an entity of the set.
  abbrev IsFresh : List String → List (WalletStats D T) → Type 0
  IsFresh entities ws =
      (i : ℕ) (a : WalletStats D T)
      → get_elem? ws i ≡ some a
      → is_member (entity a) entities ≡ false

  IsFresh-cons :
      (entities : List String) (w : WalletStats D T) (ws : List (WalletStats D T))
      → is_member (entity w) entities ≡ false
      → IsFresh (entity w ∷ entities) ws
      → IsFresh entities (w ∷ ws)
  IsFresh-cons entities w ws new fresh zero a e = ground arith
  IsFresh-cons entities w ws new fresh (suc i) a e = ground (arith, fresh i a e)

  distinct-IsFresh :
      (entities : List String) (ws : List (WalletStats D T))
      → IsFresh entities (distinct entities ws)
  unfolding distinct
  distinct-IsFresh entities [] = λ i a e. ground arith
  distinct-IsFresh entities (w ∷ rest) = elim (Bool-cases (is_member (entity w) entities)) [
    | inl seen ↦
        subst (IsFresh entities) (sym (distinct-seen entities w rest seen))
          (distinct-IsFresh entities rest)
    | inr new ↦ subst (IsFresh entities) (sym (distinct-new entities w rest new)) (
        IsFresh-cons entities w (distinct (entity w ∷ entities) rest) new
          (distinct-IsFresh (entity w ∷ entities) rest))
  ]

  -- No two places hold wallets of one entity.
  abbrev IsApart : List (WalletStats D T) → Type 0
  IsApart ws =
      (i j : ℕ) (a b : WalletStats D T)
      → get_elem? ws i ≡ some a
      → get_elem? ws j ≡ some b
      → entity a ≡ entity b
      → i ≡ j

  IsApart-cons :
      (entities : List String) (w : WalletStats D T) (ws : List (WalletStats D T))
      → IsFresh (entity w ∷ entities) ws
      → IsApart ws
      → IsApart (w ∷ ws)
  IsApart-cons entities w ws fresh apart zero zero a b e f same = refl
  IsApart-cons entities w ws fresh apart (suc i) (suc j) a b e f same =
      ap suc (apart i j a b e f same)
  IsApart-cons entities w ws fresh apart zero (suc j) a b e f same =
      let one : entity w ≡ entity b = ground arith in
      ground (arith, fresh j b f, (string_eq.beq_iff (entity w) (entity b)).1 one)
  IsApart-cons entities w ws fresh apart (suc i) zero a b e f same =
      let one : entity w ≡ entity a = ground arith in
      ground (arith, fresh i a e, (string_eq.beq_iff (entity w) (entity a)).1 one)

  pub distinct-IsApart :
      (entities : List String) (ws : List (WalletStats D T)) → IsApart (distinct entities ws)
  unfolding distinct
  distinct-IsApart entities [] = λ i j a b e f same. ground arith
  distinct-IsApart entities (w ∷ rest) = elim (Bool-cases (is_member (entity w) entities)) [
    | inl seen ↦
        subst IsApart (sym (distinct-seen entities w rest seen)) (distinct-IsApart entities rest)
    | inr new ↦ subst IsApart (sym (distinct-new entities w rest new)) (
        IsApart-cons entities w (distinct (entity w ∷ entities) rest)
          (distinct-IsFresh (entity w ∷ entities) rest)
          (distinct-IsApart (entity w ∷ entities) rest))
  ]

  pub distinct-IsIn :
      (entities : List String) (ws : List (WalletStats D T)) (a : WalletStats D T)
      → IsIn a (distinct entities ws)
      → IsIn a ws
  unfolding distinct
  distinct-IsIn entities [] a = λ there. there
  distinct-IsIn entities (w ∷ rest) a = elim (Bool-cases (is_member (entity w) entities)) [
    | inl seen ↦
        subst (λ ws. IsIn a ws → IsIn a (w ∷ rest)) (sym (distinct-seen entities w rest seen))
          (λ there. inr (distinct-IsIn entities rest a there))
    | inr new ↦
        subst (λ ws. IsIn a ws → IsIn a (w ∷ rest)) (sym (distinct-new entities w rest new))
          (λ there. elim there [
            | inl same ↦ inl same
            | inr later ↦ inr (distinct-IsIn (entity w ∷ entities) rest a later)
          ])
  ]

  -- The entity is in the set, or one of the wallets has it.
  abbrev pub IsCovered : List String → String → List (WalletStats D T) → Type 0
  IsCovered entities name ws =
      (is_member name entities ≡ true) ⊎ ((b : WalletStats D T) × IsIn b ws × (entity b ≡ name))

  IsCovered-cons :
      (entities : List String) (w : WalletStats D T) (name : String) (ws : List (WalletStats D T))
      → IsCovered (entity w ∷ entities) name ws
      → IsCovered entities name (w ∷ ws)
  IsCovered-cons entities w name ws (inr (b, there, same)) = inr (b, inr there, same)
  IsCovered-cons entities w name ws (inl seen) = elim (Bool-cases (entity w == name)) [
    | inl same ↦ inr (w, inl refl, (string_eq.beq_iff (entity w) name).0 same)
    | inr other ↦ inl (ground arith)
  ]

  pub distinct-IsCovered :
      (entities : List String) (ws : List (WalletStats D T)) (a : WalletStats D T)
      → IsIn a ws
      → IsCovered entities (entity a) (distinct entities ws)
  distinct-IsCovered entities [] a there = elim there [ ]
  distinct-IsCovered entities (w ∷ rest) a there =
      elim (Bool-cases (is_member (entity w) entities)) [
        | inl seen ↦
            subst (IsCovered entities (entity a)) (sym (distinct-seen entities w rest seen))
              (elim there [
                | inl same ↦ inl (ap (λ x. is_member (entity x) entities) (sym same) ∙ seen)
                | inr later ↦ distinct-IsCovered entities rest a later
              ])
        | inr new ↦
            subst (IsCovered entities (entity a)) (sym (distinct-new entities w rest new))
              (elim there [
                | inl same ↦ inr (w, inl refl, ap entity same)
                | inr later ↦
                    IsCovered-cons entities w (entity a) (distinct (entity w ∷ entities) rest)
                      (distinct-IsCovered (entity w ∷ entities) rest a later)
              ])
      ]
