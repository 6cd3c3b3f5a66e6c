-- ===== src/Prelude/Map.antt =====
-- A `HashMap` as an association list: only lookups and updates by key are observed.
use mathlib.Core.Path.{◌≡◌, refl}
use mathlib.Core.Option.{Option, none, some}
use mathlib.Core.List.{List, [], ◌∷◌}
use mathlib.Core.Logic.{inl, inr, ◌≢◌}
use native.Mathlib.Omega.{arith}
use solana_bot.Prelude.Tests.{Eq, ◌==◌, if◌then◌else◌, Bool-cases}

module _ {ℓ κ} {K : Type ℓ} {V : Type κ} ⦃e : Eq K⦄ where
  abbrev pub lookup : K → List (K × V) → Option V
  lookup k [] = none
  lookup k ((j, v) ∷ m) = if j == k then some v else lookup k m

  abbrev pub insert : K → V → List (K × V) → List (K × V)
  insert k v [] = (k, v) ∷ []
  insert k v ((j, w) ∷ m) = if j == k then (k, v) ∷ m else (j, w) ∷ insert k v m

  abbrev pub remove : K → List (K × V) → List (K × V)
  remove k [] = []
  remove k ((j, w) ∷ m) = if j == k then remove k m else (j, w) ∷ remove k m

  pub lookup-insert_self : (k : K) (v : V) (m : List (K × V)) → lookup k (insert k v m) ≡ some v
  lookup-insert_self k v [] = rw ((e.beq_iff k k).1 refl)
  lookup-insert_self k v ((j, w) ∷ m) = elim (Bool-cases (j == k)) [
    | inl same ↦ rw (same, (e.beq_iff k k).1 refl)
    | inr other ↦ rw (other, other, lookup-insert_self k v m)
  ]

  pub lookup-insert_ne :
      (k j : K) (v : V) (m : List (K × V)) → j ≢ k → lookup j (insert k v m) ≡ lookup j m
  lookup-insert_ne k j v [] h = ground (arith, e.beq_iff k j)
  lookup-insert_ne k j v ((i, w) ∷ m) h =
      ground (arith, e.beq_iff i k, e.beq_iff i j, e.beq_iff k j, lookup-insert_ne k j v m h)

  pub lookup-insert :
      (j k : K) (v : V) (m : List (K × V))
      → lookup j (insert k v m) ≡ (if k == j then some v else lookup j m)
  lookup-insert j k v m = elim (Bool-cases (k == j)) [
    | inl same ↦ rw (same, (e.beq_iff k j).0 same) (lookup-insert_self j v m)
    | inr other ↦ rw other (lookup-insert_ne k j v m (λ q. ground (arith, e.beq_iff k j)))
  ]
