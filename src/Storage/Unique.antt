-- ===== src/Storage/Unique.antt =====
-- storage/state.rs: an idempotency key is used for one order.
use solana_bot.Prelude.{◌≡◌, refl, false, ◌||◌, List, [], ◌∷◌, ◌++◌, map, arith, string_eq, ◌∙◌}
use solana_bot.Storage.Sql.{OrderRow, key_eq}
use solana_bot.Storage.Orders.{clashes, taken, updated}

module _ {J T : Type 0} where
  -- No two rows share an identifier or an idempotency key.
  abbrev pub IsUnique : List (OrderRow J T) → Type 0
  IsUnique [] = Unit
  IsUnique (r ∷ rows) = (taken r rows ≡ false) × IsUnique rows

  taken-append :
      (row new : OrderRow J T) (rows : List (OrderRow J T))
      → taken row (rows ++ (new ∷ [])) ≡ (taken row rows || clashes row new)
  taken-append row new [] = ground arith
  taken-append row new (r ∷ rows) = ground (arith, taken-append row new rows)

  clashes_comm : (a b : OrderRow J T) → clashes a b ≡ clashes b a
  clashes_comm a b = ground (
    arith,
    string_eq.beq_iff a.id b.id,
    string_eq.beq_iff b.id a.id,
    string_eq.beq_iff a.idempotency_key b.idempotency_key,
    string_eq.beq_iff b.idempotency_key a.idempotency_key,
  )

  pub append-IsUnique :
      (rows : List (OrderRow J T)) (new : OrderRow J T)
      → IsUnique rows
      → taken new rows ≡ false
      → IsUnique (rows ++ (new ∷ []))
  append-IsUnique [] new unique fresh = (refl, tt)
  append-IsUnique (r ∷ rows) new (apart, unique) fresh = (
    ground (arith, taken-append r new rows, clashes_comm r new),
    append-IsUnique rows new unique (ground arith),
  )

  -- An update changes neither the identifiers nor the keys.
  taken-updated :
      (row r : OrderRow J T) (rows : List (OrderRow J T))
      → taken (updated row r) (map (updated row) rows) ≡ taken r rows
  taken-updated row r [] = refl
  taken-updated row r (x ∷ rows) = ground (arith, taken-updated row r rows)

  pub updated-IsUnique :
      (row : OrderRow J T) (rows : List (OrderRow J T))
      → IsUnique rows
      → IsUnique (map (updated row) rows)
  updated-IsUnique row [] unique = tt
  updated-IsUnique row (r ∷ rows) (apart, unique) =
      (taken-updated row r rows ∙ apart, updated-IsUnique row rows unique)

  taken-by_update :
      (new row : OrderRow J T) (rows : List (OrderRow J T))
      → taken new (map (updated row) rows) ≡ taken new rows
  taken-by_update new row [] = refl
  taken-by_update new row (x ∷ rows) = ground (arith, taken-by_update new row rows)
