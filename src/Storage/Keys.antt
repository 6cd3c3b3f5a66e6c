-- ===== src/Storage/Keys.antt =====
-- storage/state.rs: over any calls of the store, with transactions that commit or are rolled back,
-- an idempotency key is used for one order.
use solana_bot.Prelude.{
  ◌+◌, ◌≡◌, refl, Bool, true, false, ◌||◌, none, List, [], ◌∷◌, ◌++◌, map, arith, ok, string_eq,
  ◌==◌, any, inl, inr, Option-cases, Result-cases, Bool-cases, sym, ap, ◌∙◌, ◌≢◌, String,
}
use mathlib.Core.Path.{subst}
use solana_bot.Domain.Trade.{OrderRecord}
use solana_bot.Storage.Sql.{OrderRow, Tables, Store, key_eq, statement, durable}
use solana_bot.Storage.Orders.{
  Serde, check_order, taken, insert_or_ignore, updated, update_rows, row_of, reserve_order,
}
use solana_bot.Storage.Unique.{IsUnique, append-IsUnique, updated-IsUnique}
use solana_bot.Storage.Throughout.{
  KeptBy, Throughout, Call, perform_all, perform_all-Throughout, durable-kept,
}

module _ {J T : Type 0} where
  -- Some row has the idempotency key.
  abbrev pub holds : String → List (OrderRow J T) → Bool
  holds key rows = any (λ r. r.idempotency_key == key) rows

  holds-taken :
      (row : OrderRow J T) (rows : List (OrderRow J T))
      → holds row.idempotency_key rows ≡ true
      → taken row rows ≡ true
  holds-taken row [] held = ground arith
  holds-taken row (r ∷ rows) held = ground (arith, holds-taken row rows)

  holds-append :
      (key : String) (rows : List (OrderRow J T)) (new : OrderRow J T)
      → holds key (rows ++ (new ∷ [])) ≡ (holds key rows || new.idempotency_key == key)
  holds-append key [] new = ground arith
  holds-append key (r ∷ rows) new = ground (arith, holds-append key rows new)

  holds-updated :
      (key : String) (row : OrderRow J T) (rows : List (OrderRow J T))
      → holds key (map (updated row) rows) ≡ holds key rows
  holds-updated key row [] = refl
  holds-updated key row (r ∷ rows) = ground (arith, holds-updated key row rows)

module _ {J D T : Type 0} ⦃serde : Serde J D T⦄ where
  keep-IsUnique :
      (o : OrderRecord D T) (now : T) (t : Tables J T)
      → IsUnique t.orders
      → IsUnique (insert_or_ignore (row_of o now) t).1.orders
        × IsUnique (update_rows (row_of o now) t).1.orders
  keep-IsUnique o now t unique = (
    elim (Bool-cases (taken (row_of o now) t.orders)) [
      | inl clash ↦ rw clash unique
      | inr fresh ↦ rw fresh (append-IsUnique t.orders (row_of o now) unique fresh)
    ],
    updated-IsUnique (row_of o now) t.orders unique,
  )

  keep-holds :
      (key : String) (o : OrderRecord D T) (now : T) (t : Tables J T)
      → holds key t.orders ≡ true
      → (holds key (insert_or_ignore (row_of o now) t).1.orders ≡ true)
        × (holds key (update_rows (row_of o now) t).1.orders ≡ true)
  keep-holds key o now t held = (
    elim (Bool-cases (taken (row_of o now) t.orders)) [
      | inl clash ↦ rw clash held
      | inr fresh ↦ rw fresh (ground (arith, holds-append key t.orders (row_of o now)))
    ],
    holds-updated key (row_of o now) t.orders ∙ held,
  )

  -- Whatever is written, and whatever transactions are opened, committed or rolled back, no two
  -- stored orders ever share an identifier or an idempotency key, also after a restart.
  pub orders-IsUnique :
      (calls : List (Call J D T)) (s : Store J T)
      → IsUnique s.tables.orders
      → s.saved ≡ none
      → IsUnique (perform_all calls s).tables.orders
        × IsUnique (durable (perform_all calls s)).orders
  orders-IsUnique calls s unique closed =
      let start : Throughout (λ t. IsUnique t.orders) s = (unique, rw closed tt) in
      let (now, before) = perform_all-Throughout IsUnique keep-IsUnique calls s start in
      (now, durable-kept (λ t. IsUnique t.orders) (perform_all calls s) now before)

  -- What a reservation that succeeds has found and written.
  pub reserve_order-true :
      (o : OrderRecord D T) (now : T) (s : Store J T)
      → (reserve_order o now s).0 ≡ ok true
      → (taken (row_of o now) s.tables.orders ≡ false)
        × ((reserve_order o now s).1 ≡ record s {
          tables = record s.tables { orders = s.tables.orders ++ (row_of o now ∷ []) };
          calls = s.calls + 1;
        })
  unfolding reserve_order statement
  reserve_order-true o now s good = elim (Result-cases (check_order o)) [
    | inr (x, bad) ↦ ground arith
    | inl (done, fine) ↦ elim (Option-cases (s.fault s.calls)) [
      | inr (e, failed) ↦ ground arith
      | inl works ↦ elim (Bool-cases (taken (row_of o now) s.tables.orders)) [
        | inl clash ↦ ground arith
        | inr fresh ↦ (fresh, ground arith)
      ]
    ]
  ]

  -- An idempotency key is reserved once: after a reservation that succeeded outside a transaction,
  -- and after any further calls and transactions, no reservation with the same key succeeds.
  pub reserve_order_once :
      (o again : OrderRecord D T) (now later : T) (calls : List (Call J D T)) (s : Store J T)
      → s.saved ≡ none
      → (reserve_order o now s).0 ≡ ok true
      → again.idempotency_key ≡ o.idempotency_key
      → (reserve_order again later (perform_all calls (reserve_order o now s).1)).0 ≢ ok true
  reserve_order_once o again now later calls s closed good same =
      let key = o.idempotency_key in
      let (_, written) = reserve_order-true o now s good in
      let here : holds key (s.tables.orders ++ (row_of o now ∷ [])) ≡ true = ground (
        arith,
        holds-append key s.tables.orders (row_of o now),
        (string_eq.beq_iff key key).1 refl,
      ) in
      let start : Throughout (λ t. holds key t.orders ≡ true) (reserve_order o now s).1 =
        subst (Throughout (λ t. holds key t.orders ≡ true)) (sym written)
          (here, subst (KeptBy (λ t. holds key t.orders ≡ true)) (sym closed) tt) in
      let after = perform_all calls (reserve_order o now s).1 in
      let (held, _) =
        perform_all-Throughout (λ rows. holds key rows ≡ true) (keep-holds key) calls
          (reserve_order o now s).1 start in
      λ twice.
        let (fresh, _) = reserve_order-true again later after twice in
        let clash =
          holds-taken (row_of again later) after.tables.orders
            (ap (λ k. holds k after.tables.orders) same ∙ held) in
        cc
