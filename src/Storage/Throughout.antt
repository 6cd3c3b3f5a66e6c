-- ===== src/Storage/Throughout.antt =====
-- storage/state.rs: what every call that writes keeps, with transactions that commit or are rolled
-- back.
use solana_bot.Prelude.{
  ◌+◌, ◌⊎◌, ◌≡◌, none, some, Option, List, [], ◌∷◌, arith, ok, err, string_eq, inl, inr,
  Option-cases, Bool-cases, Result-cases, sym, String,
}
use mathlib.Core.Path.{subst}
use solana_bot.Domain.Trade.{OrderRecord}
use solana_bot.Storage.Sql.{
  OrderRow, Tables, Store, StorageError, Key, key_eq, statement, counted, abandoned, begin, commit,
  rollback, durable,
}
use solana_bot.Storage.Orders.{
  Serde, check_order, insert_or_ignore, update_rows, row_of, reserve_order, update_order,
}
use solana_bot.Storage.Records.{put, put_row, put_fill, delete_row}
use solana_bot.Storage.Atomic.{begun}

module _ {J T : Type 0} where
  abbrev pub KeptBy : (Tables J T → Type 0) → Option (Tables J T) → Type 0
  KeptBy P none = Unit
  KeptBy P (some t) = P t

  -- A predicate of the tables holds of the present ones, and of those of an open transaction.
  abbrev pub Throughout : (Tables J T → Type 0) → Store J T → Type 0
  Throughout P s = P s.tables × KeptBy P s.saved

-- The calls of the store that write, with the statements of transactions among them.
pub data Call (J D T : Type 0) : Type 0 where
  reserve update : OrderRecord D T → T → Call J D T
  write : Key → J → Call J D T
  delete : Key → Call J D T
  fill_row : String → J → Call J D T
  start finish_ok finish_err : Call J D T

module _ {J D T : Type 0} ⦃serde : Serde J D T⦄ where
  unfoldable pub perform : Call J D T → Store J T → Store J T
  perform (reserve o now) s = (reserve_order o now s).1
  perform (update o now) s = (update_order o now s).1
  perform (write k j) s = (put k j s).1
  perform (delete k) s = (statement (delete_row k) s).1
  perform (fill_row id j) s = (statement (put_fill id j) s).1
  perform start s = (begin s).1
  perform finish_ok s = (commit s).1
  perform finish_err s = (rollback s).1

  unfoldable pub perform_all : List (Call J D T) → Store J T → Store J T
  perform_all [] s = s
  perform_all (call ∷ rest) s = perform_all rest (perform call s)

module _ {J T : Type 0} where
  statement-cases :
      {A : Type 0} (f : Tables J T → A × Tables J T) (s : Store J T)
      → ((statement f s).1 ≡ counted s)
        ⊎ ((statement f s).1 ≡ record s { tables = (f s.tables).1; calls = s.calls + 1 })
  unfolding statement
  statement-cases f s = elim (Option-cases (s.fault s.calls)) [
    | inl fine ↦ inr (ground arith)
    | inr (e, failed) ↦ inl (ground arith)
  ]

  begin-cases : (s : Store J T) → ((begin s).1 ≡ counted s) ⊎ ((begin s).1 ≡ begun s)
  unfolding begin
  begin-cases s = elim (Option-cases (s.fault s.calls)) [
    | inr (e, failed) ↦ inl (ground arith)
    | inl fine ↦ elim (Option-cases s.saved) [
      | inl closed ↦ inr (ground arith)
      | inr (t, opened) ↦ inl (ground arith)
    ]
  ]

  commit-cases :
      (s : Store J T)
      → ((commit s).1 ≡ counted s)
        ⊎ ((commit s).1 ≡ record s { saved = none; calls = s.calls + 1 })
        ⊎ ((commit s).1 ≡ abandoned s)
  unfolding commit
  commit-cases s = elim (Option-cases (s.fault s.calls)) [
    | inr (e, failed) ↦ elim (Bool-cases (s.rolled_back s.calls)) [
      | inl undone ↦ inr (inr (ground arith))
      | inr kept ↦ inl (ground arith)
    ]
    | inl fine ↦ elim (Option-cases s.saved) [
      | inl closed ↦ inl (ground arith)
      | inr (t, opened) ↦ inr (inl (ground arith))
    ]
  ]

  rollback-cases :
      (s : Store J T)
      → ((rollback s).1 ≡ counted s)
        ⊎ ((t : Tables J T) × (s.saved ≡ some t)
            × ((rollback s).1 ≡ record s { tables = t; saved = none; calls = s.calls + 1 }))
  unfolding rollback
  rollback-cases s = elim (Option-cases (s.fault s.calls)) [
    | inr (e, failed) ↦ inl (ground arith)
    | inl fine ↦ elim (Option-cases s.saved) [
      | inl closed ↦ inl (ground arith)
      | inr (t, opened) ↦ inr (t, opened, ground arith)
    ]
  ]

module _ {J T : Type 0} (P : Tables J T → Type 0) where
  pub durable-kept : (s : Store J T) → P s.tables → KeptBy P s.saved → P (durable s)
  durable-kept s now before = elim (Option-cases s.saved) [
    | inl closed ↦ rw closed now
    | inr (t, opened) ↦ rw opened (subst (KeptBy P) opened before)
  ]

module _ {J T : Type 0} (P : Tables J T → Type 0) where
  statement-Throughout :
      {A : Type 0} (f : Tables J T → A × Tables J T) (s : Store J T)
      → (P s.tables → P (f s.tables).1)
      → Throughout P s
      → Throughout P (statement f s).1
  statement-Throughout f s step (now, before) = elim (statement-cases f s) [
    | inl same ↦ subst (Throughout P) (sym same) (now, before)
    | inr done ↦ subst (Throughout P) (sym done) (step now, before)
  ]

  begin-Throughout : (s : Store J T) → Throughout P s → Throughout P (begin s).1
  begin-Throughout s (now, before) = elim (begin-cases s) [
    | inl same ↦ subst (Throughout P) (sym same) (now, before)
    | inr done ↦ subst (Throughout P) (sym done) (now, now)
  ]

  commit-Throughout : (s : Store J T) → Throughout P s → Throughout P (commit s).1
  commit-Throughout s (now, before) = elim (commit-cases s) [
    | inl same ↦ subst (Throughout P) (sym same) (now, before)
    | inr (inl done) ↦ subst (Throughout P) (sym done) (now, tt)
    | inr (inr undone) ↦ subst (Throughout P) (sym undone) (durable-kept P s now before, tt)
  ]

  rollback-Throughout : (s : Store J T) → Throughout P s → Throughout P (rollback s).1
  rollback-Throughout s (now, before) = elim (rollback-cases s) [
    | inl same ↦ subst (Throughout P) (sym same) (now, before)
    | inr (t, opened, done) ↦ subst (Throughout P) (sym done) (subst (KeptBy P) opened before, tt)
  ]

module _ {J D T : Type 0} ⦃serde : Serde J D T⦄ where
  pub reserve_order-ok :
      (o : OrderRecord D T) (now : T) (s : Store J T)
      → check_order o ≡ ok tt
      → reserve_order o now s ≡ statement (insert_or_ignore (row_of o now)) s
  unfolding reserve_order
  reserve_order-ok o now s good = ground arith

  pub reserve_order-err :
      (o : OrderRecord D T) (now : T) (s : Store J T) (x : StorageError)
      → check_order o ≡ err x
      → reserve_order o now s ≡ (err x, s)
  unfolding reserve_order
  reserve_order-err o now s x bad = ground arith

module _ {J D T : Type 0} ⦃serde : Serde J D T⦄ (P : List (OrderRow J T) → Type 0) where
  -- A predicate of the orders that reserving and updating keep holds throughout.
  perform-Throughout :
      ((o : OrderRecord D T) (now : T) (t : Tables J T)
        → P t.orders
        → P (insert_or_ignore (row_of o now) t).1.orders
          × P (update_rows (row_of o now) t).1.orders)
      → (call : Call J D T) (s : Store J T) → Throughout (λ t. P t.orders) s
      → Throughout (λ t. P t.orders) (perform call s)
  unfolding perform update_order put
  perform-Throughout keep (reserve o now) s held = elim (Result-cases (check_order o)) [
    | inl (done, good) ↦
        subst (λ r. Throughout (λ t. P t.orders) r.1) (sym (reserve_order-ok o now s good))
          (statement-Throughout (λ t. P t.orders) (insert_or_ignore (row_of o now)) s
            (λ h. (keep o now s.tables h).0) held)
    | inr (x, bad) ↦
        subst (λ r. Throughout (λ t. P t.orders) r.1) (sym (reserve_order-err o now s x bad)) held
  ]
  perform-Throughout keep (update o now) s held =
      statement-Throughout (λ t. P t.orders) (update_rows (row_of o now)) s
        (λ h. (keep o now s.tables h).1) held
  perform-Throughout keep (write k j) s held =
      statement-Throughout (λ t. P t.orders) (put_row k j) s (λ h. h) held
  perform-Throughout keep (delete k) s held =
      statement-Throughout (λ t. P t.orders) (delete_row k) s (λ h. h) held
  perform-Throughout keep (fill_row id j) s held =
      statement-Throughout (λ t. P t.orders) (put_fill id j) s (λ h. h) held
  perform-Throughout keep start s held = begin-Throughout (λ t. P t.orders) s held
  perform-Throughout keep finish_ok s held = commit-Throughout (λ t. P t.orders) s held
  perform-Throughout keep finish_err s held = rollback-Throughout (λ t. P t.orders) s held

  pub perform_all-Throughout :
      ((o : OrderRecord D T) (now : T) (t : Tables J T)
        → P t.orders
        → P (insert_or_ignore (row_of o now) t).1.orders
          × P (update_rows (row_of o now) t).1.orders)
      → (calls : List (Call J D T)) (s : Store J T) → Throughout (λ t. P t.orders) s
      → Throughout (λ t. P t.orders) (perform_all calls s)
  unfolding perform_all
  perform_all-Throughout keep [] s held = held
  perform_all-Throughout keep (call ∷ rest) s held =
      perform_all-Throughout keep rest (perform call s) (perform-Throughout keep call s held)
