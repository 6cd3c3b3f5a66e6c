-- ===== src/Storage/Sql.antt =====
-- storage/state.rs: the tables, the statements on them, and `run_in_transaction`. `J` stands for the
-- texts of `serde_json`. The times of an update are kept where the code reads them.
use solana_bot.Prelude.{
  ℕ, ◌+◌, Bool, ◌&&◌, ◌≡◌, ◌↔◌, true, Option, none, some, List, String, Result, ok, err, Eq, ◌==◌,
  string_eq, if◌then◌else◌, nat_beq, unwrap_or, arith,
}
use solana_bot.Domain.Trade.{OrderState, OrderKind, OrderSide}

-- The keys of the table `kv`, by their prefixes; `other_key` stands for those without one.
pub data Key : Type 0 where
  position_key wallet_key liquidity_key invalidated_key other_key : String → Key

abbrev pub key_tag : Key → ℕ
key_tag (position_key _) = 0
key_tag (wallet_key _) = 1
key_tag (liquidity_key _) = 2
key_tag (invalidated_key _) = 3
key_tag (other_key _) = 4

abbrev pub key_name : Key → String
key_name (position_key s) = s
key_name (wallet_key s) = s
key_name (liquidity_key s) = s
key_name (invalidated_key s) = s
key_name (other_key s) = s

abbrev pub key_beq : Key → Key → Bool
key_beq a b = nat_beq (key_tag a) (key_tag b) && key_name a == key_name b

pub key_beq_iff : (a b : Key) → (key_beq a b ≡ true) ↔ (a ≡ b)
key_beq_iff a b = ground (arith, string_eq.beq_iff (key_name a) (key_name b))

instance abbrev pub key_eq : Eq Key
key_eq = record { beq = key_beq; beq_iff = key_beq_iff }

pub record OrderRow (J T : Type 0) : Type 0 where
  pub id : String
  pub idempotency_key : String
  pub state : OrderState
  pub payload : J
  pub order_kind : OrderKind
  pub position_id : Option String
  pub side : OrderSide
  pub updated_at : T

pub record ObservationRow (J T : Type 0) : Type 0 where
  pub kind : String
  pub observed_at : T
  pub received_at : T
  pub payload : J

pub record Tables (J T : Type 0) : Type 0 where
  pub kv : List (Key × J)
  pub orders : List (OrderRow J T)
  pub fills : List (String × J)
  pub observations : List (ObservationRow J T)

pub data StorageError : Type 0 where
  sql json io poisoned : StorageError
  invalid_order : String → StorageError

-- `saved` are the tables to which a rollback returns, where a transaction is open. Statement number
-- `n` of the connection fails with the error `fault n`, where there is one, and then changes
-- nothing; a mutex that is poisoned counts as such an error. A COMMIT that fails leaves the
-- transaction open, as SQLite documents for a busy database, unless SQLite rolls it back by itself,
-- as it may for a full disk, an input or output error or an interrupt: `rolled_back n` says which.
-- Such a rollback at another statement is not modelled.
pub record Store (J T : Type 0) : Type 0 where
  pub tables : Tables J T
  pub saved : Option (Tables J T)
  pub fault : ℕ → Option StorageError
  pub rolled_back : ℕ → Bool
  pub calls : ℕ

abbrev pub Db : Type 0 → Type 0 → Type 0 → Type 0 → Type 0
Db J T E A = Store J T → Result E A × Store J T

infixl 5 ◌>>=◌ ◌>>◌
module _ {J T E A : Type 0} where
  abbrev pub and_then :
      {B : Type 0} → Result E A × Store J T → (A → Db J T E B) → Result E B × Store J T
  and_then (ok a, s) f = f a s
  and_then (err e, s) f = (err e, s)

  abbrev pub ◌>>=◌ : {B : Type 0} → Db J T E A → (A → Db J T E B) → Db J T E B
  ◌>>=◌ m f s = and_then (m s) f

  abbrev pub pure : A → Db J T E A
  pure a s = (ok a, s)

  abbrev pub fail : E → Db J T E A
  fail e s = (err e, s)

  -- A result that no statement is behind, as an action.
  abbrev pub lift : Result E A → Db J T E A
  lift r s = (r, s)

  -- `?` on an error that is carried into another type.
  abbrev pub caught : {F : Type 0} → (E → F) → Result E A × Store J T → Result F A × Store J T
  caught f (ok a, s) = (ok a, s)
  caught f (err e, s) = (err (f e), s)

abbrev pub ◌>>◌ : {J T E B : Type 0} → Db J T E (Unit {0}) → Db J T E B → Db J T E B
m >> k = m >>= λ _. k

module _ {J T : Type 0} where
  abbrev pub counted : Store J T → Store J T
  counted s = record s { calls = s.calls + 1 }

  -- After an automatic rollback.
  abbrev pub abandoned : Store J T → Store J T
  abandoned s = record s { tables = unwrap_or s.saved s.tables; saved = none; calls = s.calls + 1 }

  -- One statement that reads and writes.
  unfoldable pub statement : {A : Type 0} → (Tables J T → A × Tables J T) → Db J T StorageError A
  statement f s = elim (s.fault s.calls) [
    | some e ↦ (err e, counted s)
    | none ↦ (ok (f s.tables).0, record s { tables = (f s.tables).1; calls = s.calls + 1 })
  ]

  -- One statement that only reads; its rows may fail to be decoded.
  unfoldable pub query : {A : Type 0} → (Tables J T → Result StorageError A) → Db J T StorageError A
  query f s = elim (s.fault s.calls) [
    | some e ↦ (err e, counted s)
    | none ↦ (f s.tables, counted s)
  ]

  -- BEGIN IMMEDIATE, which an open transaction refuses.
  unfoldable pub begin : Db J T StorageError (Unit {0})
  begin s = elim (s.fault s.calls) [
    | some e ↦ (err e, counted s)
    | none ↦ elim (s.saved) [
      | some _ ↦ (err sql, counted s)
      | none ↦ (ok tt, record s { saved = some s.tables; calls = s.calls + 1 })
    ]
  ]

  -- What a restart of the process finds.
  abbrev pub durable : Store J T → Tables J T
  durable s = unwrap_or s.saved s.tables

  -- COMMIT; where it fails, the transaction stays open or is rolled back by the database.
  unfoldable pub commit : Db J T StorageError (Unit {0})
  commit s = elim (s.fault s.calls) [
    | some e ↦ (err e, if s.rolled_back s.calls then abandoned s else counted s)
    | none ↦ elim (s.saved) [
      | none ↦ (err sql, counted s)
      | some _ ↦ (ok tt, record s { saved = none; calls = s.calls + 1 })
    ]
  ]

  unfoldable pub rollback : Db J T StorageError (Unit {0})
  rollback s = elim (s.fault s.calls) [
    | some e ↦ (err e, counted s)
    | none ↦ elim (s.saved) [
      | none ↦ (err sql, counted s)
      | some before ↦ (ok tt, record s { tables = before; saved = none; calls = s.calls + 1 })
    ]
  ]

module _ {J T E R : Type 0} where
  abbrev pub finish : (StorageError → E) → Result E R × Store J T → Result E R × Store J T
  finish from (ok r, s) = and_then (caught from (commit s)) (λ _. pure r)
  finish from (err e, s) = (err e, (rollback s).1)

  -- `from` carries an error of the database into that of the closure.
  unfoldable pub run_in_transaction : (StorageError → E) → Db J T E R → Db J T E R
  run_in_transaction from body s =
      and_then (caught from (begin s)) (λ _ begun. finish from (body begun))
