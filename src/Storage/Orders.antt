-- ===== src/Storage/Orders.antt =====
-- storage/state.rs: reserving, updating and listing orders.
use solana_bot.Prelude.{
  Bool, true, false, not, ◌&&◌, ◌||◌, Option, none, some, List, [], ◌∷◌, ◌++◌, map, Result, ok, err,
  ◌==◌, string_eq, any, is_none, if◌then◌else◌,
}
use solana_bot.Prelude.Chrono.{Chrono, before}
use solana_bot.Domain.Trade.{
  Fill, OrderRecord, OrderState, entry, exit, buy, sell, kind_beq, side_beq, state_beq, pending,
  submitted, unknown,
}
use solana_bot.Domain.Position.{Position}
use solana_bot.Storage.Sql.{
  OrderRow, Tables, StorageError, json, invalid_order, Db, statement, query,
}

-- What `serde_json` makes of the values that the store keeps, and reads of its texts.
pub record Serde (J D T : Type 0) : Type 0 where
  pub order_text : OrderRecord D T → J
  pub order_from : J → Option (OrderRecord D T)
  pub position_text : Position D T → J
  pub position_from : J → Option (Position D T)
  pub fill_text : Fill D T → J
  pub fill_from : J → Option (Fill D T)

-- Reading a list of texts stops at the first that cannot be read.
abbrev pub read_all : {J A : Type 0} → (J → Option A) → List J → Result StorageError (List A)
read_all from [] = ok []
read_all from (j ∷ js) = elim (from j) [
  | none ↦ err json
  | some a ↦ elim (read_all from js) [ err e ↦ err e | ok rest ↦ ok (a ∷ rest) ]
]

-- The checks of `reserve_order`.
unfoldable pub check_order : {D T : Type 0} → OrderRecord D T → Result StorageError (Unit {0})
check_order o =
    if (kind_beq o.kind entry || kind_beq o.kind exit)
      && (is_none o.position_id
          || is_none o.input_mint
          || is_none o.output_mint
          || is_none o.input_amount_atomic)
    then err (
        invalid_order
          "new entry and exit orders require position, route mints, and atomic input amount")
    else if kind_beq o.kind entry && not (side_beq o.side buy)
    then err (invalid_order "entry order must be buy side")
    else if kind_beq o.kind exit && not (side_beq o.side sell)
    then err (invalid_order "exit order must be sell side")
    else ok tt

abbrev pub is_incomplete : OrderState → Bool
is_incomplete s = state_beq s pending || state_beq s submitted || state_beq s unknown

module _ {J T : Type 0} where
  -- The primary key and the unique column of the table.
  abbrev pub clashes : OrderRow J T → OrderRow J T → Bool
  clashes row r = r.id == row.id || r.idempotency_key == row.idempotency_key

  abbrev pub taken : OrderRow J T → List (OrderRow J T) → Bool
  taken row rows = any (clashes row) rows

  -- INSERT OR IGNORE, with the test `changed == 1`.
  abbrev pub insert_or_ignore : OrderRow J T → Tables J T → Bool × Tables J T
  insert_or_ignore row t =
      if taken row t.orders
      then (false, t)
      else (true, record t { orders = t.orders ++ (row ∷ []) })

  -- UPDATE … WHERE id=?1, which leaves the idempotency key alone.
  abbrev pub updated : OrderRow J T → OrderRow J T → OrderRow J T
  updated row r =
      if r.id == row.id
      then record r {
        state = row.state;
        payload = row.payload;
        order_kind = row.order_kind;
        position_id = row.position_id;
        side = row.side;
        updated_at = row.updated_at;
      }
      else r

  abbrev pub update_rows : OrderRow J T → Tables J T → Unit {0} × Tables J T
  update_rows row t = (tt, record t { orders = map (updated row) t.orders })

  abbrev pub incomplete_texts : List (OrderRow J T) → List J
  incomplete_texts [] = []
  incomplete_texts (r ∷ rows) =
      if is_incomplete r.state then r.payload ∷ incomplete_texts rows else incomplete_texts rows

  -- ORDER BY updated_at
  abbrev pub place : ⦃c : Chrono T⦄ → OrderRow J T → List (OrderRow J T) → List (OrderRow J T)
  place row [] = row ∷ []
  place row (r ∷ rows) = elim (before row.updated_at r.updated_at) [
    | true ↦ row ∷ r ∷ rows
    | false ↦ r ∷ place row rows
  ]

  unfoldable pub by_time :
      ⦃c : Chrono T⦄ → List (OrderRow J T) → List (OrderRow J T) → List (OrderRow J T)
  by_time done [] = done
  by_time done (r ∷ rows) = by_time (place r done) rows

module _ {J D T : Type 0} ⦃serde : Serde J D T⦄ where
  abbrev pub row_of : OrderRecord D T → T → OrderRow J T
  row_of o now = record {
    id = o.id;
    idempotency_key = o.idempotency_key;
    state = o.state;
    payload = serde.order_text o;
    order_kind = o.kind;
    position_id = o.position_id;
    side = o.side;
    updated_at = now;
  }

  unfoldable pub reserve_order : OrderRecord D T → T → Db J T StorageError Bool
  reserve_order o now s = elim (check_order o) [
    | err e ↦ (err e, s)
    | ok _ ↦ statement (insert_or_ignore (row_of o now)) s
  ]

  unfoldable pub update_order : OrderRecord D T → T → Db J T StorageError (Unit {0})
  update_order o now = statement (update_rows (row_of o now))

  unfoldable pub incomplete_orders : Db J T StorageError (List (OrderRecord D T))
  incomplete_orders = query (λ t. read_all serde.order_from (incomplete_texts t.orders))

  unfoldable pub orders : ⦃c : Chrono T⦄ → Db J T StorageError (List (OrderRecord D T))
  orders = query (λ t. read_all serde.order_from (map (λ r. r.payload) (by_time [] t.orders)))
