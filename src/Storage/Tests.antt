-- ===== src/Storage/Tests.antt =====
-- Runs of storage/state.rs, and the theorems at those inputs.
use solana_bot.Prelude.{
  nat_beq, if◌then◌else◌, ℕ, ◌≡◌, refl, Bool, true, false, Option, none, some, List, [], ◌∷◌, arith,
  ok, err, is_ok, ◌≢◌, String,
}
use solana_bot.Domain.Trade.{Fill, OrderRecord, OrderState, pending, submitted, entry, buy}
use solana_bot.Domain.Position.{Position}
use solana_bot.Storage.Sql.{
  Tables, Store, StorageError, io, Db, statement, run_in_transaction, begin, commit, rollback,
  durable, key_eq,
}
use solana_bot.Storage.Orders.{Serde, reserve_order, check_order}
use solana_bot.Storage.Atomic.{Ends, begun, run_in_transaction-Ends, failed_commit_blocks}
use solana_bot.Storage.Unique.{IsUnique}
use solana_bot.Storage.Throughout.{Call, reserve, update, start, finish_err, perform_all}
use solana_bot.Storage.Keys.{orders-IsUnique, reserve_order_once}

-- Texts that keep their values.
data Doc : Type 0 where
  order_doc : OrderRecord ℕ ℕ → Doc
  position_doc : Position ℕ ℕ → Doc
  fill_doc : Fill ℕ ℕ → Doc

abbrev order_of : Doc → Option (OrderRecord ℕ ℕ)
order_of (order_doc o) = some o
order_of _ = none

abbrev position_of : Doc → Option (Position ℕ ℕ)
position_of (position_doc p) = some p
position_of _ = none

abbrev fill_of : Doc → Option (Fill ℕ ℕ)
fill_of (fill_doc f) = some f
fill_of _ = none

instance abbrev docs : Serde Doc ℕ ℕ
docs = record {
  order_text = order_doc;
  order_from = order_of;
  position_text = position_doc;
  position_from = position_of;
  fill_text = fill_doc;
  fill_from = fill_of;
}

abbrev order : String → String → OrderState → OrderRecord ℕ ℕ
order id key s = record {
  id = id;
  signal_id = "s";
  mint = "m";
  kind = entry;
  position_id = some "p";
  side = buy;
  input_mint = some "b";
  output_mint = some "m";
  input_amount_atomic = some 1;
  input_value_usd = some 1;
  output_mint_decimals = some 6;
  state = s;
  idempotency_key = key;
  created_at = 0;
  signature = none;
  error = none;
}

abbrev no_tables : Tables Doc ℕ
no_tables = record { kv = []; orders = []; fills = []; observations = [] }

-- Statement number 2 fails in `faulty`.
abbrev healthy : Store Doc ℕ
healthy = record {
  tables = no_tables;
  saved = none;
  fault = λ _. none;
  rolled_back = λ _. false;
  calls = 0;
}

abbrev fault_at_two : ℕ → Option StorageError
fault_at_two n = if nat_beq n 2 then some io else none

abbrev faulty : Store Doc ℕ
faulty = record {
  tables = no_tables;
  saved = none;
  fault = fault_at_two;
  rolled_back = λ _. false;
  calls = 0;
}

abbrev first : OrderRecord ℕ ℕ
first = order "o1" "k1" pending

abbrev second : OrderRecord ℕ ℕ
second = order "o2" "k1" pending

abbrev body : Db Doc ℕ StorageError Bool
body = reserve_order first 5

reserve_first : (reserve_order first 5 healthy).0 ≡ ok true
unfolding reserve_order check_order statement
reserve_first = refl

-- The statement after BEGIN IMMEDIATE is the reservation, and COMMIT is number 2.
rolled_back_on_commit : (run_in_transaction (λ e. e) body faulty).0 ≡ err io
unfolding run_in_transaction begin commit rollback reserve_order check_order statement
rolled_back_on_commit = refl

body-saved : (t : Store Doc ℕ) → (body t).1.saved ≡ t.saved
unfolding reserve_order check_order statement
body-saved t = ground arith

run_in_transaction-Ends_example :
    Ends healthy (body (begun healthy)) (run_in_transaction (λ e. e) body healthy)
run_in_transaction-Ends_example = run_in_transaction-Ends (λ e. e) body healthy refl body-saved

body_succeeds : (body (begun faulty)).0 ≡ ok true
unfolding reserve_order check_order statement
body_succeeds = refl

commit_fails : is_ok (run_in_transaction (λ e. e) body faulty).0 ≡ false
unfolding run_in_transaction begin commit rollback reserve_order check_order statement
commit_fails = refl

failed_commit_blocks_example :
    is_ok (run_in_transaction (λ e. e) body (run_in_transaction (λ e. e) body faulty).1).0 ≡ false
unfolding reserve_order check_order statement
failed_commit_blocks_example =
    failed_commit_blocks (λ e. e) body body faulty true refl refl body_succeeds
      (body-saved (begun faulty)) refl commit_fails

abbrev some_calls : List (Call Doc ℕ ℕ)
some_calls =
    reserve first 5
    ∷ start
    ∷ reserve second 6
    ∷ update (order "o1" "k9" submitted) 7
    ∷ finish_err
    ∷ []

orders-IsUnique_example :
    IsUnique (perform_all some_calls healthy).tables.orders
    × IsUnique (durable (perform_all some_calls healthy)).orders
orders-IsUnique_example = orders-IsUnique some_calls healthy tt refl

reserve_order_once_example :
    (reserve_order second 8 (perform_all some_calls (reserve_order first 5 healthy).1)).0 ≢ ok true
reserve_order_once_example =
    reserve_order_once first second 5 8 some_calls healthy refl reserve_first refl
