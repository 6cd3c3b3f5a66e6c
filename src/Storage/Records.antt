-- ===== src/Storage/Records.antt =====
-- storage/state.rs: positions, fills, observations, the emergency stop and the other values of the
-- table `kv`.
use solana_bot.Prelude.{
  nat_beq, Bool, false, Option, none, some, List, [], ◌∷◌, ◌++◌, String, Result, ok, err, string_eq,
  if◌then◌else◌,
}
use solana_bot.Prelude.Map.{lookup, insert, remove}
use solana_bot.Prelude.Chrono.{Chrono, before}
use solana_bot.Domain.Trade.{Fill}
use solana_bot.Domain.Position.{Position}
use solana_bot.Domain.Wallet.{WalletStats}
use solana_bot.Storage.Sql.{
  Key, position_key, wallet_key, liquidity_key, invalidated_key, other_key, key_eq, key_tag, Tables,
  StorageError, sql, json, Db, statement, query,
}
use solana_bot.Storage.Orders.{Serde, read_all}

-- The texts of `serde_json` for the values under the other keys. What is read of a text follows the
-- accessors in the code: a missing field of a liquidity or invalidation text is not an error.
pub record Notes (J D T : Type 0) : Type 0 where
  pub wallet_text : WalletStats D T → J
  pub stop_text : String → T → J
  pub stop_from : J → Option (Option String)
  pub reason_text : String → J
  pub reason_from : J → Option String
  pub liquidity_text : D → T → J
  pub liquidity_from : J → Option (Option (D × T))
  pub invalidated_text : T → J
  pub invalidated_from : J → Option (Option Bool)

abbrev pub read_optional :
    {J A : Type 0} → (J → Option A) → Option J → Result StorageError (Option A)
read_optional from none = ok none
read_optional from (some j) = elim (from j) [ none ↦ err json | some a ↦ ok (some a) ]

-- `.flatten()` and `unwrap_or` on what was read.
abbrev pub flat :
    {A : Type 0} → Result StorageError (Option (Option A)) → Result StorageError (Option A)
flat (ok (some a)) = ok a
flat (ok none) = ok none
flat (err e) = err e

abbrev pub or_else : {A : Type 0} → A → Result StorageError (Option A) → Result StorageError A
or_else d (ok (some a)) = ok a
or_else d (ok none) = ok d
or_else d (err e) = err e

abbrev pub reason_or :
    String → Result StorageError (Option (Option String)) → Result StorageError (Option String)
reason_or d (ok (some (some r))) = ok (some r)
reason_or d (ok (some none)) = ok (some d)
reason_or d (ok none) = ok none
reason_or d (err e) = err e

-- SELECT value FROM kv WHERE key LIKE 'position:%'
abbrev pub is_position : Key → Bool
is_position k = nat_beq (key_tag k) 0

abbrev pub position_texts : {J : Type 0} → List (Key × J) → List J
position_texts [] = []
position_texts ((k, j) ∷ kv) = if is_position k then j ∷ position_texts kv else position_texts kv

module _ {J T : Type 0} where
  -- INSERT … ON CONFLICT(key) DO UPDATE
  abbrev pub put_row : Key → J → Tables J T → Unit {0} × Tables J T
  put_row k j t = (tt, record t { kv = insert k j t.kv })

  unfoldable pub put : Key → J → Db J T StorageError (Unit {0})
  put k j = statement (put_row k j)

  unfoldable pub get : {A : Type 0} → (J → Option A) → Key → Db J T StorageError (Option A)
  get from k = query (λ t. read_optional from (lookup k t.kv))

  abbrev pub put_fill : String → J → Tables J T → Unit {0} × Tables J T
  put_fill order_id j t = (tt, record t { fills = insert order_id j t.fills })

  abbrev pub delete_row : Key → Tables J T → Unit {0} × Tables J T
  delete_row k t = (tt, record t { kv = remove k t.kv })

  unfoldable pub record_observation :
      ⦃c : Chrono T⦄ → String → T → T → J → Db J T StorageError (Unit {0})
  record_observation kind observed_at received_at j s =
      if before received_at observed_at
      then (err sql, s)
      else statement
          (λ t. (
            tt,
            record t {
              observations =
                  t.observations
                  ++ (record {
                    kind = kind;
                    observed_at = observed_at;
                    received_at = received_at;
                    payload = j;
                  }
                      ∷ []);
            },
          ))
          s

module _ {J D T : Type 0} ⦃serde : Serde J D T⦄ where
  unfoldable pub save_position : Position D T → Db J T StorageError (Unit {0})
  save_position p = statement (put_row (position_key p.mint) (serde.position_text p))

  -- `positions`, and `positions_from_conn` inside a transaction.
  unfoldable pub positions : Db J T StorageError (List (Position D T))
  positions = query (λ t. read_all serde.position_from (position_texts t.kv))

  unfoldable pub save_fill : Fill D T → Db J T StorageError (Unit {0})
  save_fill fill = statement (put_fill fill.order_id (serde.fill_text fill))

  unfoldable pub fill_for_order : String → Db J T StorageError (Option (Fill D T))
  fill_for_order order_id = query (λ t. read_optional serde.fill_from (lookup order_id t.fills))

module _ {J D T : Type 0} ⦃notes : Notes J D T⦄ where
  unfoldable pub save_wallet : WalletStats D T → Db J T StorageError (Unit {0})
  save_wallet w = statement (put_row (wallet_key w.wallet) (notes.wallet_text w))

  unfoldable pub set_last_liquidity : String → D → T → Db J T StorageError (Unit {0})
  set_last_liquidity mint liquidity_usd now =
      statement (put_row (liquidity_key mint) (notes.liquidity_text liquidity_usd now))

  unfoldable pub last_liquidity : String → Db J T StorageError (Option (D × T))
  last_liquidity mint =
      query (λ t. flat (read_optional notes.liquidity_from (lookup (liquidity_key mint) t.kv)))

module _ {J T : Type 0} (D : Type 0) ⦃notes : Notes J D T⦄ where
  unfoldable pub set_emergency_stop : String → T → Db J T StorageError (Unit {0})
  set_emergency_stop reason now =
      statement (put_row (other_key "risk:emergency_stop") (notes.stop_text reason now))

  unfoldable pub clear_emergency_stop : Db J T StorageError (Unit {0})
  clear_emergency_stop = statement (delete_row (other_key "risk:emergency_stop"))

  unfoldable pub emergency_stop : Db J T StorageError (Option String)
  emergency_stop = query (λ t.
      reason_or "unspecified"
        (read_optional notes.stop_from (lookup (other_key "risk:emergency_stop") t.kv)))

  unfoldable pub latch_kill_switch : String → Db J T StorageError (Unit {0})
  latch_kill_switch reason =
      statement (put_row (other_key "risk:kill_switch") (notes.reason_text reason))

  unfoldable pub kill_switch_reason : Db J T StorageError (Option String)
  kill_switch_reason =
      query (λ t. read_optional notes.reason_from (lookup (other_key "risk:kill_switch") t.kv))

  unfoldable pub set_signal_invalidated : String → T → Db J T StorageError (Unit {0})
  set_signal_invalidated signal_id now =
      statement (put_row (invalidated_key signal_id) (notes.invalidated_text now))

  unfoldable pub is_signal_invalidated : String → Db J T StorageError Bool
  is_signal_invalidated signal_id = query (λ t.
      or_else false
        (flat (read_optional notes.invalidated_from (lookup (invalidated_key signal_id) t.kv))))
