-- ===== src/Chain/Lamports.antt =====
-- execution/reconcile.rs: the lamports of the owner before and after a transaction.
use solana_bot.Prelude.{
  ℕ, ◌≡◌, Bool, true, Option, some, List, [], ◌∷◌, String, string_eq, arith, get_elem?, inl, inr,
  Bool-cases, Option-cases,
}
use solana_bot.Prelude.Int.{ℤ, pos, negsuc, ◌+ℤ◌, ◌-ℤ◌}
use solana_bot.Chain.Json.{Json, field, as_array, as_str}
use solana_bot.Chain.Swap.{is_key, position_of, native_at, native_delta_for_owner}

abbrev account_keys : Json → Option (List Json)
account_keys tx = as_array (field (field (field tx "transaction") "message") "accountKeys")

-- An account key is the owner's, and its lamports are these before and after the transaction.
pub record IsNative (tx : Json) (owner : String) (before after : ℤ) : Type 0 where
  pub keys : List Json
  pub index : ℕ
  pub key : Json
  pub listed : as_array (field (field (field tx "transaction") "message") "accountKeys") ≡ some keys
  pub at : get_elem? keys index ≡ some key
  pub named : as_str (field key "pubkey") ≡ some owner
  pub pre : native_at (field tx "meta") "preBalances" index ≡ some before
  pub post : native_at (field tx "meta") "postBalances" index ≡ some after

position_of-some :
    (p : Json → Bool) (xs : List Json) (i : ℕ)
    → position_of p xs ≡ some i
    → (x : Json) × (get_elem? xs i ≡ some x) × (p x ≡ true)
position_of-some p [] i found = ground arith
position_of-some p (x ∷ xs) i found = elim (Bool-cases (p x)) [
  | inl yes_here ↦ (x, ground arith, yes_here)
  | inr no_here ↦ elim (Option-cases (position_of p xs)) [
    | inl missing ↦ ground arith
    | inr (j, later) ↦ let (y, at, good) = position_of-some p xs j later in (y, ground arith, good)
  ]
]

is_key-owner :
    (owner : String) (key : Json)
    → is_key owner key ≡ true
    → as_str (field key "pubkey") ≡ some owner
is_key-owner owner key h = elim (Option-cases (as_str (field key "pubkey"))) [
  | inl missing ↦ ground arith
  | inr (s, q) ↦ ground (arith, string_eq.beq_iff s owner)
]

-- A change of lamports that is read from a transaction is the one of an account key of the owner.
pub native_delta_for_owner-IsNative :
    (tx : Json) (owner : String) (change : ℤ)
    → native_delta_for_owner tx owner ≡ some change
    → (before : ℤ) × (after : ℤ) × IsNative tx owner before after × (change ≡ after -ℤ before)
unfolding native_delta_for_owner
native_delta_for_owner-IsNative tx owner change done = elim (Option-cases (account_keys tx)) [
  | inl missing ↦ ground arith
  | inr (keys, listed) ↦ elim (Option-cases (position_of (is_key owner) keys)) [
    | inl missing ↦ ground arith
    | inr (index, found) ↦
        let (key, at, same) = position_of-some (is_key owner) keys index found in
        elim (Option-cases (native_at (field tx "meta") "preBalances" index)) [
          | inl missing ↦ ground arith
          | inr (before, pre) ↦
              elim (Option-cases (native_at (field tx "meta") "postBalances" index)) [
                | inl missing ↦ ground arith
                | inr (after, post) ↦ (
                  before,
                  after,
                  record {
                    keys = keys;
                    index = index;
                    key = key;
                    listed = listed;
                    at = at;
                    named = is_key-owner owner key same;
                    pre = pre;
                    post = post;
                  },
                  ground arith,
                )
              ]
        ]
  ]
]

pub gained : (before after : ℤ) (d : ℕ) → pos d ≡ after -ℤ before → after ≡ before +ℤ pos d
unfolding ◌+ℤ◌ ◌-ℤ◌
gained (pos a) (pos b) d q = ground arith
gained (pos a) (negsuc b) d q = ground arith
gained (negsuc a) (pos b) d q = ground arith
gained (negsuc a) (negsuc b) d q = ground arith
