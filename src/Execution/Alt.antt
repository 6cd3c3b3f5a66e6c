-- ===== src/Execution/Alt.antt =====
-- execution/policy.rs: address lookup tables, their decoding and their cache.
use solana_bot.Prelude.{
  ℕ, zero, suc, ◌*◌, ◌/◌, ◌%◌, not, Option, none, some, List, [], ◌∷◌, String, Eq, Result, ok, err,
  reject_if, ok_or, map_err, length, get_elem?, take, drop, unwrap_or, ltb, nat_beq, ◌>>=◌, ◌>>◌,
}
use solana_bot.Prelude.Map.{lookup, insert}

-- What the crates `solana_sdk` and `base64` offer: public keys of type `K` and decoded texts.
pub record Sdk (K : Type 0) : Type 0 where
  pub new_from_array : List ℕ → K
  pub to_string : K → String
  pub parse : String → Option K
  pub decode_base64 : String → Option (List ℕ)

-- data/rpc.rs and the nodes behind it: `S` is whatever their answers depend on.
pub record Rpc (S : Type 0) : Type 0 where
  pub fetch_accounts_base64 : S → List String → Result String (List (Option String)) × S

-- The texts of `PolicyError::MalformedAlt`, without the key.
pub data AltFault : Type 0 where
  invalid_base64 : AltFault
  too_short bad_discriminator bad_status not_a_multiple : ℕ → AltFault
  index_exceeds : ℕ → ℕ → AltFault

pub data PolicyError (K : Type 0) : Type 0 where
  malformed_alt : K → AltFault → PolicyError K
  alt_fetch_failed : K → String → PolicyError K
  alt_not_found : K → PolicyError K
  signers payer : PolicyError K
  program_id : String → PolicyError K
  unexpected_program : K → PolicyError K
  account_index : PolicyError K

pub record AltResolver (S K : Type 0) : Type 0 where
  pub rpc : S
  pub cache : List (K × List K)

-- `raw[i]`, at an index that the caller has found to be in range.
abbrev pub byte : List ℕ → ℕ → ℕ
byte raw i = unwrap_or (get_elem? raw i) 0

-- `accounts.into_iter().next().flatten()`
abbrev pub first_account : List (Option String) → Option String
first_account [] = none
first_account (a ∷ _) = a

module _ {K : Type 0} ⦃sdk : Sdk K⦄ where
  -- The addresses `i` to `i + n`. A slice has 32 bytes, so its conversion does not fail.
  unfoldable pub slices : List ℕ → ℕ → ℕ → List K
  slices addr_bytes i zero = []
  slices addr_bytes i (suc n) =
      sdk.new_from_array (take 32 (drop (i * 32) addr_bytes)) ∷ slices addr_bytes (suc i) n

  unfoldable pub decode_alt : List ℕ → Result AltFault (List K)
  decode_alt raw = do
    reject_if (ltb (length raw) 11) (too_short (length raw))
    reject_if (not (nat_beq (byte raw 0) 1)) (bad_discriminator (byte raw 0))
    reject_if (ltb 1 (byte raw 1)) (bad_status (byte raw 1))
    reject_if (not (nat_beq (length (drop 11 raw) % 32) 0)) (not_a_multiple (length (drop 11 raw)))
    ok (slices (drop 11 raw) 0 (length (drop 11 raw) / 32))

  -- What the answer of the node says of a table.
  unfoldable pub received :
      K → Result String (List (Option String)) → Result (PolicyError K) (List K)
  received alt_key answer = do
    accounts ← map_err (alt_fetch_failed alt_key) answer
    text ← ok_or (first_account accounts) (alt_not_found alt_key)
    raw ← ok_or (sdk.decode_base64 text) (malformed_alt alt_key invalid_base64)
    map_err (malformed_alt alt_key) (decode_alt raw)

module _ {S K : Type 0} where
  abbrev pub new_resolver : S → AltResolver S K
  new_resolver rpc = record { rpc = rpc; cache = [] }

  abbrev pub remember :
      ⦃e : Eq K⦄
      → AltResolver S K
      → K
      → Result (PolicyError K) (List K)
      → Result (PolicyError K) (List K) × AltResolver S K
  remember resolver alt_key (ok addrs) =
      (ok addrs, record resolver { cache = insert alt_key addrs resolver.cache })
  remember resolver alt_key (err e) = (err e, resolver)

  unfoldable pub fetch_alt_addresses :
      ⦃e : Eq K⦄ ⦃sdk : Sdk K⦄ ⦃node : Rpc S⦄
      → AltResolver S K
      → K
      → Result (PolicyError K) (List K) × AltResolver S K
  fetch_alt_addresses ⦃e⦄ ⦃sdk⦄ ⦃node⦄ resolver alt_key = elim (lookup alt_key resolver.cache) [
    | some addrs ↦ (ok addrs, resolver)
    | none ↦
        let got = node.fetch_accounts_base64 resolver.rpc (sdk.to_string alt_key ∷ []) in
        remember (record resolver { rpc = got.1 }) alt_key (received alt_key got.0)
  ]
