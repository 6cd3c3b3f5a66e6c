-- ===== src/Execution/Policy.antt =====
-- execution/policy.rs: the accounts of a transaction, and the checks of
-- `validate_provider_transaction`.
use solana_bot.Prelude.{
  ℕ, Bool, not, none, some, List, [], ◌∷◌, ◌++◌, String, Eq, ◌==◌, Result, ok, err, reject_if,
  ok_or, get_elem?, length, any, is_none, nat_beq, ◌>>=◌, ◌>>◌, false,
}
use solana_bot.Execution.Alt.{
  Sdk, Rpc, PolicyError, malformed_alt, index_exceeds, signers, payer, program_id,
  unexpected_program, account_index, AltResolver, fetch_alt_addresses,
}

-- The parts of the messages of `solana_sdk` that the checks read.
pub record CompiledInstruction : Type 0 where
  pub program_id_index : ℕ
  pub accounts : List ℕ

pub record AddressTableLookup (K : Type 0) : Type 0 where
  pub account_key : K
  pub writable_indexes : List ℕ
  pub readonly_indexes : List ℕ

pub record Message (K : Type 0) : Type 0 where
  pub account_keys : List K
  pub num_required_signatures : ℕ
  pub instructions : List CompiledInstruction

pub data VersionedMessage (K : Type 0) : Type 0 where
  legacy : Message K → VersionedMessage K
  v0 : Message K → List (AddressTableLookup K) → VersionedMessage K

module _ {K : Type 0} where
  -- The loop over the indexes into one table; `loaded` grows at its end.
  unfoldable pub load_indexes : K → List K → List ℕ → List K → Result (PolicyError K) (List K)
  load_indexes alt_key addrs [] loaded = ok loaded
  load_indexes alt_key addrs (idx ∷ rest) loaded = elim (get_elem? addrs idx) [
    | none ↦ err (malformed_alt alt_key (index_exceeds idx (length addrs)))
    | some addr ↦ load_indexes alt_key addrs rest (loaded ++ (addr ∷ []))
  ]

  -- The loaded writable and the loaded readonly addresses after one table.
  unfoldable pub load_table :
      AddressTableLookup K → List K → List K × List K → Result (PolicyError K) (List K × List K)
  load_table table addrs loaded = do
    writable ← load_indexes table.account_key addrs table.writable_indexes loaded.0
    readonly ← load_indexes table.account_key addrs table.readonly_indexes loaded.1
    ok (writable, readonly)

  abbrev pub all_keys :
      Message K → Result (PolicyError K) (List K × List K) → Result (PolicyError K) (List K)
  all_keys m loaded = do pair ← loaded; ok (m.account_keys ++ (pair.0 ++ pair.1))

  abbrev pub body : VersionedMessage K → Message K
  body (legacy m) = m
  body (v0 m _) = m

  abbrev pub contains : ⦃e : Eq K⦄ → K → List K → Bool
  contains k xs = any (λ y. y == k) xs

  abbrev pub first_is : ⦃e : Eq K⦄ → K → List K → Bool
  first_is k [] = false
  first_is k (x ∷ xs) = x == k

  abbrev pub parse_all : ⦃sdk : Sdk K⦄ → List String → Result (PolicyError K) (List K)
  parse_all [] = ok []
  parse_all ⦃sdk⦄ (s ∷ rest) = do
    key ← ok_or (sdk.parse s) (program_id s)
    keys ← parse_all rest
    ok (key ∷ keys)

module _ {K : Type 0} ⦃e : Eq K⦄ where
  unfoldable pub check_instruction :
      List K → List K → CompiledInstruction → Result (PolicyError K) (Unit {0})
  check_instruction keys allow ix = do
    program ← ok_or (get_elem? keys ix.program_id_index) account_index
    reject_if (not (contains program allow)) (unexpected_program program)
    reject_if (any (λ i. is_none (get_elem? keys i)) ix.accounts) account_index

  unfoldable pub check_instructions :
      List K → List K → List CompiledInstruction → Result (PolicyError K) (Unit {0})
  check_instructions keys allow [] = ok tt
  check_instructions keys allow (ix ∷ rest) = do
    check_instruction keys allow ix
    check_instructions keys allow rest

  -- The checks of `validate_provider_transaction` once the accounts are resolved.
  unfoldable pub check_message : List K → Message K → K → List K → Result (PolicyError K) (Unit {0})
  check_message keys m signer allow = do
    reject_if (not (nat_beq m.num_required_signatures 1)) signers
    reject_if (not (first_is signer keys)) payer
    check_instructions keys allow m.instructions

module _ {S K : Type 0} ⦃e : Eq K⦄ ⦃sdk : Sdk K⦄ ⦃node : Rpc S⦄ where
  unfoldable pub load_tables :
      List (AddressTableLookup K)
      → List K × List K
      → AltResolver S K
      → Result (PolicyError K) (List K × List K) × AltResolver S K
  load_tables [] loaded resolver = (ok loaded, resolver)
  load_tables (table ∷ rest) loaded resolver =
      let got = fetch_alt_addresses resolver table.account_key in
      elim (got.0) [
        | err x ↦ (err x, got.1)
        | ok addrs ↦ elim (load_table table addrs loaded) [
          | err x ↦ (err x, got.1)
          | ok more ↦ load_tables rest more got.1
        ]
      ]

  unfoldable pub resolve_v0_accounts :
      Message K
      → List (AddressTableLookup K)
      → AltResolver S K
      → Result (PolicyError K) (List K) × AltResolver S K
  resolve_v0_accounts m tables resolver =
      let got = load_tables tables ([], []) resolver in (all_keys m got.0, got.1)

  -- The message of either version, with its accounts.
  unfoldable pub resolve :
      VersionedMessage K → AltResolver S K → Result (PolicyError K) (List K) × AltResolver S K
  resolve (legacy m) resolver = (ok m.account_keys, resolver)
  resolve (v0 m tables) resolver = resolve_v0_accounts m tables resolver

  unfoldable pub validate_provider_transaction :
      VersionedMessage K
      → K
      → List String
      → AltResolver S K
      → Result (PolicyError K) (Unit {0}) × AltResolver S K
  validate_provider_transaction tx signer allowed resolver = elim (parse_all allowed) [
    | err x ↦ (err x, resolver)
    | ok allow ↦
        let got = resolve tx resolver in
        (got.0 >>= λ keys. check_message keys (body tx) signer allow, got.1)
  ]
