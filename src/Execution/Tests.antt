-- ===== src/Execution/Tests.antt =====
-- Runs of execution/, and the theorems at those inputs.
use solana_bot.Prelude.{
  ℕ, zero, suc, ◌+◌, ◌≡◌, refl, false, none, some, List, [], ◌∷◌, ◌++◌, map, string_eq, ◌==◌,
  nat_eq, true, ◌↔◌, if◌then◌else◌, ok, err, is_ok, length, arith,
}
use solana_bot.Execution.Alt.{
  Sdk, Rpc, AltResolver, new_resolver, slices, decode_alt, received, fetch_alt_addresses,
  account_index,
}
use solana_bot.Execution.AltLaws.{
  IsTable, joined, decode_alt_iff, decode_alt_header, decode_alt_roundtrip,
}
use solana_bot.Execution.Policy.{
  AddressTableLookup, Message, legacy, v0, parse_all, load_indexes, load_table, load_tables,
  check_instruction, check_instructions, check_message, resolve_v0_accounts, resolve,
  validate_provider_transaction,
}
use solana_bot.Execution.PolicyLaws.{IsPermitted, validate_provider_transaction_iff}
use solana_bot.Execution.Loading.{entries}
use solana_bot.Execution.Layout.{resolve_v0_accounts_layout}

abbrev zeros : ℕ → List ℕ
zeros zero = []
zeros (suc n) = 0 ∷ zeros n

abbrev key : ℕ → List ℕ
key n = n ∷ zeros 31

abbrev table : List ℕ
table = 1 ∷ 1 ∷ (zeros 9 ++ joined (key 21 ∷ key 22 ∷ []))

-- A key is the first of its bytes; the only text that names a program is "swap".
instance abbrev small_sdk : Sdk ℕ
small_sdk = record {
  new_from_array = λ bytes. length bytes + elim bytes [ [] ↦ 0 | n ∷ _ ↦ n ];
  to_string = λ _. "table";
  parse = λ s. if s == "swap" then some 7 else none;
  decode_base64 = λ _. some table;
}

-- Every account holds the table; the state counts the calls.
instance abbrev counting_rpc : Rpc ℕ
counting_rpc = record { fetch_accounts_base64 = λ calls keys. (ok (some "data" ∷ []), calls + 1) }

abbrev message : Message ℕ
message = record {
  account_keys = 5 ∷ 7 ∷ [];
  num_required_signatures = 1;
  instructions = record { program_id_index = 1; accounts = 0 ∷ 2 ∷ 3 ∷ [] } ∷ [];
}

abbrev lookups : List (AddressTableLookup ℕ)
lookups = record { account_key = 9; writable_indexes = 1 ∷ []; readonly_indexes = 0 ∷ [] } ∷ []

abbrev fresh_resolver : AltResolver ℕ ℕ
fresh_resolver = new_resolver 0

decoded : decode_alt {K = ℕ} table ≡ ok (53 ∷ 54 ∷ [])
unfolding decode_alt slices
decoded = refl

resolved : (resolve_v0_accounts message lookups fresh_resolver).0 ≡ ok (5 ∷ 7 ∷ 54 ∷ 53 ∷ [])
unfolding resolve_v0_accounts load_tables load_table load_indexes fetch_alt_addresses received
    decode_alt slices
resolved = refl

passes :
    (validate_provider_transaction (v0 message lookups) 5 ("swap" ∷ []) fresh_resolver).0 ≡ ok tt
unfolding validate_provider_transaction resolve resolve_v0_accounts load_tables load_table
    load_indexes fetch_alt_addresses received decode_alt slices check_message check_instructions
    check_instruction
passes = refl

-- Without the table the instruction has accounts that are not there.
out_of_range :
    (validate_provider_transaction (legacy message) 5 ("swap" ∷ []) fresh_resolver).0
    ≡ err account_index
unfolding validate_provider_transaction resolve check_message check_instructions check_instruction
out_of_range = refl

fetched : (fetch_alt_addresses fresh_resolver 9).0 ≡ ok (53 ∷ 54 ∷ [])
unfolding fetch_alt_addresses received decode_alt slices
fetched = refl

validate_provider_transaction_iff_example :
    ((validate_provider_transaction (v0 message lookups) 5 ("swap" ∷ []) fresh_resolver).0 ≡ ok tt)
    ↔ ((allow : List ℕ) × (keys : List ℕ) × (parse_all ("swap" ∷ []) ≡ ok allow)
        × ((resolve (v0 message lookups) fresh_resolver).0 ≡ ok keys)
        × IsPermitted keys allow 5 message)
validate_provider_transaction_iff_example =
    validate_provider_transaction_iff (v0 message lookups) 5 ("swap" ∷ []) fresh_resolver

resolve_v0_accounts_layout_example :
    let cache = (resolve_v0_accounts message lookups fresh_resolver).1.cache in
    map some (5 ∷ 7 ∷ 54 ∷ 53 ∷ [])
    ≡ map some (5 ∷ 7 ∷ [])
      ++ (entries (λ t. t.writable_indexes) cache lookups
          ++ entries (λ t. t.readonly_indexes) cache lookups)
resolve_v0_accounts_layout_example =
    resolve_v0_accounts_layout message lookups fresh_resolver (5 ∷ 7 ∷ 54 ∷ 53 ∷ []) resolved

decode_alt_iff_example : (is_ok (decode_alt {K = ℕ} table) ≡ true) ↔ IsTable table
decode_alt_iff_example = decode_alt_iff ℕ table

decode_alt_roundtrip_example :
    decode_alt table ≡ ok (map small_sdk.new_from_array (key 21 ∷ key 22 ∷ []))
decode_alt_roundtrip_example =
    decode_alt_roundtrip 1 (zeros 9) (key 21 ∷ key 22 ∷ []) (omega arith) refl (refl, (refl, tt))

decode_alt_header_example :
    is_ok (decode_alt {K = ℕ} (1 ∷ 0 ∷ 0 ∷ 0 ∷ (zeros 52 ++ joined (key 21 ∷ [])))) ≡ false
decode_alt_header_example =
    decode_alt_header ℕ (1 ∷ 0 ∷ 0 ∷ 0 ∷ (zeros 52 ++ joined (key 21 ∷ []))) 1 refl
