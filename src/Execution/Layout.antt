-- ===== src/Execution/Layout.antt =====
-- execution/policy.rs: the order of the accounts that `resolve_v0_accounts` puts together.
use solana_bot.Prelude.{
  ◌≡◌, refl, inl, inr, none, some, List, [], ◌∷◌, ◌++◌, map, arith, sym, ap, ◌∙◌, Eq, Result, ok,
  err, Option-cases, Result-cases,
}
use mathlib.Core.Path.{subst}
use mathlib.Core.List.{append-nil, map-append}
use solana_bot.Prelude.Map.{lookup, lookup-insert}
use solana_bot.Execution.Alt.{
  Sdk, Rpc, PolicyError, AltResolver, fetch_alt_addresses, remember, received,
}
use solana_bot.Execution.AltLaws.{fetch-cached, fetch-missing, fetch-Remembers}
use solana_bot.Execution.Policy.{
  AddressTableLookup, Message, load_table, load_tables, resolve_v0_accounts,
}
use solana_bot.Execution.Loading.{entries, load_table-IsRead, joined_entries}

module _ {S K : Type 0} ⦃e : Eq K⦄ ⦃sdk : Sdk K⦄ ⦃node : Rpc S⦄ where
  -- What is in the cache of `resolver` stays there.
  abbrev Keeps : AltResolver S K → AltResolver S K → Type 0
  Keeps resolver after =
      (k : K) (addrs : List K)
      → lookup k resolver.cache ≡ some addrs
      → lookup k after.cache ≡ some addrs

  remember-Keeps :
      (resolver : AltResolver S K) (alt_key : K) (r : Result (PolicyError K) (List K))
      → lookup alt_key resolver.cache ≡ none
      → Keeps resolver (remember resolver alt_key r).1
  remember-Keeps resolver alt_key (err x) missing k addrs hit = hit
  remember-Keeps resolver alt_key (ok found) missing k addrs hit =
      rw (lookup-insert k alt_key found resolver.cache) (ground (arith, e.beq_iff alt_key k))

  fetch-Keeps :
      (resolver : AltResolver S K) (alt_key : K)
      → Keeps resolver (fetch_alt_addresses resolver alt_key).1
  fetch-Keeps resolver alt_key = elim (Option-cases (lookup alt_key resolver.cache)) [
    | inl missing ↦
        let got = node.fetch_accounts_base64 resolver.rpc (sdk.to_string alt_key ∷ []) in
        subst (λ r. Keeps resolver r.1) (sym (fetch-missing resolver alt_key missing))
          (remember-Keeps (record resolver { rpc = got.1 }) alt_key (received alt_key got.0)
            missing)
    | inr (old, hit) ↦
        subst (λ r. Keeps resolver r.1) (sym (fetch-cached resolver alt_key old hit))
          (λ k addrs there. there)
  ]

  -- What the tables add to the loaded addresses, read from the cache that is left.
  abbrev IsLoaded :
      List (AddressTableLookup K)
      → List K × List K
      → AltResolver S K
      → Result (PolicyError K) (List K × List K) × AltResolver S K
      → Type 0
  IsLoaded tables loaded resolver r =
      Keeps resolver r.1
      × ((out : List K × List K)
          → r.0 ≡ ok out
          → (map some out.0
              ≡ map some loaded.0 ++ entries (λ t. t.writable_indexes) r.1.cache tables)
            × (map some out.1
                ≡ map some loaded.1 ++ entries (λ t. t.readonly_indexes) r.1.cache tables))

  load_tables-err :
      (table : AddressTableLookup K) (rest : List (AddressTableLookup K)) (loaded : List K × List K)
      (resolver : AltResolver S K) (x : PolicyError K)
      → (fetch_alt_addresses resolver table.account_key).0 ≡ err x
      → load_tables (table ∷ rest) loaded resolver
        ≡ (err x, (fetch_alt_addresses resolver table.account_key).1)
  unfolding load_tables
  load_tables-err table rest loaded resolver x bad = ground arith

  load_tables-bad :
      (table : AddressTableLookup K) (rest : List (AddressTableLookup K)) (loaded : List K × List K)
      (resolver : AltResolver S K) (addrs : List K) (x : PolicyError K)
      → (fetch_alt_addresses resolver table.account_key).0 ≡ ok addrs
      → load_table table addrs loaded ≡ err x
      → load_tables (table ∷ rest) loaded resolver
        ≡ (err x, (fetch_alt_addresses resolver table.account_key).1)
  unfolding load_tables
  load_tables-bad table rest loaded resolver addrs x good bad = ground arith

  load_tables-ok :
      (table : AddressTableLookup K) (rest : List (AddressTableLookup K)) (loaded : List K × List K)
      (resolver : AltResolver S K) (addrs : List K) (more : List K × List K)
      → (fetch_alt_addresses resolver table.account_key).0 ≡ ok addrs
      → load_table table addrs loaded ≡ ok more
      → load_tables (table ∷ rest) loaded resolver
        ≡ load_tables rest more (fetch_alt_addresses resolver table.account_key).1
  unfolding load_tables
  load_tables-ok table rest loaded resolver addrs more good read = ground arith

  table_then_rest :
      (table : AddressTableLookup K) (rest : List (AddressTableLookup K)) (loaded : List K × List K)
      (resolver : AltResolver S K) (addrs : List K) (more : List K × List K)
      → (fetch_alt_addresses resolver table.account_key).0 ≡ ok addrs
      → load_table table addrs loaded ≡ ok more
      → (r : Result (PolicyError K) (List K × List K) × AltResolver S K)
      → IsLoaded rest more (fetch_alt_addresses resolver table.account_key).1 r
      → IsLoaded (table ∷ rest) loaded resolver r
  table_then_rest table rest loaded resolver addrs more good read r (kept, others) =
      let hit =
        kept table.account_key addrs (fetch-Remembers resolver table.account_key addrs good) in
      let (writable, readonly) = load_table-IsRead table addrs loaded more read in
      (
        λ k xs there. kept k xs (fetch-Keeps resolver table.account_key k xs there),
        λ out e.
            let (w, ro) = others out e in
            (
              joined_entries r.1.cache table.account_key addrs table.writable_indexes loaded.0
                  more.0 (entries (λ t. t.writable_indexes) r.1.cache rest) out.0 hit writable w,
              joined_entries r.1.cache table.account_key addrs table.readonly_indexes loaded.1
                  more.1 (entries (λ t. t.readonly_indexes) r.1.cache rest) out.1 hit readonly ro,
            ),
      )

  load_tables-IsLoaded :
      (tables : List (AddressTableLookup K)) (loaded : List K × List K) (resolver : AltResolver S K)
      → IsLoaded tables loaded resolver (load_tables tables loaded resolver)
  unfolding load_tables
  load_tables-IsLoaded [] loaded resolver = (
    λ k addrs hit. hit,
    λ out e. (
      rw (append-nil (map some loaded.0)) (ground arith),
      rw (append-nil (map some loaded.1)) (ground arith),
    ),
  )
  load_tables-IsLoaded (table ∷ rest) loaded resolver =
      let got = fetch_alt_addresses resolver table.account_key in
      let kept = fetch-Keeps resolver table.account_key in
      elim (Result-cases got.0) [
        | inr (x, bad) ↦
            subst (IsLoaded (table ∷ rest) loaded resolver)
              (sym (load_tables-err table rest loaded resolver x bad)) (kept, λ out e. ground arith)
        | inl (addrs, good) ↦ elim (Result-cases (load_table table addrs loaded)) [
          | inr (x, bad) ↦
              subst (IsLoaded (table ∷ rest) loaded resolver)
                (sym (load_tables-bad table rest loaded resolver addrs x good bad))
                (kept, λ out e. ground arith)
          | inl (more, read) ↦
              subst (IsLoaded (table ∷ rest) loaded resolver)
                (sym (load_tables-ok table rest loaded resolver addrs more good read))
                (table_then_rest table rest loaded resolver addrs more good read
                  (load_tables rest more got.1) (load_tables-IsLoaded rest more got.1))
        ]
      ]

  -- Resolved accounts are the static keys, then the writable addresses of all tables, then the
  -- readonly ones, in the order of the tables and of their indexes, as the cache then holds them.
  pub resolve_v0_accounts_layout :
      (m : Message K) (tables : List (AddressTableLookup K)) (resolver : AltResolver S K)
      (keys : List K)
      → (resolve_v0_accounts m tables resolver).0 ≡ ok keys
      → let cache = (resolve_v0_accounts m tables resolver).1.cache in
        map some keys
        ≡ map some m.account_keys
          ++ (entries (λ t. t.writable_indexes) cache tables
              ++ entries (λ t. t.readonly_indexes) cache tables)
  unfolding resolve_v0_accounts
  resolve_v0_accounts_layout m tables resolver keys =
      elim (Result-cases (load_tables tables ([], []) resolver).0) [
        | inr (x, bad) ↦ λ e. ground arith
        | inl (out, good) ↦ λ e.
            let (w, ro) = (load_tables-IsLoaded tables ([], []) resolver).1 out good in
            let whole : m.account_keys ++ (out.0 ++ out.1) ≡ keys = ground arith in
            ap (map some) (sym whole)
            ∙ map-append some m.account_keys (out.0 ++ out.1)
            ∙ ap (λ t. map some m.account_keys ++ t) (map-append some out.0 out.1)
            ∙ rw (w, ro) refl
      ]
