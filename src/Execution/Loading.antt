-- ===== src/Execution/Loading.antt =====
-- execution/policy.rs: what the loops of `resolve_v0_accounts` read from one address lookup table.
use solana_bot.Prelude.{
  ◌≡◌, refl, inl, inr, none, some, Option, List, [], ◌∷◌, ◌++◌, map, ℕ, arith, sym, ap, ◌∙◌, Eq, ok,
  get_elem?, Option-cases, Result-cases,
}
use mathlib.Core.Path.{subst}
use mathlib.Core.List.{append_assoc, append-nil, map-append}
use solana_bot.Prelude.Map.{lookup}
use solana_bot.Execution.Policy.{AddressTableLookup, load_indexes, load_table}

module _ {K : Type 0} where
  load_indexes-IsRead :
      (alt_key : K) (addrs : List K) (idxs : List ℕ) (loaded out : List K)
      → load_indexes alt_key addrs idxs loaded ≡ ok out
      → map some out ≡ map some loaded ++ map (get_elem? addrs) idxs
  unfolding load_indexes
  load_indexes-IsRead alt_key addrs [] loaded out e =
      rw (append-nil (map some loaded)) (ground arith)
  load_indexes-IsRead alt_key addrs (i ∷ rest) loaded out e =
      elim (Option-cases (get_elem? addrs i)) [
        | inl missing ↦ ground arith
        | inr (a, found) ↦
            let more =
              load_indexes-IsRead alt_key addrs rest (loaded ++ (a ∷ [])) out (ground arith) in
            more
            ∙ ap (λ t. t ++ map (get_elem? addrs) rest) (map-append some loaded (a ∷ []))
            ∙ append_assoc (map some loaded) (some a ∷ []) (map (get_elem? addrs) rest)
            ∙ ap (λ t. map some loaded ++ (t ∷ map (get_elem? addrs) rest)) (sym found)
      ]

  pub load_table-IsRead :
      (table : AddressTableLookup K) (addrs : List K) (loaded out : List K × List K)
      → load_table table addrs loaded ≡ ok out
      → (map some out.0 ≡ map some loaded.0 ++ map (get_elem? addrs) table.writable_indexes)
        × (map some out.1 ≡ map some loaded.1 ++ map (get_elem? addrs) table.readonly_indexes)
  unfolding load_table
  load_table-IsRead table addrs loaded out e =
      elim (Result-cases (load_indexes table.account_key addrs table.writable_indexes loaded.0)) [
        | inr (x, f) ↦ ground arith
        | inl (w, f) ↦
            elim (Result-cases
              (load_indexes table.account_key addrs table.readonly_indexes loaded.1)) [
                | inr (x, g) ↦ ground arith
                | inl (r, g) ↦
                    let same : (w, r) ≡ out = ground arith in
                    let first =
                      load_indexes-IsRead table.account_key addrs table.writable_indexes loaded.0 w
                        f in
                    let second =
                      load_indexes-IsRead table.account_key addrs table.readonly_indexes loaded.1 r
                        g in
                    subst
                      (λ o.
                        (map some o.0
                          ≡ map some loaded.0 ++ map (get_elem? addrs) table.writable_indexes)
                        × (map some o.1
                            ≡ map some loaded.1 ++ map (get_elem? addrs) table.readonly_indexes))
                      same (first, second)
              ]
      ]

module _ {K : Type 0} ⦃e : Eq K⦄ where
  -- The address at an index of a table, as a cache has it.
  abbrev pub entry : List (K × List K) → K → ℕ → Option K
  entry cache alt_key i = elim (lookup alt_key cache) [
    | none ↦ none
    | some addrs ↦ get_elem? addrs i
  ]

  -- The addresses that the tables name, one table after the other.
  abbrev pub entries :
      (AddressTableLookup K → List ℕ)
      → List (K × List K)
      → List (AddressTableLookup K)
      → List (Option K)
  entries side cache [] = []
  entries side cache (t ∷ rest) =
      map (entry cache t.account_key) (side t) ++ entries side cache rest

  map-entry :
      (cache : List (K × List K)) (alt_key : K) (addrs : List K) (idxs : List ℕ)
      → lookup alt_key cache ≡ some addrs
      → map (get_elem? addrs) idxs ≡ map (entry cache alt_key) idxs
  map-entry cache alt_key addrs [] hit = refl
  map-entry cache alt_key addrs (i ∷ rest) hit =
      ground (arith, map-entry cache alt_key addrs rest hit)

  pub joined_entries :
      (cache : List (K × List K)) (alt_key : K) (addrs : List K) (idxs : List ℕ)
      (before now : List K) (rest : List (Option K)) (out : List K)
      → lookup alt_key cache ≡ some addrs
      → map some now ≡ map some before ++ map (get_elem? addrs) idxs
      → map some out ≡ map some now ++ rest
      → map some out ≡ map some before ++ (map (entry cache alt_key) idxs ++ rest)
  joined_entries cache alt_key addrs idxs before now rest out hit first second =
      second
      ∙ ap (λ t. t ++ rest) first
      ∙ append_assoc (map some before) (map (get_elem? addrs) idxs) rest
      ∙ ap (λ t. map some before ++ (t ++ rest)) (map-entry cache alt_key addrs idxs hit)
