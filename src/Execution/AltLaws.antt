-- ===== src/Execution/AltLaws.antt =====
-- execution/policy.rs: which bytes are a lookup table, what is read of them, and the cache.
use solana_bot.Prelude.{
  ℕ, suc, ◌+◌, ◌-◌, ◌*◌, ◌%◌, ◌/◌, ◌≤◌, ◌≡◌, refl, ◌↔◌, inl, inr, true, false, none, some, List, [],
  ◌∷◌, ◌++◌, arith, sym, ap, ◌∙◌, Eq, Result, ok, err, is_ok, length, drop, All, length-append,
  length-drop, take-append, drop-append, drop-drop, Option-cases, Result-cases, map,
}
use mathlib.Core.Path.{subst}
use solana_bot.Prelude.Map.{lookup, lookup-insert_self}
use solana_bot.Execution.Alt.{
  Sdk, Rpc, PolicyError, AltResolver, byte, slices, decode_alt, received, remember,
  fetch_alt_addresses,
}

abbrev pub Is32 : List ℕ → Type 0
Is32 bytes = length bytes ≡ 32

abbrev pub joined : List (List ℕ) → List ℕ
joined [] = []
joined (a ∷ rest) = a ++ joined rest

length-joined : (rest : List (List ℕ)) → All Is32 rest → length (joined rest) ≡ 32 * length rest
length-joined [] all = omega arith
length-joined (a ∷ rest) (one, all) =
    omega (arith, length-append a (joined rest), length-joined rest all)

-- The account data that the decoder accepts.
pub record IsTable (raw : List ℕ) : Type 0 where
  pub long : 11 ≤ length raw
  pub discriminator : byte raw 0 ≡ 1
  pub status : byte raw 1 ≤ 1
  pub whole : (length raw - 11) % 32 ≡ 0

module _ {K : Type 0} ⦃sdk : Sdk K⦄ where
  slices-joined :
      (bytes : List ℕ) (i : ℕ) (rest : List (List ℕ))
      → All Is32 rest
      → drop (i * 32) bytes ≡ joined rest
      → slices bytes i (length rest) ≡ map sdk.new_from_array rest
  unfolding slices
  slices-joined bytes i [] all e = refl
  slices-joined bytes i (a ∷ rest) (one, all) e =
      let next : drop (suc i * 32) bytes ≡ joined rest =
        let shift : suc i * 32 ≡ i * 32 + 32 = omega arith in
        rw (shift, drop-drop (i * 32) 32 bytes, e) (drop-append 32 a (joined rest) one) in
      rw (e, take-append 32 a (joined rest) one, slices-joined bytes (suc i) rest all next)

  decode_alt-ok :
      (raw : List ℕ)
      → IsTable raw
      → decode_alt {K = K} raw ≡ ok (slices (drop 11 raw) 0 ((length raw - 11) / 32))
  unfolding decode_alt
  decode_alt-ok raw t = rw (sym (length-drop 11 raw)) (ground (arith, length-drop 11 raw))

  decode_alt-IsTable : (raw : List ℕ) (addrs : List K) → decode_alt raw ≡ ok addrs → IsTable raw
  unfolding decode_alt
  decode_alt-IsTable raw addrs e = ground (arith, length-drop 11 raw)

  -- Any list of keys of 32 bytes each, written after a header of eleven bytes, of which the first is
  -- the discriminator 1 and the second a status of 0 or 1, is decoded to these keys in their order.
  pub decode_alt_roundtrip :
      (status : ℕ) (header : List ℕ) (keys : List (List ℕ))
      → status ≤ 1
      → length header ≡ 9
      → All Is32 keys
      → decode_alt (1 ∷ status ∷ (header ++ joined keys)) ≡ ok (map sdk.new_from_array keys)
  decode_alt_roundtrip status header keys small nine all =
      let raw = 1 ∷ status ∷ (header ++ joined keys) in
      let size : length raw ≡ 11 + 32 * length keys =
        omega (arith, length-append header (joined keys), length-joined keys all) in
      let tail : drop 11 raw ≡ joined keys = drop-append 9 header (joined keys) nine in
      let count : (length raw - 11) / 32 ≡ length keys = omega arith in
      let table : IsTable raw = record {
        long = omega arith;
        discriminator = refl;
        status = small;
        whole = omega arith;
      } in
      decode_alt-ok raw table ∙ ap ok (rw count (slices-joined (drop 11 raw) 0 keys all tail))

module _ (K : Type 0) ⦃sdk : Sdk K⦄ where
  -- The decoder accepts account data exactly when it has a header of eleven bytes with the
  -- discriminator 1 and a status of 0 or 1, and a multiple of 32 bytes after it.
  pub decode_alt_iff : (raw : List ℕ) → (is_ok (decode_alt {K = K} raw) ≡ true) ↔ IsTable raw
  decode_alt_iff raw = (
    λ good. elim (Result-cases (decode_alt {K = K} raw)) [
      | inl (addrs, e) ↦ decode_alt-IsTable raw addrs e
      | inr (x, e) ↦ ground arith
    ],
    λ t. rw (decode_alt-ok raw t) refl,
  )

  -- No account data with a header of 56 bytes and any number of addresses after it is accepted.
  pub decode_alt_header :
      (raw : List ℕ) (n : ℕ) → length raw ≡ 56 + 32 * n → is_ok (decode_alt {K = K} raw) ≡ false
  decode_alt_header raw n size = elim (Result-cases (decode_alt {K = K} raw)) [
    | inl (addrs, e) ↦ let t = decode_alt-IsTable raw addrs e in ground (arith, t.whole)
    | inr (x, e) ↦ rw e refl
  ]

module _ {S K : Type 0} ⦃e : Eq K⦄ ⦃sdk : Sdk K⦄ ⦃node : Rpc S⦄ where
  pub fetch-cached :
      (resolver : AltResolver S K) (alt_key : K) (addrs : List K)
      → lookup alt_key resolver.cache ≡ some addrs
      → fetch_alt_addresses resolver alt_key ≡ (ok addrs, resolver)
  unfolding fetch_alt_addresses
  fetch-cached resolver alt_key addrs hit = ground arith

  remember-cached :
      (resolver : AltResolver S K) (alt_key : K) (r : Result (PolicyError K) (List K))
      (addrs : List K)
      → (remember resolver alt_key r).0 ≡ ok addrs
      → lookup alt_key (remember resolver alt_key r).1.cache ≡ some addrs
  remember-cached resolver alt_key (ok found) addrs e =
      rw (lookup-insert_self alt_key found resolver.cache) (ground arith)
  remember-cached resolver alt_key (err x) addrs e = ground arith

  pub fetch-missing :
      (resolver : AltResolver S K) (alt_key : K)
      → lookup alt_key resolver.cache ≡ none
      → fetch_alt_addresses resolver alt_key ≡ (
          let got = node.fetch_accounts_base64 resolver.rpc (sdk.to_string alt_key ∷ []) in
          remember (record resolver { rpc = got.1 }) alt_key (received alt_key got.0))
  unfolding fetch_alt_addresses
  fetch-missing resolver alt_key missing = ground arith

  -- What an answer leaves in the cache.
  abbrev pub Remembers : K → Result (PolicyError K) (List K) × AltResolver S K → Type 0
  Remembers alt_key r = (addrs : List K) → r.0 ≡ ok addrs → lookup alt_key r.1.cache ≡ some addrs

  pub fetch-Remembers :
      (resolver : AltResolver S K) (alt_key : K)
      → Remembers alt_key (fetch_alt_addresses resolver alt_key)
  fetch-Remembers resolver alt_key = elim (Option-cases (lookup alt_key resolver.cache)) [
    | inl missing ↦
        let got = node.fetch_accounts_base64 resolver.rpc (sdk.to_string alt_key ∷ []) in
        subst (Remembers alt_key) (sym (fetch-missing resolver alt_key missing))
          (remember-cached (record resolver { rpc = got.1 }) alt_key (received alt_key got.0))
    | inr (old, hit) ↦
        subst (Remembers alt_key) (sym (fetch-cached resolver alt_key old hit))
          (λ addrs same. hit ∙ ground arith)
  ]

  -- A table that was fetched is not fetched again: once a lookup has answered, the same lookup
  -- gives the same addresses, asks no node and changes nothing.
  fetch_alt_addresses_once :
      (resolver : AltResolver S K) (alt_key : K) (addrs : List K)
      → (fetch_alt_addresses resolver alt_key).0 ≡ ok addrs
      → fetch_alt_addresses (fetch_alt_addresses resolver alt_key).1 alt_key
        ≡ (ok addrs, (fetch_alt_addresses resolver alt_key).1)
  fetch_alt_addresses_once resolver alt_key addrs found =
      fetch-cached (fetch_alt_addresses resolver alt_key).1 alt_key addrs
        (fetch-Remembers resolver alt_key addrs found)
