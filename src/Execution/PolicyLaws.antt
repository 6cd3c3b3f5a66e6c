-- ===== src/Execution/PolicyLaws.antt =====
-- execution/policy.rs: which transactions `validate_provider_transaction` lets pass.
use solana_bot.Prelude.{
  IsIn, ℕ, zero, suc, ◌<◌, ◌≡◌, refl, ◌↔◌, inl, inr, true, false, some, List, [], ◌∷◌, String,
  arith, Eq, ok, length, get_elem?, any, is_none, All, Option-cases, Result-cases,
}
use solana_bot.Execution.Alt.{Sdk, Rpc, AltResolver}
use solana_bot.Execution.Policy.{
  CompiledInstruction, Message, VersionedMessage, contains, first_is, parse_all, check_instruction,
  check_instructions, check_message, resolve, body, validate_provider_transaction,
}

module _ {A : Type 0} where
  get_elem?-length : (xs : List A) (i : ℕ) → (is_none (get_elem? xs i) ≡ false) ↔ (i < length xs)
  get_elem?-length [] i = ground arith
  get_elem?-length (x ∷ xs) zero = ground arith
  get_elem?-length (x ∷ xs) (suc i) = ground (arith, get_elem?-length xs i)

  -- Every index is one of the list.
  abbrev pub InRange : List A → List ℕ → Type 0
  InRange xs is = All (λ i. i < length xs) is

  any-InRange :
      (xs : List A) (is : List ℕ) → (any (λ i. is_none (get_elem? xs i)) is ≡ false) ↔ InRange xs is
  any-InRange xs [] = ground arith
  any-InRange xs (i ∷ is) = ground (arith, get_elem?-length xs i, any-InRange xs is)

module _ {K : Type 0} ⦃e : Eq K⦄ where
  contains_iff : (k : K) (xs : List K) → (contains k xs ≡ true) ↔ IsIn k xs
  contains_iff k [] = ground arith
  contains_iff k (x ∷ xs) = ground (arith, e.beq_iff x k, contains_iff k xs)

  first_is_iff : (k : K) (xs : List K) → (first_is k xs ≡ true) ↔ (get_elem? xs 0 ≡ some k)
  first_is_iff k [] = ground arith
  first_is_iff k (x ∷ xs) = ground (arith, e.beq_iff x k)

  -- An instruction that runs a program of the list on accounts of the message.
  pub record IsSound (keys allow : List K) (ix : CompiledInstruction) : Type 0 where
    pub program : K
    pub program_key : get_elem? keys ix.program_id_index ≡ some program
    pub program_allowed : IsIn program allow
    pub accounts_in_range : InRange keys ix.accounts

  check_instruction-IsSound :
      (keys allow : List K) (ix : CompiledInstruction)
      → check_instruction keys allow ix ≡ ok tt
      → IsSound keys allow ix
  unfolding check_instruction
  check_instruction-IsSound keys allow ix =
      elim (Option-cases (get_elem? keys ix.program_id_index)) [
        | inl missing ↦ λ good. ground arith
        | inr (k, found) ↦ λ good.
            let listed : contains k allow ≡ true = ground arith in
            let ranged : any (λ i. is_none (get_elem? keys i)) ix.accounts ≡ false = ground arith in
            record {
              program = k;
              program_key = found;
              program_allowed = (contains_iff k allow).0 listed;
              accounts_in_range = (any-InRange keys ix.accounts).0 ranged;
            }
      ]

  IsSound-check_instruction :
      (keys allow : List K) (ix : CompiledInstruction)
      → IsSound keys allow ix
      → check_instruction keys allow ix ≡ ok tt
  unfolding check_instruction
  IsSound-check_instruction keys allow ix s =
      let found = s.program_key in
      let listed = (contains_iff s.program allow).1 s.program_allowed in
      let ranged = (any-InRange keys ix.accounts).1 s.accounts_in_range in ground arith

  check_instructions-IsSound :
      (keys allow : List K) (ixs : List CompiledInstruction)
      → check_instructions keys allow ixs ≡ ok tt
      → All (IsSound keys allow) ixs
  unfolding check_instructions
  check_instructions-IsSound keys allow [] good = tt
  check_instructions-IsSound keys allow (ix ∷ rest) good =
      elim (Result-cases (check_instruction keys allow ix)) [
        | inl (done, e) ↦ (
          check_instruction-IsSound keys allow ix e,
          check_instructions-IsSound keys allow rest (ground arith),
        )
        | inr (x, e) ↦ ground arith
      ]

  IsSound-check_instructions :
      (keys allow : List K) (ixs : List CompiledInstruction)
      → All (IsSound keys allow) ixs
      → check_instructions keys allow ixs ≡ ok tt
  unfolding check_instructions
  IsSound-check_instructions keys allow [] all = refl
  IsSound-check_instructions keys allow (ix ∷ rest) (one, all) =
      let first = IsSound-check_instruction keys allow ix one in
      let others = IsSound-check_instructions keys allow rest all in ground arith

  -- What a message has to be for a signer and a list of programs.
  pub record IsPermitted (keys allow : List K) (signer : K) (m : Message K) : Type 0 where
    pub one_signature : m.num_required_signatures ≡ 1
    pub payer_is_signer : get_elem? keys 0 ≡ some signer
    pub sound : All (IsSound keys allow) m.instructions

  check_message_iff :
      (keys : List K) (m : Message K) (signer : K) (allow : List K)
      → (check_message keys m signer allow ≡ ok tt) ↔ IsPermitted keys allow signer m
  unfolding check_message
  check_message_iff keys m signer allow = (
    λ good.
        let first : first_is signer keys ≡ true = ground arith in
        record {
          one_signature = ground arith;
          payer_is_signer = (first_is_iff signer keys).0 first;
          sound = check_instructions-IsSound keys allow m.instructions (ground arith);
        },
    λ p.
        let first = (first_is_iff signer keys).1 p.payer_is_signer in
        let rest = IsSound-check_instructions keys allow m.instructions p.sound in
        ground (arith, p.one_signature),
  )

module _ {S K : Type 0} ⦃e : Eq K⦄ ⦃sdk : Sdk K⦄ ⦃node : Rpc S⦄ where
  -- A transaction passes exactly when the permitted programs can be parsed, its accounts can be
  -- resolved, it asks for one signature, its first account is the signer, and each instruction
  -- runs a permitted program on accounts of the message.
  pub validate_provider_transaction_iff :
      (tx : VersionedMessage K) (signer : K) (allowed : List String) (resolver : AltResolver S K)
      → ((validate_provider_transaction tx signer allowed resolver).0 ≡ ok tt) ↔ (
          (allow : List K) × (keys : List K) × (parse_all allowed ≡ ok allow)
          × ((resolve tx resolver).0 ≡ ok keys)
          × IsPermitted keys allow signer (body tx))
  unfolding validate_provider_transaction
  validate_provider_transaction_iff tx signer allowed resolver = (
    λ good. elim (Result-cases (parse_all {K = K} allowed)) [
      | inr (x, e) ↦ ground arith
      | inl (allow, e) ↦ elim (Result-cases (resolve tx resolver).0) [
        | inr (x, f) ↦ ground arith
        | inl (keys, f) ↦
            (allow, keys, e, f, (check_message_iff keys (body tx) signer allow).0 (ground arith))
      ]
    ],
    λ (allow, keys, e, f, p).
        let checked = (check_message_iff keys (body tx) signer allow).1 p in ground arith,
  )
