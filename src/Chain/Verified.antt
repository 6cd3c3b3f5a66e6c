-- ===== src/Chain/Verified.antt =====
-- execution/reconcile.rs: what a swap that is reported as executed rests on.
use solana_bot.Prelude.{
  not, reject_if, ok_or, ◌>>=◌, ◌>>◌, ℕ, ◌≡◌, ◌<◌, ◌≤◌, ◌+◌, inl, inr, refl, ap, sym, ◌∙◌, ◌⊎◌,
  Bool, true, false, Option, some, none, String, Result, ok, err, arith, ◌==◌, string_eq,
  if◌then◌else◌, Bool-cases, Result-cases, u64_max,
}
use solana_bot.Prelude.Int.{ℤ, pos, negsuc, pos_part, neg_part, ◌+ℤ◌, ◌-ℤ◌}
use solana_bot.Chain.Json.{Json, field, is_null, as_u64, as_i64}
use solana_bot.Chain.Outcome.{
  wsol_mint, ChainSwapOutcome, executed, unverifiable, missing_metadata, missing_fee,
}
use solana_bot.Chain.Swap.{
  Early, early_failed, early_unverifiable, outcome_of, input_of, output_of, native_output,
  native_delta_for_owner, delta_for, owner_for_index, token_deltas, swap_of, parse_swap_transaction,
}
use solana_bot.Chain.Held.{holdings, delta_for-holdings}
use solana_bot.Chain.Lamports.{IsNative, native_delta_for_owner-IsNative, gained}

-- The amount of the input leg: the requested one where it is wrapped SOL, and otherwise the size of
-- the change of what the owner holds, which is not zero.
abbrev pub IsInput : String → ℕ → ℕ → ℕ → ℕ → Type 0
IsInput mint expected before after n =
    if mint == wsol_mint
    then n ≡ expected
    else ((before ≡ after + n) ⊎ (after ≡ before + n)) × (0 < n) × (n ≤ u64_max)

-- The lamports of the owner grew, and the growth and the fee are the amount.
abbrev pub IsNativeGain : Json → String → ℕ → ℕ → Type 0
IsNativeGain tx owner fee n =
    (before : ℤ) × (after : ℤ) × (gain : ℕ) × IsNative tx owner before after
    × (after ≡ before +ℤ pos gain)
    × (0 < gain)
    × (n ≡ gain + fee)
    × (n ≤ u64_max)

-- The amount of the output leg: the growth of the lamports and the fee where it is wrapped SOL, and
-- otherwise what the owner holds more than before.
abbrev pub IsOutput : Json → String → String → ℕ → ℕ → ℕ → ℕ → Type 0
IsOutput tx owner mint fee before after n =
    if mint == wsol_mint
    then IsNativeGain tx owner fee n
    else (after ≡ before + n) × (0 < n) × (n ≤ u64_max)

change_size :
    (before after n : ℕ)
    → n ≡ pos_part (pos after -ℤ pos before) + neg_part (pos after -ℤ pos before)
    → (before ≡ after + n) ⊎ (after ≡ before + n)
unfolding ◌-ℤ◌
change_size before after n q = ground arith

change_up : (before after n : ℕ) → pos after -ℤ pos before ≡ pos n → after ≡ before + n
unfolding ◌-ℤ◌
change_up before after n q = ground arith

input_of-IsInput :
    (mint : String) (expected before after n : ℕ)
    → input_of mint expected (pos after -ℤ pos before) ≡ ok n
    → IsInput mint expected before after n
unfolding input_of
input_of-IsInput mint expected before after n done = elim (Bool-cases (mint == wsol_mint)) [
  | inl same ↦ rw same (ground arith)
  | inr other ↦ rw other (change_size before after n (ground arith), ground arith, ground arith)
]

native_output-some :
    (fee : ℕ) (native : Option ℤ) (n : ℕ)
    → native_output fee native ≡ ok n
    → (d : ℕ) × (native ≡ some (pos d)) × (0 < d) × (n ≡ d + fee) × (n ≤ u64_max)
unfolding ◌+ℤ◌
native_output-some fee none n done = ground arith
native_output-some fee (some (pos d)) n done = (d, refl, ground arith, ground arith, ground arith)
native_output-some fee (some (negsuc d)) n done = ground arith

to_gain :
    (delta : ℤ) (n : ℕ) (mint : String) (fee : ℕ) (native : Option ℤ)
    → mint == wsol_mint ≡ false
    → output_of mint fee native delta ≡ ok n
    → (delta ≡ pos n) × (0 < n) × (n ≤ u64_max)
unfolding output_of
to_gain (pos d) n mint fee native other done = ground arith
to_gain (negsuc d) n mint fee native other done = ground arith

native-gain :
    (tx : Json) (owner : String) (fee n : ℕ)
    → native_output fee (native_delta_for_owner tx owner) ≡ ok n
    → IsNativeGain tx owner fee n
native-gain tx owner fee n done =
    let (d, change, positive, sum, small) =
      native_output-some fee (native_delta_for_owner tx owner) n done in
    let (before, after, at, q) = native_delta_for_owner-IsNative tx owner (pos d) change in
    (before, after, d, at, gained before after d q, positive, sum, small)

output_of-IsOutput :
    (tx : Json) (owner mint : String) (fee before after n : ℕ)
    → output_of mint fee (native_delta_for_owner tx owner) (pos after -ℤ pos before) ≡ ok n
    → IsOutput tx owner mint fee before after n
unfolding output_of
output_of-IsOutput tx owner mint fee before after n done = elim (Bool-cases (mint == wsol_mint)) [
  | inl same ↦ rw same (native-gain tx owner fee n (ground arith))
  | inr other ↦
      let (up, positive, small) =
        to_gain (pos after -ℤ pos before) n mint fee (native_delta_for_owner tx owner) other done in
      rw other (change_up before after n up, positive, small)
]

-- The checks that passed, one after the other.
passed :
    (clean : Bool) (e early : Early) (fee : Option ℕ) (input : Result Early ℕ)
    (output : ℕ → Result Early ℕ) (time : Option ℤ) (o : ChainSwapOutcome)
    → (do
      reject_if (not clean) e
      f ← ok_or fee early
      i ← input
      x ← output f
      ok (record { input_amount = i; output_amount = x; fee_lamports = f; block_time = time }))
      ≡ ok o
    → (clean ≡ true)
      × (fee ≡ some o.fee_lamports)
      × (input ≡ ok o.input_amount)
      × (output o.fee_lamports ≡ ok o.output_amount)
passed false e early fee input output time o done = ground arith
passed true e early none input output time o done = ground arith
passed true e early (some f) (err x) output time o done = ground arith
passed true e early (some f) (ok i) output time o done = elim (Result-cases (output f)) [
  | inr (x, bad) ↦ ground arith
  | inl (n, good) ↦ (refl, ground arith, ground arith, ground arith)
]

executed-ok :
    (r : Result Early ChainSwapOutcome) (o : ChainSwapOutcome)
    → outcome_of r ≡ executed o
    → r ≡ ok o
executed-ok (ok x) o done = ground arith
executed-ok (err (early_failed e)) o done = ground arith
executed-ok (err (early_unverifiable u)) o done = ground arith

has_metadata :
    (absent : Bool) (r : Result Early ChainSwapOutcome) (o : ChainSwapOutcome)
    → (if absent then unverifiable missing_metadata else outcome_of r) ≡ executed o
    → (absent ≡ false) × (r ≡ ok o)
has_metadata true r o done = ground arith
has_metadata false r o done = (refl, executed-ok r o done)

-- Where a transaction is reported as executed, its metadata has no error; the fee is the one stated;
-- the input is the requested amount where it is wrapped SOL, and otherwise the size of the change of
-- what the owner holds of the mint, not zero; the output is the growth of the lamports of an account
-- key of the owner and the fee where it is wrapped SOL, and otherwise what the owner holds more of the
-- mint after than before. What the owner holds is the sum over the accounts of the mint whose owner
-- the balances after the transaction name. An amount that is read from the chain is positive and fits
-- into 64 bits.
pub parse_swap_transaction_executed :
    (tx : Json) (input_mint output_mint owner : String) (expected : ℕ) (o : ChainSwapOutcome)
    → parse_swap_transaction tx input_mint output_mint owner expected ≡ executed o
    → let meta = field tx "meta" in
      (is_null meta ≡ false)
      × (is_null (field meta "err") ≡ true)
      × (as_u64 (field meta "fee") ≡ some o.fee_lamports)
      × IsInput input_mint expected
          (holdings meta "preTokenBalances" owner input_mint)
          (holdings meta "postTokenBalances" owner input_mint)
          o.input_amount
      × IsOutput tx owner output_mint o.fee_lamports
          (holdings meta "preTokenBalances" owner output_mint)
          (holdings meta "postTokenBalances" owner output_mint)
          o.output_amount
unfolding parse_swap_transaction swap_of
parse_swap_transaction_executed tx input_mint output_mint owner expected o done =
    let meta = field tx "meta" in
    let input_delta = delta_for owner input_mint (owner_for_index meta) (token_deltas meta) in
    let output_delta = delta_for owner output_mint (owner_for_index meta) (token_deltas meta) in
    let native = native_delta_for_owner tx owner in
    let (present, swap) =
      has_metadata (is_null meta) (swap_of tx meta input_mint output_mint owner expected) o done in
    let (clean, fee, input, output) =
      passed (is_null (field meta "err")) (early_failed (field meta "err"))
        (early_unverifiable missing_fee) (as_u64 (field meta "fee"))
        (input_of input_mint expected input_delta)
        (λ f. output_of output_mint f native output_delta) (as_i64 (field tx "blockTime")) o swap in
    (
      present,
      clean,
      fee,
      input_of-IsInput input_mint expected _ _ o.input_amount (
          ap (input_of input_mint expected) (sym (delta_for-holdings meta owner input_mint))
          ∙ input),
      output_of-IsOutput tx owner output_mint o.fee_lamports _ _ o.output_amount (
          ap (output_of output_mint o.fee_lamports native)
            (sym (delta_for-holdings meta owner output_mint))
          ∙ output),
    )
