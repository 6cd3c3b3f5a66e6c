-- ===== src/Chain/Swap.antt =====
-- execution/reconcile.rs: the balance changes of a transaction, and `parse_swap_transaction`.
use solana_bot.Prelude.{
  ℕ, suc, ◌+◌, Bool, false, not, ◌&&◌, Option, none, some, List, [], ◌∷◌, ◌++◌, map, String,
  if◌then◌else◌, nat_beq, any, ◌==◌, string_eq, u64_max, try_from, Result, ok, err, ok_or, ◌>>=◌,
  ◌>>◌, reject_if, get_elem?, unwrap_or,
}
use solana_bot.Prelude.Int.{ℤ, pos, negsuc, ◌+ℤ◌, ◌-ℤ◌, pos_part, neg_part, leb_ℤ}
use solana_bot.Chain.Json.{Json, field, as_array, as_str, as_u64, as_i64, is_null}
use solana_bot.Chain.Outcome.{
  Unverifiable, wsol_mint, ChainSwapOutcome, missing_metadata, missing_fee, input_overflow,
  output_overflow, no_native_delta, no_input_delta, no_output_delta, SwapOutcome, swap_failed,
  executed, unverifiable, parse_u64,
}

-- `?` on an option.
abbrev pub and_some : {A B : Type 0} → Option A → (A → Option B) → Option B
and_some none f = none
and_some (some a) f = f a

abbrev pub filter_map : {A B : Type 0} → (A → Option B) → List A → List B
filter_map f [] = []
filter_map f (x ∷ xs) = elim (f x) [ none ↦ filter_map f xs | some y ↦ y ∷ filter_map f xs ]

abbrev pub sum_ℤ : List ℤ → ℤ
sum_ℤ [] = pos 0
sum_ℤ (x ∷ xs) = x +ℤ sum_ℤ xs

-- An account and a mint.
abbrev pub Account : Type 0
Account = ℕ × String

abbrev pub same_account : Account → Account → Bool
same_account a b = nat_beq a.0 b.0 && a.1 == b.1

-- The closure `parse` of `token_deltas`.
abbrev pub balance_of : Json → Option (Account × ℕ)
balance_of e = and_some (as_u64 (field e "accountIndex")) (λ index.
    and_some (as_str (field e "mint")) (λ mint.
      and_some (and_some (as_str (field (field e "uiTokenAmount") "amount")) parse_u64)
        (λ amount. some ((index, mint), amount))))

unfoldable pub balances : Json → String → List (Account × ℕ)
balances meta key = filter_map balance_of (unwrap_or (as_array (field meta key)) [])

abbrev pub amount_at : Account → List (Account × ℕ) → ℕ
amount_at k [] = 0
amount_at k ((j, n) ∷ rest) = if same_account j k then n else amount_at k rest

-- The list is sorted in the code only to drop what occurs twice.
abbrev pub distinct : List Account → List Account
distinct [] = []
distinct (k ∷ ks) = if any (same_account k) ks then distinct ks else k ∷ distinct ks

unfoldable pub token_deltas : Json → List (Account × ℤ)
token_deltas meta =
    let before = balances meta "preTokenBalances" in
    let after = balances meta "postTokenBalances" in
    map (λ k. (k, pos (amount_at k after) -ℤ pos (amount_at k before)))
      (distinct (map (λ b. b.0) before ++ map (λ b. b.0) after))

abbrev pub owner_of : Json → Option (ℕ × String)
owner_of e =
    and_some (as_u64 (field e "accountIndex"))
      (λ index. and_some (as_str (field e "owner")) (λ owner. some (index, owner)))

unfoldable pub owner_for_index : Json → List (ℕ × String)
owner_for_index meta =
    filter_map owner_of (unwrap_or (as_array (field meta "postTokenBalances")) [])

abbrev pub is_key : String → Json → Bool
is_key owner k = elim (as_str (field k "pubkey")) [ none ↦ false | some s ↦ s == owner ]

abbrev pub position_of : (Json → Bool) → List Json → Option ℕ
position_of p [] = none
position_of p (x ∷ xs) =
    if p x then some 0 else elim (position_of p xs) [ none ↦ none | some i ↦ some (suc i) ]

abbrev pub native_at : Json → String → ℕ → Option ℤ
native_at meta key index =
    and_some (as_array (field meta key)) (λ xs. and_some (get_elem? xs index) as_i64)

unfoldable pub native_delta_for_owner : Json → String → Option ℤ
native_delta_for_owner tx owner =
    and_some (as_array (field (field (field tx "transaction") "message") "accountKeys")) (λ keys.
      and_some (position_of (is_key owner) keys) (λ index.
        and_some (native_at (field tx "meta") "preBalances" index) (λ before.
          and_some (native_at (field tx "meta") "postBalances" index)
            (λ after. some (after -ℤ before)))))

-- The closure `delta_for` of `parse_swap_transaction`.
unfoldable pub delta_for : String → String → List (ℕ × String) → List (Account × ℤ) → ℤ
delta_for owner mint owners deltas = sum_ℤ (
    filter_map
      (λ d.
        if d.0.1 == mint && any (λ o. nat_beq o.0 d.0.0 && o.1 == owner) owners
        then some d.1
        else none)
      deltas)

abbrev pub is_positive : ℤ → Bool
is_positive d = not (leb_ℤ d (pos 0))

abbrev pub is_zero : ℤ → Bool
is_zero d = nat_beq (pos_part d + neg_part d) 0

-- `u64::try_from` on an `i128`.
abbrev pub to_u64 : ℤ → Option ℕ
to_u64 (pos n) = try_from u64_max n
to_u64 (negsuc n) = none

-- The early returns.
pub data Early : Type 0 where
  early_failed : Json → Early
  early_unverifiable : Unverifiable → Early

unfoldable pub input_of : String → ℕ → ℤ → Result Early ℕ
input_of mint expected_input delta = if mint == wsol_mint then ok expected_input else do
  reject_if (is_zero delta) (early_unverifiable (no_input_delta mint))
  ok_or (try_from u64_max (pos_part delta + neg_part delta)) (early_unverifiable input_overflow)

abbrev pub native_output : ℕ → Option ℤ → Result Early ℕ
native_output fee none = err (early_unverifiable no_native_delta)
native_output fee (some d) =
    if is_positive d
    then ok_or (to_u64 (d +ℤ pos fee)) (early_unverifiable output_overflow)
    else err (early_unverifiable no_native_delta)

unfoldable pub output_of : String → ℕ → Option ℤ → ℤ → Result Early ℕ
output_of mint fee native delta = if mint == wsol_mint then native_output fee native else do
  reject_if (not (is_positive delta)) (early_unverifiable (no_output_delta mint))
  ok_or (to_u64 delta) (early_unverifiable output_overflow)

-- From the metadata; an error is an early return.
unfoldable pub swap_of : Json → Json → String → String → String → ℕ → Result Early ChainSwapOutcome
swap_of tx meta input_mint output_mint owner expected_input = do
  reject_if (not (is_null (field meta "err"))) (early_failed (field meta "err"))
  fee ← ok_or (as_u64 (field meta "fee")) (early_unverifiable missing_fee)
  input_amount ←
      input_of input_mint expected_input
        (delta_for owner input_mint (owner_for_index meta) (token_deltas meta))
  output_amount ←
      output_of output_mint fee (native_delta_for_owner tx owner)
        (delta_for owner output_mint (owner_for_index meta) (token_deltas meta))
  ok (record {
    input_amount = input_amount;
    output_amount = output_amount;
    fee_lamports = fee;
    block_time = as_i64 (field tx "blockTime");
  })

abbrev pub outcome_of : Result Early ChainSwapOutcome → SwapOutcome
outcome_of (ok o) = executed o
outcome_of (err (early_failed e)) = swap_failed e
outcome_of (err (early_unverifiable u)) = unverifiable u

unfoldable pub parse_swap_transaction : Json → String → String → String → ℕ → SwapOutcome
parse_swap_transaction tx input_mint output_mint owner expected_input =
    if is_null (field tx "meta")
    then unverifiable missing_metadata
    else outcome_of (swap_of tx (field tx "meta") input_mint output_mint owner expected_input)
