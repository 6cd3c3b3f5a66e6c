-- ===== src/Chain/Tests.antt =====
-- Runs of execution/reconcile.rs, and the theorem at one of them.
use solana_bot.Prelude.{ℕ, ◌≡◌, refl, true, false, some, none, List, [], ◌∷◌, String}
use solana_bot.Prelude.Int.{pos, ◌+ℤ◌, ◌-ℤ◌}
use solana_bot.Chain.Json.{
  Json, null, number, text, array, object, Items, no_items, item, Members, no_members, member,
  field, is_null, as_u64,
}
use solana_bot.Chain.Outcome.{wsol_mint, ChainSwapOutcome, executed, unverifiable, no_input_delta}
use solana_bot.Chain.Swap.{
  balances, token_deltas, owner_for_index, native_delta_for_owner, delta_for, input_of, output_of,
  swap_of, parse_swap_transaction,
}
use solana_bot.Chain.Held.{holdings}
use solana_bot.Chain.Verified.{IsInput, IsOutput, parse_swap_transaction_executed}

abbrev list : List Json → Items
list [] = no_items
list (j ∷ js) = item j (list js)

abbrev fields : List (String × Json) → Members
fields [] = no_members
fields ((k, j) ∷ rest) = member k j (fields rest)

abbrev obj : List (String × Json) → Json
obj fs = object (fields fs)

abbrev balance : ℕ → String → String → Json
balance index mint amount = obj (
    ("accountIndex", number (pos index))
    ∷ ("mint", text mint)
    ∷ ("owner", text "w")
    ∷ ("uiTokenAmount", obj (("amount", text amount) ∷ []))
    ∷ [])

abbrev tx : List Json → List Json → ℕ → Json
tx before after lamports = obj (
    (
      "transaction",
      obj (
          (
            "message",
            obj (("accountKeys", array (list (obj (("pubkey", text "w") ∷ []) ∷ []))) ∷ []),
          )
          ∷ []),
    )
    ∷ (
      "meta",
      obj (
          ("err", null)
          ∷ ("fee", number (pos 10))
          ∷ ("preBalances", array (list (number (pos 1_000) ∷ [])))
          ∷ ("postBalances", array (list (number (pos lamports) ∷ [])))
          ∷ ("preTokenBalances", array (list before))
          ∷ ("postTokenBalances", array (list after))
          ∷ []),
    )
    ∷ [])

abbrev bought : Json
bought = tx (balance 1 "t" "0" ∷ []) (balance 1 "t" "500" ∷ []) 990

abbrev bought_outcome : ChainSwapOutcome
bought_outcome = record {
  input_amount = 77;
  output_amount = 500;
  fee_lamports = 10;
  block_time = none;
}

extracts_actual_amounts :
    parse_swap_transaction bought wsol_mint "t" "w" 77 ≡ executed bought_outcome
unfolding parse_swap_transaction swap_of input_of output_of delta_for native_delta_for_owner
    token_deltas owner_for_index balances ◌+ℤ◌ ◌-ℤ◌
extracts_actual_amounts = refl

-- A sale of all tokens in a transaction that also closes the token account.
closed_account :
    parse_swap_transaction (tx (balance 1 "t" "500" ∷ []) [] 2_000) "t" wsol_mint "w" 500
    ≡ unverifiable (no_input_delta "t")
unfolding parse_swap_transaction swap_of input_of output_of delta_for native_delta_for_owner
    token_deltas owner_for_index balances ◌+ℤ◌ ◌-ℤ◌
closed_account = refl

parse_swap_transaction_executed_example :
    let meta = field bought "meta" in
    (is_null meta ≡ false)
    × (is_null (field meta "err") ≡ true)
    × (as_u64 (field meta "fee") ≡ some 10)
    × IsInput wsol_mint 77
        (holdings meta "preTokenBalances" "w" wsol_mint)
        (holdings meta "postTokenBalances" "w" wsol_mint)
        77
    × IsOutput bought "w" "t" 10
        (holdings meta "preTokenBalances" "w" "t")
        (holdings meta "postTokenBalances" "w" "t")
        500
parse_swap_transaction_executed_example =
    parse_swap_transaction_executed bought wsol_mint "t" "w" 77 bought_outcome
      extracts_actual_amounts
