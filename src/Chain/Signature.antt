-- ===== src/Chain/Signature.antt =====
-- execution/jupiter.rs and data/rpc.rs: `reconcile_signature`, over the answers of a node.
use solana_bot.Prelude.{
  ℕ, Bool, false, not, ◌||◌, Option, none, some, String, ◌==◌, string_eq, Result, ok, err,
  if◌then◌else◌, List,
}
use solana_bot.Execution.{ExecutionError, transaction, unknown_outcome}
use solana_bot.Chain.Json.{Json}
use solana_bot.Chain.Outcome.{
  ChainSwapOutcome, Unverifiable, SwapOutcome, swap_failed, executed, unverifiable,
}
use solana_bot.Chain.Swap.{parse_swap_transaction}

pub record SignatureStatus : Type 0 where
  pub failure : Option Json
  pub confirmation_status : Option String
  pub slot : ℕ

abbrev pub is_confirmed_or_finalized : SignatureStatus → Bool
is_confirmed_or_finalized s = elim (s.confirmation_status) [
  | none ↦ false
  | some text ↦ text == "confirmed" || text == "finalized"
]

pub record TokenBalance : Type 0 where
  pub mint : String
  pub amount : ℕ
  pub decimals : ℕ

-- What the node answers, with the text of an error.
pub record Node (N : Type 0) : Type 0 where
  pub signature_status : N → String → Result String (Option SignatureStatus) × N
  pub transaction : N → String → Result String (Option Json) × N
  pub token_balances : N → String → Result String (List TokenBalance) × N

-- The texts of what the chain reports.
pub record ChainTexts : Type 0 where
  pub on_chain_failure : Json → String
  pub unverifiable_text : Unverifiable → String

module _ ⦃texts : ChainTexts⦄ where
  abbrev pub verdict : String → SwapOutcome → Result ExecutionError (Option ChainSwapOutcome)
  verdict signature (executed o) = ok (some o)
  verdict signature (swap_failed e) = err (transaction (texts.on_chain_failure e))
  verdict signature (unverifiable u) =
      err (unknown_outcome (some signature) (texts.unverifiable_text u))

  abbrev pub from_transaction :
      String
      → String
      → String
      → String
      → ℕ
      → Result String (Option Json)
      → Result ExecutionError (Option ChainSwapOutcome)
  from_transaction signature input_mint output_mint owner expected_input (err e) =
      err (unknown_outcome (some signature) e)
  from_transaction signature input_mint output_mint owner expected_input (ok none) = ok none
  from_transaction signature input_mint output_mint owner expected_input (ok (some tx)) =
      verdict signature (parse_swap_transaction tx input_mint output_mint owner expected_input)

module _ {N : Type 0} ⦃node : Node N⦄ ⦃texts : ChainTexts⦄ where
  abbrev pub from_status :
      String
      → String
      → String
      → String
      → ℕ
      → Result String (Option SignatureStatus) × N
      → Result ExecutionError (Option ChainSwapOutcome) × N
  from_status signature input_mint output_mint owner expected_input (err e, n) =
      (err (unknown_outcome (some signature) e), n)
  from_status signature input_mint output_mint owner expected_input (ok none, n) = (ok none, n)
  from_status signature input_mint output_mint owner expected_input (ok (some status), n) =
      elim (status.failure) [
        | some e ↦ (err (transaction (texts.on_chain_failure e)), n)
        | none ↦ if not (is_confirmed_or_finalized status) then (ok none, n) else (
          from_transaction signature input_mint output_mint owner expected_input
              (node.transaction n signature).0,
          (node.transaction n signature).1,
        )
      ]

  unfoldable pub reconcile_signature :
      N
      → String
      → String
      → String
      → String
      → ℕ
      → Result ExecutionError (Option ChainSwapOutcome) × N
  reconcile_signature n signature input_mint output_mint owner expected_input =
      from_status signature input_mint output_mint owner expected_input
        (node.signature_status n signature)
