-- ===== src/Chain/Outcome.antt =====
-- execution/reconcile.rs: the amounts and the fee of a swap, from the response of the chain.
use solana_bot.Prelude.{
  ℕ, ◌+◌, ◌*◌, ◌-◌, ◌&&◌, Option, none, some, String, if◌then◌else◌, leb, nat_beq, string_eq,
  u64_max,
}
use solana_bot.Prelude.Int.{ℤ}
use Prim.Native.String.{[] as end_of_text, ◌∷◌ as ◌then_char◌}
use Prim.Native.Char.{Char, code}
use solana_bot.Chain.Json.{Json}

abbrev pub wsol_mint : String
wsol_mint = "So11111111111111111111111111111111111111112"

pub record ChainSwapOutcome : Type 0 where
  pub input_amount : ℕ
  pub output_amount : ℕ
  pub fee_lamports : ℕ
  pub block_time : Option ℤ

pub data Unverifiable : Type 0 where
  missing_metadata missing_fee input_overflow output_overflow no_native_delta : Unverifiable
  no_input_delta no_output_delta : String → Unverifiable

pub data SwapOutcome : Type 0 where
  swap_failed : Json → SwapOutcome
  executed : ChainSwapOutcome → SwapOutcome
  unverifiable : Unverifiable → SwapOutcome

-- `parse::<u64>()`: a sign `+` may lead.
abbrev pub digit_of : Char → Option ℕ
digit_of c = if leb 48 (code c) && leb (code c) 57 then some (code c - 48) else none

abbrev pub parse_digits : ℕ → String → Option ℕ
parse_digits n end_of_text = some n
parse_digits n (c then_char s) = elim (digit_of c) [
  | none ↦ none
  | some k ↦
      let rest = parse_digits (n * 10 + k) s in if leb (n * 10 + k) u64_max then rest else none
]

abbrev pub parse_u64 : String → Option ℕ
parse_u64 end_of_text = none
parse_u64 (c then_char end_of_text) = parse_digits 0 (c then_char end_of_text)
parse_u64 (c then_char d then_char s) =
    if nat_beq (code c) 43
    then parse_digits 0 (d then_char s)
    else parse_digits 0 (c then_char d then_char s)
