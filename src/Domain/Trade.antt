-- ===== src/Domain/Trade.antt =====
-- domain/trade.rs: fills, order states and order records.
use solana_bot.Prelude.{
  ℕ, ◌-◌, ◌/◌, Bool, true, false, ◌||◌, Option, none, some, String, if◌then◌else◌, nat_beq, leb,
  Result, ok, err, saturating_mul, try_from, unwrap_or, u32_max, u64_max,
}

pub record Fill (D T : Type 0) : Type 0 where
  pub order_id : String
  pub signature : String
  pub input_amount : ℕ
  pub output_amount : ℕ
  pub price_usd : D
  pub fees_usd : D
  pub slippage_bps : ℕ
  pub confirmed_at : T
  pub latency_ms : ℕ
  pub fee_lamports : ℕ
  pub input_value_usd : Option D
  pub expected_output_amount : Option ℕ

-- `Fill::realised_slippage_bps`, once the expected output is known.
unfoldable pub slippage_against : ℕ → ℕ → ℕ
slippage_against expected output =
    if nat_beq expected 0 || leb expected output
    then 0
    else unwrap_or (try_from u32_max (saturating_mul u64_max (expected - output) 10_000 / expected))
        u32_max

abbrev pub slippage_of : Option ℕ → ℕ → ℕ
slippage_of none output = 0
slippage_of (some expected) output = slippage_against expected output

unfoldable pub realised_slippage_bps : {D T : Type 0} → Fill D T → ℕ
realised_slippage_bps f = slippage_of f.expected_output_amount f.output_amount

pub data OrderState : Type 0 where
  pending submitted confirmed failed dropped unknown expired reconciled : OrderState

pub data OrderKind : Type 0 where
  entry exit legacy_unknown : OrderKind

pub data OrderSide : Type 0 where
  buy sell unknown_side : OrderSide

-- The derived `==` compares discriminants.
abbrev pub state_tag : OrderState → ℕ
state_tag pending = 0
state_tag submitted = 1
state_tag confirmed = 2
state_tag failed = 3
state_tag dropped = 4
state_tag unknown = 5
state_tag expired = 6
state_tag reconciled = 7

abbrev pub state_beq : OrderState → OrderState → Bool
state_beq a b = nat_beq (state_tag a) (state_tag b)

abbrev pub kind_tag : OrderKind → ℕ
kind_tag entry = 0
kind_tag exit = 1
kind_tag legacy_unknown = 2

abbrev pub kind_beq : OrderKind → OrderKind → Bool
kind_beq a b = nat_beq (kind_tag a) (kind_tag b)

abbrev pub side_tag : OrderSide → ℕ
side_tag buy = 0
side_tag sell = 1
side_tag unknown_side = 2

abbrev pub side_beq : OrderSide → OrderSide → Bool
side_beq a b = nat_beq (side_tag a) (side_tag b)

unfoldable pub is_terminal : OrderState → Bool
is_terminal confirmed = true
is_terminal failed = true
is_terminal dropped = true
is_terminal expired = true
is_terminal reconciled = true
is_terminal _ = false

unfoldable pub can_transition : OrderState → OrderState → Bool
can_transition pending submitted = true
can_transition pending failed = true
can_transition pending expired = true
can_transition pending unknown = true
can_transition submitted confirmed = true
can_transition submitted failed = true
can_transition submitted expired = true
can_transition submitted unknown = true
can_transition unknown confirmed = true
can_transition unknown failed = true
can_transition unknown expired = true
can_transition unknown reconciled = true
can_transition _ _ = false

pub record OrderRecord (D T : Type 0) : Type 0 where
  pub id : String
  pub signal_id : String
  pub mint : String
  pub kind : OrderKind
  pub position_id : Option String
  pub side : OrderSide
  pub input_mint : Option String
  pub output_mint : Option String
  pub input_amount_atomic : Option ℕ
  pub input_value_usd : Option D
  pub output_mint_decimals : Option ℕ
  pub state : OrderState
  pub idempotency_key : String
  pub created_at : T
  pub signature : Option String
  pub error : Option String

-- The message of the source names both states.
pub data TransitionError : Type 0 where
  illegal_transition : OrderState → OrderState → TransitionError

module _ {D T : Type 0} where
  -- `OrderRecord::transition`, with the record as it stands after the call.
  unfoldable pub transition :
      OrderRecord D T → OrderState → Result TransitionError (Unit {0}) × OrderRecord D T
  transition o next =
      if state_beq o.state next
      then (ok tt, o)
      else if can_transition o.state next
      then (ok tt, record o { state = next })
      else (err (illegal_transition o.state next), o)
