-- ===== src/Collector/Fuel.antt =====
-- collector/wallet_monitor.rs: the loop of `record_sell` ends.
use solana_bot.Prelude.{
  ◌⊎◌, String, string_eq, ℕ, zero, suc, ◌≤◌, ◌≡◌, refl, ap, ◌∙◌, true, false, Option, none, some,
  List, [], ◌∷◌, arith, length, inl, inr, Bool-cases, Option-cases, is_none,
}
use solana_bot.Prelude.Decimal.{Decimal, Rounding, IsOrdered, ◌⊖◌, ◌⊘◌, of_nat, leq, same}
use solana_bot.Prelude.Map.{lookup}
use solana_bot.Collector.Wallet.{after_sale, sell_from, record_sell}
use solana_bot.Collector.Lots.{
  WalletAccumulator, Lot, Selling, running, sell_slice, sell_step, sell_loop,
}

module _ {D T : Type 0} ⦃d : Decimal D⦄ where
  running-cases :
      (st : Selling D T) (lot : Lot D T) (rest : List (Lot D T))
      → running st ≡ some (lot, rest)
      → st.queue ≡ lot ∷ rest
  unfolding running
  running-cases st lot rest found = ground arith

  spent : (st : Selling D T) → leq st.remaining (of_nat 0) ≡ true → running st ≡ none
  unfolding running
  spent st low = ground arith

module _ {D T : Type 0} ⦃d : Decimal D⦄ ⦃r : Rounding D⦄ (ordered : IsOrdered D)
    (exact : (x : D) → x ⊖ x ≡ of_nat 0) (price : D) (now : T) where
  none_left : (x : D) → leq (x ⊖ x) (of_nat 0) ≡ true
  none_left x = rw (exact x) (ordered.leq_refl (of_nat 0))

  same_left : (x : D) → same (x ⊖ x) (of_nat 0) ≡ true
  same_left x = rw (exact x) (rw (ordered.leq_refl (of_nat 0)) refl)

  slice-exhausts :
      (lot : Lot D T) (rest : List (Lot D T)) (st : Selling D T)
      → leq lot.tokens_received st.remaining ≡ true
      → (sell_slice price now lot rest st).queue ≡ rest
  unfolding sell_slice
  slice-exhausts lot rest st fits = ground (arith, same_left lot.tokens_received)

  slice-ends :
      (lot : Lot D T) (rest : List (Lot D T)) (st : Selling D T)
      → leq lot.tokens_received st.remaining ≡ false
      → leq (sell_slice price now lot rest st).remaining (of_nat 0) ≡ true
  unfolding sell_slice
  slice-ends lot rest st over = ground (arith, none_left st.remaining)

  -- A round drops the front lot, or leaves nothing to sell.
  step-cases :
      (lot : Lot D T) (rest : List (Lot D T)) (st : Selling D T)
      → ((sell_step price now lot rest st).queue ≡ rest)
        ⊎ (leq (sell_step price now lot rest st).remaining (of_nat 0) ≡ true)
  unfolding sell_step
  step-cases lot rest st = elim (Bool-cases (leq lot.tokens_received (of_nat 0))) [
    | inl empty ↦ inl (ground arith)
    | inr full ↦ elim (Bool-cases (leq lot.tokens_received st.remaining)) [
      | inl fits ↦ inl (ground (arith, slice-exhausts lot rest st fits))
      | inr over ↦ inr (ground (arith, slice-ends lot rest st over))
    ]
  ]

  loop_spent :
      (n : ℕ) (st : Selling D T) → running st ≡ none → is_none (sell_loop price now n st) ≡ false
  unfolding sell_loop
  loop_spent zero st done = ground arith
  loop_spent (suc n) st done = ground arith

  loop_step :
      (n : ℕ) (st : Selling D T) (lot : Lot D T) (rest : List (Lot D T))
      → running st ≡ some (lot, rest)
      → sell_loop price now (suc n) st ≡ sell_loop price now n (sell_step price now lot rest st)
  unfolding sell_loop
  loop_step n st lot rest going = ground arith

  -- Where subtraction is exact, the loop of a sale ends within as many rounds as there are lots.
  sell_loop_ends :
      (n : ℕ) (st : Selling D T) → length st.queue ≤ n → is_none (sell_loop price now n st) ≡ false
  sell_loop_ends zero st enough = elim (Option-cases (running st)) [
    | inl done ↦ loop_spent zero st done
    | inr ((lot, rest), going) ↦
        let size : length st.queue ≡ suc (length rest) =
          ap length (running-cases st lot rest going) in
        absurd (omega (arith, size, enough))
  ]
  sell_loop_ends (suc n) st enough = elim (Option-cases (running st)) [
    | inl done ↦ loop_spent (suc n) st done
    | inr ((lot, rest), going) ↦
        let size : length st.queue ≡ suc (length rest) =
          ap length (running-cases st lot rest going) in
        let after = sell_step price now lot rest st in
        ap is_none (loop_step n st lot rest going) ∙ elim (step-cases lot rest st) [
          | inl dropped ↦ sell_loop_ends n after (omega (arith, size, enough, ap length dropped))
          | inr low ↦ loop_spent n after (spent after low)
        ]
  ]

module _ {D T : Type 0} ⦃d : Decimal D⦄ ⦃r : Rounding D⦄ (ordered : IsOrdered D)
    (exact : (x : D) → x ⊖ x ≡ of_nat 0) where
  after_sale-none :
      (mint : String) (acc : WalletAccumulator D T) (o : Option (Selling D T))
      → is_none o ≡ false
      → is_none (after_sale mint acc o) ≡ false
  after_sale-none mint acc none ended = ended
  after_sale-none mint acc (some st) ended = refl

  sell_from_ends :
      (mint : String) (tokens_sold sol_received : D) (sell_time : T) (acc : WalletAccumulator D T)
      (lots : Option (List (Lot D T)))
      → is_none (sell_from mint tokens_sold sol_received sell_time acc lots) ≡ false
  sell_from_ends mint tokens_sold sol_received sell_time acc none = refl
  sell_from_ends mint tokens_sold sol_received sell_time acc (some []) = refl
  sell_from_ends mint tokens_sold sol_received sell_time acc (some (lot ∷ rest)) =
      elim (Bool-cases (leq tokens_sold (of_nat 0))) [
        | inl nothing ↦ rw nothing refl
        | inr something ↦ rw something (
            after_sale-none mint acc _ (
              sell_loop_ends ordered exact (sol_received ⊘ tokens_sold) sell_time
                (length (lot ∷ rest)) _ (omega arith)))
      ]

  -- Where subtraction is exact, recording a sale ends within as many rounds as the token has open
  -- lots.
  pub record_sell_ends :
      (mint : String) (tokens_sold sol_received : D) (sell_time : T) (acc : WalletAccumulator D T)
      → is_none (record_sell mint tokens_sold sol_received sell_time acc) ≡ false
  unfolding record_sell
  record_sell_ends mint tokens_sold sol_received sell_time acc =
      sell_from_ends mint tokens_sold sol_received sell_time acc (lookup mint acc.open_positions)
