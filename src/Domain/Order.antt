-- ===== src/Domain/Order.antt =====
-- The life of an order: what `OrderRecord::transition` of domain/trade.rs permits, over any sequence
-- of calls. A call that fails leaves the record as it was, and its caller goes on.
use solana_bot.Prelude.{
  ℕ, ◌+◌, ◌≤◌, ◌<◌, ◌⊎◌, inl, inr, ◌≡◌, refl, ◌≢◌, true, false, List, [], ◌∷◌, arith, if◌then◌else◌,
  Bool-cases,
}
use solana_bot.Domain.Trade.{
  OrderState, pending, submitted, confirmed, dropped, unknown, state_beq, is_terminal,
  can_transition, OrderRecord, transition,
}

-- How far a state is along the documented paths.
abbrev pub rank : OrderState → ℕ
rank pending = 0
rank submitted = 1
rank unknown = 2
rank _ = 3

is_terminal-can_transition : (a b : OrderState) → is_terminal a ≡ true → can_transition a b ≡ false
unfolding is_terminal can_transition
is_terminal-can_transition a b h = ground arith

can_transition-rank : (a b : OrderState) → can_transition a b ≡ true → rank a < rank b
unfolding can_transition
can_transition-rank a b h = ground arith

can_transition-dropped : (a : OrderState) → can_transition a dropped ≡ false
unfolding can_transition
can_transition-dropped a = ground arith

can_transition-confirmed :
    (a : OrderState) → can_transition a confirmed ≡ true → (a ≡ submitted) ⊎ (a ≡ unknown)
unfolding can_transition
can_transition-confirmed a h = ground arith

state_beq-eq : (a b : OrderState) → state_beq a b ≡ true → a ≡ b
state_beq-eq a b h = ground arith

module _ {D T : Type 0} where
  -- The record after a sequence of requested states.
  unfoldable pub run : OrderRecord D T → List OrderState → OrderRecord D T
  run o [] = o
  run o (s ∷ rest) = run (transition o s).1 rest

  -- How often the state really changed.
  unfoldable pub changes : OrderRecord D T → List OrderState → ℕ
  changes o [] = 0
  changes o (s ∷ rest) =
      (if state_beq (transition o s).1.state o.state then 0 else 1)
      + changes (transition o s).1 rest

  -- A call either leaves the record alone, or changes its state, and nothing else, along an edge.
  transition-cases :
      (o : OrderRecord D T) (s : OrderState)
      → ((transition o s).1 ≡ o)
        ⊎ ((can_transition o.state s ≡ true) × ((transition o s).1 ≡ record o { state = s }))
  unfolding transition
  transition-cases o s = elim (Bool-cases (state_beq o.state s)) [
    | inl same ↦ inl (rw same)
    | inr other ↦ elim (Bool-cases (can_transition o.state s)) [
      | inl allowed ↦ inr (allowed, rw (other, allowed))
      | inr refused ↦ inl (rw (other, refused))
    ]
  ]

  transition-IsTerminal :
      (o : OrderRecord D T) (s : OrderState) → is_terminal o.state ≡ true → (transition o s).1 ≡ o
  transition-IsTerminal o s h =
      grind (arith, transition-cases o s, is_terminal-can_transition o.state s h)

  step_count :
      (o : OrderRecord D T) (s : OrderState)
      → (if state_beq (transition o s).1.state o.state then 0 else 1) + rank o.state
        ≤ rank (transition o s).1.state
  step_count o s = elim (transition-cases o s) [
    | inl e ↦ rw e (ground arith)
    | inr (allowed, e) ↦ rw e (ground (arith, can_transition-rank o.state s allowed))
  ]

  -- A terminal order never changes again, whatever states are requested of it.
  pub run-IsTerminal :
      (o : OrderRecord D T) (requests : List OrderState)
      → is_terminal o.state ≡ true
      → run o requests ≡ o
  unfolding run
  run-IsTerminal o [] h = refl
  run-IsTerminal o (s ∷ rest) h = rw (transition-IsTerminal o s h) (run-IsTerminal o rest h)

  -- An order changes its state at most three times in its life, and less often the further it is.
  pub changes-le :
      (o : OrderRecord D T) (requests : List OrderState) → changes o requests + rank o.state ≤ 3
  unfolding changes
  changes-le o [] = ground arith
  changes-le o (s ∷ rest) = omega (arith, changes-le (transition o s).1 rest, step_count o s)

  transition-dropped :
      (o : OrderRecord D T) (s : OrderState)
      → o.state ≢ dropped
      → (transition o s).1.state ≢ dropped
  transition-dropped o s h = grind (arith, transition-cases o s, can_transition-dropped o.state)

  -- No sequence of transitions leads to `Dropped`.
  run-dropped :
      (o : OrderRecord D T) (requests : List OrderState)
      → o.state ≢ dropped
      → (run o requests).state ≢ dropped
  unfolding run
  run-dropped o [] h = h
  run-dropped o (s ∷ rest) h = run-dropped (transition o s).1 rest (transition-dropped o s h)
