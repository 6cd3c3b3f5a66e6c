-- ===== src/Chain/Held.antt =====
-- execution/reconcile.rs: the changes of a transaction, by what its owner holds before and after it.
use solana_bot.Prelude.{
  ℕ, ◌+◌, ◌≡◌, refl, ap, Bool, false, ◌&&◌, none, some, List, [], ◌∷◌, ◌++◌, map, String,
  if◌then◌else◌, nat_beq, any, ◌==◌, string_eq, arith, unwrap_or,
}
use solana_bot.Prelude.Int.{ℤ, pos, ◌+ℤ◌, ◌-ℤ◌}
use solana_bot.Chain.Json.{Json, field, as_array, as_str, as_u64}
use solana_bot.Chain.Swap.{
  filter_map, sum_ℤ, Account, balances, amount_at, distinct, token_deltas, owner_of,
  owner_for_index, delta_for,
}

-- The accounts that have a balance before or after the transaction, each of them once.
abbrev pub touched : Json → List Account
touched meta = distinct (
    map (λ b. b.0) (balances meta "preTokenBalances")
    ++ map (λ b. b.0) (balances meta "postTokenBalances"))

-- A balance entry that names the owner of an account.
abbrev pub names_owner : ℕ → String → Json → Bool
names_owner index owner e = elim (as_u64 (field e "accountIndex")) [
  | none ↦ false
  | some i ↦ elim (as_str (field e "owner")) [
    | none ↦ false
    | some o ↦ nat_beq i index && o == owner
  ]
]

-- Where the balances after the transaction name the owner of an account.
abbrev pub is_owned : Json → String → ℕ → Bool
is_owned meta owner index =
    any (names_owner index owner) (unwrap_or (as_array (field meta "postTokenBalances")) [])

abbrev pub is_held : Json → String → String → Account → Bool
is_held meta owner mint k = k.1 == mint && is_owned meta owner k.0

-- The sum over the accounts that a test accepts.
abbrev pub total : (Account → Bool) → (Account → ℕ) → List Account → ℕ
total p f [] = 0
total p f (k ∷ ks) = if p k then f k + total p f ks else total p f ks

-- What the owner holds of a mint by one of the two lists of balances.
abbrev pub holdings : Json → String → String → String → ℕ
holdings meta key owner mint =
    total (is_held meta owner mint) (λ k. amount_at k (balances meta key)) (touched meta)

add_differences : (a b x y : ℕ) → (pos a -ℤ pos b) +ℤ (pos x -ℤ pos y) ≡ pos (a + x) -ℤ pos (b + y)
unfolding ◌+ℤ◌ ◌-ℤ◌
add_differences a b x y = ground arith

nothing : pos 0 ≡ pos 0 -ℤ pos 0
unfolding ◌-ℤ◌
nothing = refl

sum_of_differences :
    (p q : Account → Bool) (a b : Account → ℕ) (ks : List Account)
    → ((k : Account) → p k ≡ q k)
    → sum_ℤ (
        filter_map
          (λ (d : Account × ℤ). if p d.0 then some d.1 else none)
          (map (λ k. (k, pos (a k) -ℤ pos (b k))) ks))
      ≡ pos (total q a ks) -ℤ pos (total q b ks)
sum_of_differences p q a b [] same = nothing
sum_of_differences p q a b (k ∷ ks) same = ground (
  arith,
  same k,
  sum_of_differences p q a b ks same,
  add_differences (a k) (b k) (total q a ks) (total q b ks),
)

owners-named :
    (index : ℕ) (owner : String) (js : List Json)
    → any (λ o. nat_beq o.0 index && o.1 == owner) (filter_map owner_of js)
      ≡ any (names_owner index owner) js
owners-named index owner [] = refl
owners-named index owner (e ∷ js) = ground (arith, owners-named index owner js)

-- The change of an owner in a mint is what it holds after the transaction less what it held before.
pub delta_for-holdings :
    (meta : Json) (owner mint : String)
    → delta_for owner mint (owner_for_index meta) (token_deltas meta)
      ≡ pos (holdings meta "postTokenBalances" owner mint)
        -ℤ pos (holdings meta "preTokenBalances" owner mint)
unfolding delta_for token_deltas owner_for_index
delta_for-holdings meta owner mint =
    sum_of_differences
      (λ k. k.1 == mint && any (λ o. nat_beq o.0 k.0 && o.1 == owner) (owner_for_index meta))
      (is_held meta owner mint) (λ k. amount_at k (balances meta "postTokenBalances"))
      (λ k. amount_at k (balances meta "preTokenBalances")) (touched meta)
      (λ k.
        ap (λ b. k.1 == mint && b)
          (owners-named k.0 owner (unwrap_or (as_array (field meta "postTokenBalances")) [])))
