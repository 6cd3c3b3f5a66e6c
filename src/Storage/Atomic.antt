-- ===== src/Storage/Atomic.antt =====
-- storage/state.rs: a transaction is applied as a whole or not at all.
use solana_bot.Prelude.{
  ◌≡◌, ◌+◌, ◌⊎◌, ◌∙◌, none, some, arith, Result, ok, err, unwrap_or, sym, ap, inl, inr,
  Option-cases, Bool-cases, is_ok, false,
}
use mathlib.Core.Path.{subst}
use solana_bot.Storage.Sql.{
  Tables, Store, StorageError, Db, begin, commit, rollback, durable, finish, caught, and_then,
  run_in_transaction, counted,
}

module _ {J T : Type 0} where
  rollback-durable : (s t : Store J T) → t.saved ≡ some s.tables → durable (rollback t).1 ≡ s.tables
  unfolding rollback
  rollback-durable s t opened = ground arith

  -- The store once a transaction is open.
  abbrev pub begun : Store J T → Store J T
  begun s = record s { saved = some s.tables; calls = s.calls + 1 }

  begin-cases :
      (s : Store J T)
      → s.saved ≡ none
      → (begin s ≡ (ok tt, begun s)) ⊎ ((e : StorageError) × (begin s ≡ (err e, counted s)))
  unfolding begin
  begin-cases s closed = elim (Option-cases (s.fault s.calls)) [
    | inl fine ↦ inl (ground arith)
    | inr (e, failed) ↦ inr (e, ground arith)
  ]

module _ {J T E R : Type 0} where
  -- How a transaction ends: committed, with the tables that its body leaves; or with an error and
  -- nothing that a restart would find.
  abbrev pub Ends : Store J T → Result E R × Store J T → Result E R × Store J T → Type 0
  Ends s body (ok r, s') = (s'.saved ≡ none) × (s'.tables ≡ body.1.tables) × (body.0 ≡ ok r)
  Ends s body (err e, s') = durable s' ≡ s.tables

  commit-Ends :
      (from : StorageError → E) (s t : Store J T) (r : R)
      → t.saved ≡ some s.tables
      → Ends s (ok r, t) (and_then (caught from (commit t)) (λ _ u. (ok r, u)))
  unfolding commit
  commit-Ends from s t r opened = elim (Option-cases (t.fault t.calls)) [
    | inl fine ↦ ground arith
    | inr (e, failed) ↦ elim (Bool-cases (t.rolled_back t.calls)) [
      | inl undone ↦ ground arith
      | inr kept ↦ ground arith
    ]
  ]

  finish-Ends :
      (from : StorageError → E) (s : Store J T) (r : Result E R × Store J T)
      → r.1.saved ≡ some s.tables
      → Ends s r (finish from r)
  finish-Ends from s (ok r, t) opened = commit-Ends from s t r opened
  finish-Ends from s (err e, t) opened = rollback-durable s t opened

  -- Where no transaction is open and the body neither opens nor ends one, a transaction either
  -- commits, with the tables that its body leaves after a success, or gives an error, and then a
  -- restart finds the tables as they were before, whichever statement failed.
  pub run_in_transaction-Ends :
      (from : StorageError → E) (body : Db J T E R) (s : Store J T)
      → s.saved ≡ none
      → ((t : Store J T) → (body t).1.saved ≡ t.saved)
      → Ends s (body (begun s)) (run_in_transaction from body s)
  unfolding run_in_transaction
  run_in_transaction-Ends from body s closed plain = elim (begin-cases s closed) [
    | inl opened ↦
        subst
          (λ x. Ends s (body (begun s)) (and_then (caught from x) (λ _ t. finish from (body t))))
          (sym opened) (finish-Ends from s (body (begun s)) (plain (begun s)))
    | inr (e, failed) ↦
        subst
          (λ x. Ends s (body (begun s)) (and_then (caught from x) (λ _ t. finish from (body t))))
          (sym failed) (ap (λ x. unwrap_or x s.tables) closed)
  ]

  -- While a transaction is open, no other one can succeed.
  blocked :
      (from : StorageError → E) (body : Db J T E R) (s : Store J T) (t : Tables J T)
      → s.saved ≡ some t
      → is_ok (run_in_transaction from body s).0 ≡ false
  unfolding run_in_transaction begin
  blocked from body s t opened = elim (Option-cases (s.fault s.calls)) [
    | inl fine ↦ ground arith
    | inr (e, failed) ↦ ground arith
  ]

  commit_stays_open :
      (from : StorageError → E) (t : Store J T) (r : R)
      → t.rolled_back t.calls ≡ false
      → is_ok (finish from (ok r, t)).0 ≡ false
      → (finish from (ok r, t)).1.saved ≡ t.saved
  unfolding commit
  commit_stays_open from t r kept failed = elim (Option-cases (t.fault t.calls)) [
    | inl fine ↦ ground arith
    | inr (e, bad) ↦ ground arith
  ]

  run-begun :
      (from : StorageError → E) (body : Db J T E R) (s : Store J T)
      → s.saved ≡ none
      → s.fault s.calls ≡ none
      → run_in_transaction from body s ≡ finish from (body (begun s))
  unfolding run_in_transaction begin
  run-begun from body s closed fine = ground arith

  -- Where no transaction is open, BEGIN succeeds, the body succeeds and leaves its transaction open,
  -- the COMMIT fails, and the database does not roll back by itself, the connection stays inside the
  -- transaction: the next transaction on it fails, whatever its body is.
  pub failed_commit_blocks :
      (from : StorageError → E) (body other : Db J T E R) (s : Store J T) (r : R)
      → s.saved ≡ none
      → s.fault s.calls ≡ none
      → (body (begun s)).0 ≡ ok r
      → (body (begun s)).1.saved ≡ some s.tables
      → (body (begun s)).1.rolled_back (body (begun s)).1.calls ≡ false
      → is_ok (run_in_transaction from body s).0 ≡ false
      → is_ok (run_in_transaction from other (run_in_transaction from body s).1).0 ≡ false
  failed_commit_blocks from body other s r closed fine good opened kept failed =
      let whole = run-begun from body s closed fine in
      let after : Store J T = (body (begun s)).1 in
      let split : run_in_transaction from body s ≡ finish from (ok r, after) =
        whole ∙ ap (λ x. finish from (x, after)) good in
      let bad : is_ok (finish from (ok r, after)).0 ≡ false =
        ap (λ x. is_ok x.0) (sym split) ∙ failed in
      let still = commit_stays_open from after r kept bad in
      blocked from other (run_in_transaction from body s).1 s.tables
        (ap (λ x. x.1.saved) split ∙ still ∙ opened)
