-- ===== src/Runtime/Steps.antt =====
-- runtime.rs: what chains of calls of the store keep, and what a chain that succeeds has done.
use solana_bot.Prelude.{◌≡◌, refl, Result, ok, err, arith, Option-cases, inl, inr}
use solana_bot.Storage.{Tables, Store, StorageError, Db, key_eq, and_then, caught, statement, query}
use solana_bot.Runtime.Types.{within}

module _ {J T : Type 0} where
  -- The same tables, in the same transaction.
  abbrev pub Keeps : Store J T → Store J T → Type 0
  Keeps s t = (t.tables ≡ s.tables) × (t.saved ≡ s.saved)

  pub query-Keeps :
      {A : Type 0} (f : Tables J T → Result StorageError A) (s : Store J T) → Keeps s (query f s).1
  unfolding query
  query-Keeps f s = elim (Option-cases (s.fault s.calls)) [
    | inl fine ↦ ground arith
    | inr (e, failed) ↦ ground arith
  ]

  pub statement-saved :
      {A : Type 0} (f : Tables J T → A × Tables J T) (s : Store J T)
      → (statement f s).1.saved ≡ s.saved
  unfolding statement
  statement-saved f s = elim (Option-cases (s.fault s.calls)) [
    | inl fine ↦ ground arith
    | inr (e, failed) ↦ ground arith
  ]

  pub statement-ok :
      {A : Type 0} (f : Tables J T → A × Tables J T) (s t : Store J T) (a : A)
      → statement f s ≡ (ok a, t)
      → (a ≡ (f s.tables).0) × (t.tables ≡ (f s.tables).1)
  unfolding statement
  statement-ok f s t a done = elim (Option-cases (s.fault s.calls)) [
    | inl fine ↦ ground arith
    | inr (e, failed) ↦ ground arith
  ]

  pub query-ok :
      {A : Type 0} (f : Tables J T → Result StorageError A) (s t : Store J T) (a : A)
      → query f s ≡ (ok a, t)
      → (f s.tables ≡ ok a) × (t.tables ≡ s.tables)
  unfolding query
  query-ok f s t a done = elim (Option-cases (s.fault s.calls)) [
    | inl fine ↦ ground arith
    | inr (e, failed) ↦ ground arith
  ]

module _ {J T E A : Type 0} where
  pub caught-1 : {F : Type 0} (f : E → F) (r : Result E A × Store J T) → (caught f r).1 ≡ r.1
  caught-1 f (ok a, s) = refl
  caught-1 f (err e, s) = refl

  pub caught-ok :
      {F : Type 0} (f : E → F) (r : Result E A × Store J T) (a : A) (t : Store J T)
      → caught f r ≡ (ok a, t)
      → r ≡ (ok a, t)
  caught-ok f (ok b, s) a t done = ground arith
  caught-ok f (err e, s) a t done = ground arith

  pub and_then-ok :
      {B : Type 0} (r : Result E A × Store J T) (k : A → Db J T E B) (b : B) (u : Store J T)
      → and_then r k ≡ (ok b, u)
      → (a : A) × (t : Store J T) × (r ≡ (ok a, t)) × (k a t ≡ (ok b, u))
  and_then-ok (ok a, t) k b u done = (a, t, refl, done)
  and_then-ok (err e, t) k b u done = ground arith

module _ {J T E A B : Type 0} where
  pub within-ok :
      (f : StorageError → E) (m : Db J T StorageError A) (k : A → Db J T E B) (s u : Store J T)
      (b : B)
      → and_then (within f m s) k ≡ (ok b, u)
      → (a : A) × (t : Store J T) × (m s ≡ (ok a, t)) × (k a t ≡ (ok b, u))
  within-ok f m k s u b done =
      let (a, t, read, rest) = and_then-ok (within f m s) k b u done in
      (a, t, caught-ok f (m s) a t read, rest)

-- A relation between the stores before and after that is transitive holds along a chain.
module _ {J T : Type 0} (R : Store J T → Store J T → Type 0)
    (chain : (s t u : Store J T) → R s t → R t u → R s u) where
  pub and_then-R :
      {E A B : Type 0} (s : Store J T) (r : Result E A × Store J T) (k : A → Db J T E B)
      → R s r.1
      → ((a : A) (t : Store J T) → R t (k a t).1)
      → R s (and_then r k).1
  and_then-R s (ok a, t) k first rest = chain s t (k a t).1 first (rest a t)
  and_then-R s (err e, t) k first rest = first
